-- ===== src/Access/Keys.antt =====
-- The keys of roles: roleKeyPattern, `^[a-z][a-z0-9._-]{1,40}$`, of backend/api/router/rbac.go.
use Prim.Native.Char.{Char, code}
use Prim.Native.String.{[], ◌∷◌}
use kvm_manager.Base.{ℕ, suc, String, Bool, false, ◌&&◌, ◌||◌, leb, eqb}

is_lower : Char → Bool
is_lower c = leb 97 (code c) && leb (code c) 122

-- [a-z0-9._-]
is_key_char : Char → Bool
unfolding is_lower
is_key_char c =
    is_lower c
    || (leb 48 (code c) && leb (code c) 57)
    || eqb (code c) 46
    || eqb (code c) 95
    || eqb (code c) 45

-- Whether all characters may stand in a key, `seen` of them having come, and there are 1 to 40.
is_key_tail : ℕ → String → Bool
unfolding is_key_char
is_key_tail seen [] = leb 1 seen && leb seen 40
is_key_tail seen (c ∷ s) = is_key_char c && is_key_tail (suc seen) s

unfoldable pub is_role_key : String → Bool
unfolding is_lower is_key_tail
is_role_key [] = false
is_role_key (c ∷ s) = is_lower c && is_key_tail 0 s
