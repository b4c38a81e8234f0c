-- ===== src/Reset/Email.antt =====
-- emailAddressPattern, `^[^\s@]+@[^\s@]+\.[^\s@]+$`, of backend/api/router/password_reset.go.
use Prim.Native.Char.{Char, code}
use Prim.Native.String.{[], ◌∷◌}
use kvm_manager.Base.{String, Bool, true, false, ◌&&◌, ◌||◌, List, eqb, if◌then◌else◌}
use kvm_manager.Text.Numbers.{split_on}
use mathlib.Core.List.{◌∷◌ as ◌∷ᴸ◌, [] as []ᴸ}

-- RE2's \s
is_blank : Char → Bool
is_blank c =
    eqb (code c) 9 || eqb (code c) 10 || eqb (code c) 12 || eqb (code c) 13 || eqb (code c) 32

no_blanks : String → Bool
unfolding is_blank
no_blanks [] = true
no_blanks (c ∷ s) = (if is_blank c then false else true) && no_blanks s

is_filled : String → Bool
is_filled [] = false
is_filled (c ∷ s) = true

-- A dot with a character behind it.
has_dot : String → Bool
unfolding is_filled
has_dot [] = false
has_dot (c ∷ s) = (eqb (code c) 46 && is_filled s) || has_dot s

-- A dot with a character on either side.
has_inner_dot : String → Bool
unfolding has_dot
has_inner_dot [] = false
has_inner_dot (c ∷ s) = has_dot s

is_address : List String → Bool
unfolding is_filled no_blanks has_inner_dot
is_address (name ∷ᴸ domain ∷ᴸ []ᴸ) =
    is_filled name && no_blanks name && no_blanks domain && has_inner_dot domain
is_address parts = false

unfoldable pub is_email : String → Bool
unfolding is_address
is_email text = is_address (split_on 64 text)
