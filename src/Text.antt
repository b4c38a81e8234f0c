-- ===== src/Text.antt =====
-- The parts of Go's `strings` package that the program uses, on texts as lists of characters.
-- `to_lower` and `equal_fold` change the letters A to Z alone: the program compares and lowers names,
-- states and permission keys, which are ASCII; other letters are left as they are.
pub mod Laws
pub mod Numbers
pub mod Solid
pub mod Paths
use Prim.Native.Char.{Char, code}
use Prim.Native.String.{[], ◌∷◌, char_at, ◌++◌}
use text.Mathlib.Text.{starts_with}
use kvm_manager.Base.{
  ℕ, zero, suc, ◌-◌, ◌/◌, ◌%◌, String, Bool, true, false, ◌&&◌, ◌||◌, List, ◌==◌, leb, eqb,
  if◌then◌else◌,
}
use mathlib.Core.List.{◌∷◌ as ◌∷ᴸ◌, [] as []ᴸ}

infixr 66 ◌<>◌
abbrev pub ◌<>◌ : String → String → String
s <> t = s ++ t

-- unicode.IsSpace
unfoldable pub is_space : Char → Bool
is_space c =
    (leb 9 (code c) && leb (code c) 13)
    || eqb (code c) 32
    || eqb (code c) 133
    || eqb (code c) 160
    || eqb (code c) 5760
    || (leb 8192 (code c) && leb (code c) 8202)
    || eqb (code c) 8232
    || eqb (code c) 8233
    || eqb (code c) 8239
    || eqb (code c) 8287
    || eqb (code c) 12288

trim_left : String → String
trim_left [] = []
trim_left (c ∷ s) = let rest = trim_left s in if is_space c then rest else c ∷ s

-- A character put before a text whose spaces at the right end are gone.
keep_unless_blank : Char → String → String
keep_unless_blank c [] = if is_space c then [] else c ∷ []
keep_unless_blank c (d ∷ s) = c ∷ d ∷ s

trim_right : String → String
trim_right [] = []
trim_right (c ∷ s) = keep_unless_blank c (trim_right s)

-- strings.TrimSpace
unfoldable pub trim_space : String → String
unfolding trim_left trim_right keep_unless_blank is_space
trim_space s = trim_left (trim_right s)

lower_char : Char → Char
lower_char c =
    if leb 65 (code c) && leb (code c) 90
    then char_at "abcdefghijklmnopqrstuvwxyz" (code c - 65)
    else c

-- strings.ToLower
unfoldable pub to_lower : String → String
unfolding lower_char
to_lower [] = []
to_lower (c ∷ s) = lower_char c ∷ to_lower s

-- strings.EqualFold
unfoldable pub equal_fold : String → String → Bool
unfolding to_lower
equal_fold s t = to_lower s == to_lower t

-- strings.Contains
unfoldable pub contains : String → String → Bool
contains [] t = t == ""
contains (c ∷ s) t = starts_with (c ∷ s) t || contains s t

-- strings.HasSuffix
unfoldable pub has_suffix : String → String → Bool
has_suffix [] t = t == ""
has_suffix (c ∷ s) t = (c ∷ s) == t || has_suffix s t

-- The first value that is not blank, trimmed; empty when all are.
unfoldable pub first_non_empty : List String → String
unfolding trim_space
first_non_empty []ᴸ = ""
first_non_empty (v ∷ᴸ vs) = if trim_space v == "" then first_non_empty vs else trim_space v

digit : ℕ → Char
digit d = char_at "0123456789" d

-- The digits of a positive number before those of `out`; a number below 2 ^ fuel ends by its test.
digits : ℕ → ℕ → String → String
unfolding digit
digits zero n out = out
digits (suc fuel) n out =
    let more = digits fuel (n / 10) (digit (n % 10) ∷ out) in if eqb n 0 then out else more

-- fmt's %d for a number that is not negative
unfoldable pub decimal : ℕ → String
unfolding digits
decimal n = if eqb n 0 then "0" else digits (suc n) n ""
