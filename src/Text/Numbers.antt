-- ===== src/Text/Numbers.antt =====
-- strconv.ParseInt at base 10, and strings.Split at one character.
pub mod Laws
use Prim.Native.Char.{Char, code}
use Prim.Native.String.{[], ◌∷◌}
use kvm_manager.Base.{
  ℕ, ◌+◌, ◌-◌, ◌*◌, ◌^◌, String, Bool, true, false, ◌&&◌, Option, none, some, List, leb, ltb, eqb,
  if◌then◌else◌,
}
use kvm_manager.Base.Int.{ℤ, pos, negsuc}
use mathlib.Core.List.{◌∷◌ as ◌∷ᴸ◌, [] as []ᴸ}

unfoldable pub is_digit : Char → Bool
is_digit c = leb 48 (code c) && leb (code c) 57

-- The number that `acc` and the digits of a text make.
unfoldable pub read_digits : ℕ → String → Option ℕ
read_digits acc [] = some acc
read_digits acc (c ∷ s) =
    let rest = read_digits (acc * 10 + (code c - 48)) s in if is_digit c then rest else none

-- One digit or more.
unfoldable pub parse_digits : String → Option ℕ
parse_digits [] = none
parse_digits (c ∷ s) = read_digits 0 (c ∷ s)

positive : Option ℕ → Option ℤ
positive none = none
positive (some n) = if ltb n (2 ^ 63) then some (pos n) else none

negative : Option ℕ → Option ℤ
negative none = none
negative (some n) =
    if eqb n 0 then some (pos 0) else if leb n (2 ^ 63) then some (negsuc (n - 1)) else none

-- strconv.ParseInt(s, 10, 64), `none` for its errors.
unfoldable pub parse_int64 : String → Option ℤ
unfolding positive negative
parse_int64 [] = none
parse_int64 (c ∷ s) =
    if eqb (code c) 45
    then negative (parse_digits s)
    else if eqb (code c) 43
    then positive (parse_digits s)
    else positive (parse_digits (c ∷ s))

-- A character before the first part of a text that is split.
push_char : Char → List String → List String
push_char c []ᴸ = (c ∷ []) ∷ᴸ []ᴸ
push_char c (part ∷ᴸ parts) = (c ∷ part) ∷ᴸ parts

-- strings.Split at the character with a code
unfoldable pub split_on : ℕ → String → List String
unfolding push_char
split_on sep [] = [] ∷ᴸ []ᴸ
split_on sep (c ∷ s) =
    let parts = split_on sep s in if eqb (code c) sep then [] ∷ᴸ parts else push_char c parts

unfoldable pub lacks : ℕ → String → Bool
lacks sep [] = true
lacks sep (c ∷ s) = (if eqb (code c) sep then false else true) && lacks sep s
