-- ===== src/Text/Numbers/Laws.antt =====
-- Reading what `decimal` prints, and splitting what was joined.
use Prim.Native.Char.{Char, code}
use Prim.Native.String.{[], ◌∷◌, ◌++◌}
use kvm_manager.Base.{
  ℕ, zero, suc, ◌+◌, ◌*◌, ◌/◌, ◌%◌, ◌^◌, ◌≤◌, ◌<◌, String, ◌≡◌, refl, sym, ap, subst, ◌∙◌, Bool,
  true, false, ◌&&◌, some, ltb, eqb, arith, Bool-cases, ◌⊎◌, inl, inr, if◌then◌else◌, ◌==◌, eq_iff,
}
use text.Mathlib.TextLemmas.{nil-append, cons-append, nil≢cons}
use kvm_manager.Base.Int.{pos}
use kvm_manager.Text.{digit, digits, decimal, is_space, trim_space}
use kvm_manager.Text.Numbers.{
  is_digit, read_digits, parse_digits, positive, parse_int64, push_char, split_on, lacks,
}
use kvm_manager.Text.Solid.{solid, trim_space_of_solid}
use mathlib.Core.List.{◌∷◌ as ◌∷ᴸ◌, [] as []ᴸ}

-- A digit before a text.
read_digits-digit :
    (acc d : ℕ) (s : String) → d < 10 → read_digits acc (digit d ∷ s) ≡ read_digits (acc * 10 + d) s
unfolding read_digits is_digit digit
read_digits-digit acc zero s h = refl
read_digits-digit acc (suc zero) s h = refl
read_digits-digit acc (suc (suc zero)) s h = refl
read_digits-digit acc (suc (suc (suc zero))) s h = refl
read_digits-digit acc (suc (suc (suc (suc zero)))) s h = refl
read_digits-digit acc (suc (suc (suc (suc (suc zero))))) s h = refl
read_digits-digit acc (suc (suc (suc (suc (suc (suc zero)))))) s h = refl
read_digits-digit acc (suc (suc (suc (suc (suc (suc (suc zero))))))) s h = refl
read_digits-digit acc (suc (suc (suc (suc (suc (suc (suc (suc zero)))))))) s h = refl
read_digits-digit acc (suc (suc (suc (suc (suc (suc (suc (suc (suc zero))))))))) s h = refl
read_digits-digit acc (suc (suc (suc (suc (suc (suc (suc (suc (suc (suc d)))))))))) s h =
    absurd (omega arith)

only_digits : String → Bool
only_digits [] = true
only_digits (c ∷ s) = is_digit c && only_digits s

only_digits-digit : (d : ℕ) (s : String) → d < 10 → only_digits (digit d ∷ s) ≡ only_digits s
unfolding only_digits is_digit digit
only_digits-digit zero s h = refl
only_digits-digit (suc zero) s h = refl
only_digits-digit (suc (suc zero)) s h = refl
only_digits-digit (suc (suc (suc zero))) s h = refl
only_digits-digit (suc (suc (suc (suc zero)))) s h = refl
only_digits-digit (suc (suc (suc (suc (suc zero))))) s h = refl
only_digits-digit (suc (suc (suc (suc (suc (suc zero)))))) s h = refl
only_digits-digit (suc (suc (suc (suc (suc (suc (suc zero))))))) s h = refl
only_digits-digit (suc (suc (suc (suc (suc (suc (suc (suc zero)))))))) s h = refl
only_digits-digit (suc (suc (suc (suc (suc (suc (suc (suc (suc zero))))))))) s h = refl
only_digits-digit (suc (suc (suc (suc (suc (suc (suc (suc (suc (suc d)))))))))) s h =
    absurd (omega arith)

read_digits-digits :
    (fuel n : ℕ) (out : String) → n ≤ fuel → read_digits 0 (digits fuel n out) ≡ read_digits n out
unfolding digits
read_digits-digits zero zero out h = refl
read_digits-digits zero (suc n) out h = absurd (omega arith)
read_digits-digits (suc fuel) n out h = elim (Bool-cases (eqb n 0)) [
  | inl e ↦ rw e (ap (λ k. read_digits k out) (ground arith))
  | inr e ↦ rw e (
      read_digits-digits fuel (n / 10) (digit (n % 10) ∷ out) (ground arith)
      ∙ read_digits-digit (n / 10) (n % 10) out (omega arith)
      ∙ ap (λ k. read_digits k out) (omega arith))
]

only_digits-digits :
    (fuel n : ℕ) (out : String) → only_digits out ≡ true → only_digits (digits fuel n out) ≡ true
unfolding digits
only_digits-digits zero n out h = h
only_digits-digits (suc fuel) n out h = elim (Bool-cases (eqb n 0)) [
  | inl e ↦ rw e h
  | inr e ↦ rw e (
      only_digits-digits fuel (n / 10) (digit (n % 10) ∷ out)
        (only_digits-digit (n % 10) out (omega arith) ∙ h))
]

decimal-suc : (n : ℕ) → decimal (suc n) ≡ digits (suc (suc n)) (suc n) []
unfolding decimal
decimal-suc n =
    let e : eqb (suc n) 0 ≡ false = ground arith in
    subst
      (λ b. (if b then "0" else digits (suc (suc n)) (suc n) []) ≡ digits (suc (suc n)) (suc n) [])
      (sym e) refl

only_digits-decimal : (n : ℕ) → only_digits (decimal n) ≡ true
unfolding decimal only_digits is_digit
only_digits-decimal zero = refl
only_digits-decimal (suc n) =
    ap only_digits (decimal-suc n) ∙ only_digits-digits (suc (suc n)) (suc n) [] refl

read_digits-decimal : (n : ℕ) → read_digits 0 (decimal n) ≡ some n
unfolding decimal read_digits is_digit
read_digits-decimal zero = refl
read_digits-decimal (suc n) =
    ap (read_digits 0) (decimal-suc n) ∙ read_digits-digits (suc (suc n)) (suc n) [] (omega arith)

-- A text of digits that is read as a number is no empty text and has no sign.
parse_int64_of_digits :
    (s : String) (n : ℕ)
    → only_digits s ≡ true
    → (s == "") ≡ false
    → read_digits 0 s ≡ some n
    → n < 2 ^ 63
    → parse_int64 s ≡ some (pos n)
unfolding parse_int64 only_digits is_digit parse_digits
parse_int64_of_digits [] n h e r b = cc
parse_int64_of_digits (c ∷ s) n h e r b =
    let no_minus : eqb (code c) 45 ≡ false = ground arith in
    let no_plus : eqb (code c) 43 ≡ false = ground arith in
    let fits : ltb n (2 ^ 63) ≡ true = ground arith in
    rw (no_minus, no_plus) (ap positive r ∙ (rw fits refl))

pub cons_ne_nil : (c : Char) (s : String) → ((c ∷ s) == "") ≡ false
cons_ne_nil c s = elim (Bool-cases ((c ∷ s) == "")) [
  | inl e ↦ absurd (nil≢cons (sym ((eq_iff (c ∷ s) "").0 e)))
  | inr e ↦ e
]

digits_ne_nil : (fuel n : ℕ) (c : Char) (out : String) → (digits fuel n (c ∷ out) == "") ≡ false
unfolding digits
digits_ne_nil zero n c out = cons_ne_nil c out
digits_ne_nil (suc fuel) n c out = elim (Bool-cases (eqb n 0)) [
  | inl e ↦ rw e (cons_ne_nil c out)
  | inr e ↦ rw e (digits_ne_nil fuel (n / 10) (digit (n % 10)) (c ∷ out))
]

pub decimal_ne_nil : (n : ℕ) → (decimal n == "") ≡ false
unfolding decimal digits
decimal_ne_nil zero = refl
decimal_ne_nil (suc n) =
    ap (λ s. s == "") (decimal-suc n)
    ∙ (let e : eqb (suc n) 0 ≡ false = ground arith in
        subst
          (λ b.
            ((if b then [] else digits (suc n) (suc n / 10) (digit (suc n % 10) ∷ [])) == "")
            ≡ false)
          (sym e) (digits_ne_nil (suc n) (suc n / 10) (digit (suc n % 10)) []))

-- ParseInt reads the number that %d prints.
pub parse_int64-decimal : (n : ℕ) → n < 2 ^ 63 → parse_int64 (decimal n) ≡ some (pos n)
parse_int64-decimal n h =
    parse_int64_of_digits (decimal n) n (only_digits-decimal n) (decimal_ne_nil n)
      (read_digits-decimal n) h

lacks_of_only_digits :
    (sep : ℕ) (s : String) → (sep < 48) ⊎ (57 < sep) → only_digits s ≡ true → lacks sep s ≡ true
unfolding only_digits lacks is_digit
lacks_of_only_digits sep [] k h = refl
lacks_of_only_digits sep (c ∷ s) k h = ground (arith, lacks_of_only_digits sep s k)

-- No other character than digits stands in a number.
pub lacks-decimal : (sep n : ℕ) → (sep < 48) ⊎ (57 < sep) → lacks sep (decimal n) ≡ true
lacks-decimal sep n k = lacks_of_only_digits sep (decimal n) k (only_digits-decimal n)

parse_digits_lem : (s : String) → (s == "") ≡ false → parse_digits s ≡ read_digits 0 s
unfolding parse_digits
parse_digits_lem [] h = cc
parse_digits_lem (c ∷ s) h = refl

-- The digits of a number are read as that number.
pub parse_digits-decimal : (n : ℕ) → parse_digits (decimal n) ≡ some n
parse_digits-decimal n = parse_digits_lem (decimal n) (decimal_ne_nil n) ∙ read_digits-decimal n

-- A part that lacks the separator is split off.
pub split_on-append :
    (sep : ℕ) (s : String) (c : Char) (t : String)
    → eqb (code c) sep ≡ true
    → lacks sep s ≡ true
    → split_on sep (s ++ (c ∷ t)) ≡ s ∷ᴸ split_on sep t
unfolding split_on lacks push_char
split_on-append sep [] c t e h = rw (nil-append (c ∷ t)) (rw e refl)
split_on-append sep (d ∷ s) c t e h =
    let other : eqb (code d) sep ≡ false = ground arith in
    rw (cons-append d s (c ∷ t))
      (rw other (ap (push_char d) (split_on-append sep s c t e (ground arith))))

-- A text without the separator is its only part.
pub split_on_whole : (sep : ℕ) (s : String) → lacks sep s ≡ true → split_on sep s ≡ s ∷ᴸ []ᴸ
unfolding split_on lacks push_char
split_on_whole sep [] h = refl
split_on_whole sep (d ∷ s) h =
    let other : eqb (code d) sep ≡ false = ground arith in
    rw other (ap (push_char d) (split_on_whole sep s (ground arith)))

digit_is_no_space : (c : Char) → is_digit c ≡ true → is_space c ≡ false
unfolding is_digit is_space
digit_is_no_space c h = ground arith

solid_of_only_digits : (s : String) → only_digits s ≡ true → solid s ≡ true
unfolding only_digits solid
solid_of_only_digits [] h = refl
solid_of_only_digits (c ∷ s) h =
    ground (arith, solid_of_only_digits s, digit_is_no_space c (ground arith))

-- No space stands in a number.
pub solid-decimal : (n : ℕ) → solid (decimal n) ≡ true
solid-decimal n = solid_of_only_digits (decimal n) (only_digits-decimal n)

-- A number has no space around it.
pub trim_space-decimal : (n : ℕ) → trim_space (decimal n) ≡ decimal n
trim_space-decimal n = trim_space_of_solid (decimal n) (solid-decimal n)
