-- ===== src/Text/Laws.antt =====
-- Laws of trimming and of searching in texts.
use Prim.Native.Char.{Char}
use Prim.Native.String.{[], ◌∷◌, ◌++◌}
use text.Mathlib.TextLemmas.{tail-eq_of_cons-eq, nil≢cons, nil-append, cons-append}
use kvm_manager.Base.{String, ◌≡◌, refl, sym, false, ◌∙◌, ap, Bool-cases, inl, inr}
use kvm_manager.Text.{is_space, trim_left, trim_right, keep_unless_blank, trim_space}

trim_right-keep :
    (c : Char) (s : String)
    → trim_right s ≡ s
    → trim_right (keep_unless_blank c s) ≡ keep_unless_blank c s
unfolding trim_right keep_unless_blank
trim_right-keep c [] h = elim (Bool-cases (is_space c)) [
  | inl blank ↦ rw blank
  | inr solid ↦ rw (solid, trim_right, keep_unless_blank) (rw solid)
]
trim_right-keep c (d ∷ s) h = ap (keep_unless_blank c) h

trim_right-trim_right : (s : String) → trim_right (trim_right s) ≡ trim_right s
unfolding trim_right
trim_right-trim_right [] = refl
trim_right-trim_right (c ∷ s) = trim_right-keep c (trim_right s) (trim_right-trim_right s)

tail_of_keep : (c : Char) (t s : String) → keep_unless_blank c t ≡ c ∷ s → t ≡ s
unfolding keep_unless_blank
tail_of_keep c [] s h = elim (Bool-cases (is_space c)) [
  | inl blank ↦ absurd (nil≢cons (rw blank at h))
  | inr solid ↦ tail-eq_of_cons-eq (rw solid at h)
]
tail_of_keep c (d ∷ t) s h = tail-eq_of_cons-eq h

trim_right-trim_left : (s : String) → trim_right s ≡ s → trim_right (trim_left s) ≡ trim_left s
unfolding trim_left
trim_right-trim_left [] h = h
trim_right-trim_left (c ∷ s) h = elim (Bool-cases (is_space c)) [
  | inl blank ↦ rw blank (trim_right-trim_left s (tail_of_keep c _ s (unfold trim_right in h)))
  | inr solid ↦ rw solid h
]

trim_left-trim_left : (s : String) → trim_left (trim_left s) ≡ trim_left s
unfolding trim_left
trim_left-trim_left [] = refl
trim_left-trim_left (c ∷ s) = elim (Bool-cases (is_space c)) [
  | inl blank ↦ rw blank (trim_left-trim_left s)
  | inr solid ↦ rw (solid, trim_left) (rw solid)
]

trim_space_lem : (s : String) → trim_space s ≡ trim_left (trim_right s)
unfolding trim_space
trim_space_lem s = refl

trim_left_again :
    (s : String) → trim_left (trim_right (trim_left (trim_right s))) ≡ trim_left (trim_right s)
trim_left_again s =
    ap trim_left (trim_right-trim_left (trim_right s) (trim_right-trim_right s))
    ∙ trim_left-trim_left (trim_right s)

-- Trimming twice is trimming once.
pub trim_space-trim_space : (s : String) → trim_space (trim_space s) ≡ trim_space s
trim_space-trim_space s = rw (trim_space_lem (trim_space s), trim_space_lem s) (trim_left_again s)

keep_filled :
    (d : Char) (s : String) (c : Char) → keep_unless_blank d (s ++ (c ∷ [])) ≡ d ∷ (s ++ (c ∷ []))
unfolding keep_unless_blank
keep_filled d [] c = rw (nil-append (c ∷ [])) refl
keep_filled d (x ∷ s) c = rw (cons-append x s (c ∷ [])) refl

trim_right-append :
    (s : String) (c : Char) → is_space c ≡ false → trim_right (s ++ (c ∷ [])) ≡ s ++ (c ∷ [])
unfolding trim_right keep_unless_blank
trim_right-append [] c h = ap trim_right (nil-append (c ∷ [])) ∙ rw h (sym (nil-append (c ∷ [])))
trim_right-append (d ∷ s) c h =
    ap trim_right (cons-append d s (c ∷ []))
    ∙ ap (keep_unless_blank d) (trim_right-append s c h)
    ∙ keep_filled d s c
    ∙ sym (cons-append d s (c ∷ []))

bracketed : (s : String) → "(" ++ (s ++ ")") ≡ ("(" ∷ s) ++ (")" ∷ [])
bracketed s =
    cons-append "(" [] (s ++ ")")
    ∙ ap (λ t. "(" ∷ t) (nil-append (s ++ ")"))
    ∙ sym (cons-append "(" s (")" ∷ []))

closing : is_space ")" ≡ false
unfolding is_space
closing = refl

trim_left_bracket : (s : String) → trim_left ("(" ∷ s) ≡ "(" ∷ s
unfolding trim_left is_space
trim_left_bracket s = refl

-- A text in brackets has no space around it.
pub trim_space_in_brackets : (s : String) → trim_space ("(" ++ (s ++ ")")) ≡ "(" ++ (s ++ ")")
trim_space_in_brackets s =
    trim_space_lem ("(" ++ (s ++ ")"))
    ∙ ap (λ t. trim_left (trim_right t)) (bracketed s)
    ∙ ap trim_left (trim_right-append ("(" ∷ s) ")" closing)
    ∙ ap trim_left (cons-append "(" s (")" ∷ []))
    ∙ trim_left_bracket (s ++ (")" ∷ []))
    ∙ sym (cons-append "(" s (")" ∷ []))
    ∙ sym (bracketed s)
