-- ===== src/Text/Solid.antt =====
-- Texts without spaces, and texts that lack a character.
use Prim.Native.Char.{Char}
use Prim.Native.String.{[], ◌∷◌, ◌++◌}
use text.Mathlib.TextLemmas.{nil-append, cons-append}
use kvm_manager.Base.{ℕ, String, ◌≡◌, refl, ap, ◌∙◌, Bool, true, false, ◌&&◌, arith, if◌then◌else◌}
use kvm_manager.Text.{is_space, trim_left, trim_right, keep_unless_blank, trim_space}
use kvm_manager.Text.Numbers.{lacks}

unfoldable pub solid : String → Bool
solid [] = true
solid (c ∷ s) = (if is_space c then false else true) && solid s

pub solid-append : (s t : String) → solid s ≡ true → solid t ≡ true → solid (s ++ t) ≡ true
unfolding solid
solid-append [] t h k = ap solid (nil-append t) ∙ k
solid-append (c ∷ s) t h k =
    ap solid (cons-append c s t) ∙ ground (arith, solid-append s t (ground arith) k)

keep_solid : (c : Char) (s : String) → is_space c ≡ false → keep_unless_blank c s ≡ c ∷ s
unfolding keep_unless_blank
keep_solid c [] h = rw h refl
keep_solid c (d ∷ s) h = refl

trim_right_of_solid : (s : String) → solid s ≡ true → trim_right s ≡ s
unfolding trim_right solid
trim_right_of_solid [] h = refl
trim_right_of_solid (c ∷ s) h =
    ap (keep_unless_blank c) (trim_right_of_solid s (ground arith)) ∙ keep_solid c s (ground arith)

trim_left_of_solid : (s : String) → solid s ≡ true → trim_left s ≡ s
unfolding trim_left solid
trim_left_of_solid [] h = refl
trim_left_of_solid (c ∷ s) h = let e : is_space c ≡ false = ground arith in rw e refl

pub trim_space_of_solid : (s : String) → solid s ≡ true → trim_space s ≡ s
unfolding trim_space
trim_space_of_solid s h = ap trim_left (trim_right_of_solid s h) ∙ trim_left_of_solid s h

pub lacks-append :
    (sep : ℕ) (s t : String) → lacks sep s ≡ true → lacks sep t ≡ true → lacks sep (s ++ t) ≡ true
unfolding lacks
lacks-append sep [] t h k = ap (lacks sep) (nil-append t) ∙ k
lacks-append sep (c ∷ s) t h k =
    ap (lacks sep) (cons-append c s t) ∙ ground (arith, lacks-append sep s t (ground arith) k)
