-- ===== src/Host/Network/Xml/Escaped.antt =====
-- Texts in attributes of XML.
use Prim.Native.Char.{Char, code}
use Prim.Native.String.{◌∷◌ as ◌∷ᶜ◌, ◌++◌, [] as nil}
use kvm_manager.Base.{
  ℕ, String, ◌≡◌, refl, Bool, true, false, ◌&&◌, ◌||◌, ap, ◌∙◌, arith, eqb, if◌then◌else◌,
}
use kvm_manager.Text.Numbers.{lacks}
use text.Mathlib.TextLemmas.{nil-append, cons-append}
use kvm_manager.Host.Network.Xml.{is_in_character_range, escape_char, escape_xml_attr}

-- The characters that end an attribute's value or begin a tag: " ' < >
unfoldable pub is_markup : ℕ → Bool
is_markup n = eqb n 34 || eqb n 39 || eqb n 60 || eqb n 62

plain : String → Bool
plain nil = true
plain (c ∷ᶜ s) = (if is_markup (code c) then false else true) && plain s

plain-append : (s t : String) → plain s ≡ true → plain t ≡ true → plain (s ++ t) ≡ true
unfolding plain
plain-append nil t h k = ap plain (nil-append t) ∙ k
plain-append (c ∷ᶜ s) t h k =
    ap plain (cons-append c s t) ∙ ground (arith, plain-append s t (ground arith) k)

plain_either :
    (b : Bool) (s t : String)
    → plain s ≡ true
    → (b ≡ false → plain t ≡ true)
    → plain (if b then s else t) ≡ true
plain_either true s t h k = h
plain_either false s t h k = k refl

plain-escape_char : (c : Char) → plain (escape_char c) ≡ true
unfolding plain escape_char is_markup
plain-escape_char c = plain_either (eqb (code c) 34) _ _ refl λ quote.
    plain_either (eqb (code c) 39) _ _ refl λ apostrophe.
      plain_either (eqb (code c) 38) _ _ refl λ ampersand.
        plain_either (eqb (code c) 60) _ _ refl λ less.
          plain_either (eqb (code c) 62) _ _ refl λ greater.
            plain_either (eqb (code c) 9) _ _ refl λ tab.
              plain_either (eqb (code c) 10) _ _ refl λ newline.
                plain_either (eqb (code c) 13) _ _ refl λ return.
                  plain_either (is_in_character_range c) _ _ (ground arith) λ forbidden. refl

plain-escape_xml_attr : (s : String) → plain (escape_xml_attr s) ≡ true
unfolding escape_xml_attr plain
plain-escape_xml_attr nil = refl
plain-escape_xml_attr (c ∷ᶜ s) =
    plain-append (escape_char c) (escape_xml_attr s) (plain-escape_char c) (plain-escape_xml_attr s)

lacks_of_plain : (n : ℕ) (s : String) → is_markup n ≡ true → plain s ≡ true → lacks n s ≡ true
unfolding lacks plain is_markup
lacks_of_plain n nil h k = refl
lacks_of_plain n (c ∷ᶜ s) h k = ground (arith, lacks_of_plain n s h)

-- Whatever text is given, what is written for it in XML holds no quote of either kind and no angle
-- bracket.
pub lacks-escape_xml_attr :
    (n : ℕ) (value : String) → is_markup n ≡ true → lacks n (escape_xml_attr value) ≡ true
lacks-escape_xml_attr n value h =
    lacks_of_plain n (escape_xml_attr value) h (plain-escape_xml_attr value)
