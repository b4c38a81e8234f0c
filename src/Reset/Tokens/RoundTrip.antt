-- ===== src/Reset/Tokens/RoundTrip.antt =====
-- Verifying what was signed.
use Prim.Native.String.{◌∷◌, ◌++◌, [] as nil}
use text.Mathlib.TextLemmas.{nil-append, cons-append, append_assoc}
use kvm_manager.Base.{
  ℕ, ◌^◌, ◌≤◌, ◌<◌, String, ◌≡◌, refl, ap, ◌∙◌, true, false, Option, none, some, arith, leb,
  Bool-cases, inl, inr, ◌&&◌, ◌==◌, eq_refl, if◌then◌else◌,
}
use kvm_manager.Base.Int.{pos, ltb_ℤ}
use kvm_manager.Text.{◌<>◌, trim_space, decimal}
use kvm_manager.Text.Numbers.{split_on, lacks}
use kvm_manager.Text.Numbers.Laws.{
  parse_int64-decimal, lacks-decimal, split_on-append, split_on_whole, trim_space-decimal,
}
use kvm_manager.Reset.Tokens.{
  Signer, sign_payload, sign_captcha, sign_reset_verification, check_parts, token_subject,
  verify_captcha, verify_reset_verification,
}
use mathlib.Core.List.{[], ◌∷◌ as ◌∷ᴸ◌}

-- What the program relies on: base64 decodes what it encodes, and its alphabet has neither spaces nor
-- a colon.
pub record IsSigner (signer : Signer) : Type 0 where
  pub decodes : (s : String) → signer.decode (signer.encode s) ≡ some s
  pub trimmed : (s : String) → trim_space (signer.encode s) ≡ signer.encode s
  pub no_colon : (s : String) → lacks 58 (signer.mac s) ≡ true

colon : (s : String) → ":" ++ s ≡ ":" ∷ s
colon s = cons-append ":" nil s ∙ ap (λ t. ":" ∷ t) (nil-append s)

split_payload :
    (subject expires mac : String)
    → lacks 58 subject ≡ true
    → lacks 58 expires ≡ true
    → lacks 58 mac ≡ true
    → split_on 58 ((subject <> ":" <> expires) <> ":" <> mac) ≡ subject ∷ᴸ expires ∷ᴸ mac ∷ᴸ []
split_payload subject expires mac s e m =
    let shape : (subject ++ (":" ++ expires)) ++ (":" ++ mac)
        ≡ subject ++ (":" ∷ (expires ++ (":" ∷ mac))) =
      append_assoc subject (":" ++ expires) (":" ++ mac)
      ∙ ap (λ t. subject ++ t)
          (ap (λ t. t ++ (":" ++ mac)) (colon expires)
            ∙ cons-append ":" expires (":" ++ mac)
            ∙ ap (λ t. ":" ∷ (expires ++ t)) (colon mac)) in
    ap (split_on 58) shape
    ∙ split_on-append 58 subject ":" (expires ++ (":" ∷ mac)) refl s
    ∙ ap (λ parts. subject ∷ᴸ parts)
        (split_on-append 58 expires ":" mac refl e
          ∙ ap (λ parts. expires ∷ᴸ parts) (split_on_whole 58 mac m))

-- The subject of a token within its time.
abbrev until : ℕ → ℕ → String → Option String
until now expires subject = if leb now expires then some subject else none

check_parts_lem :
    (signer : Signer) (now expires : ℕ) (subject : String)
    → expires < 2 ^ 63
    → check_parts signer now
        (subject ∷ᴸ decimal expires ∷ᴸ signer.mac (subject <> ":" <> decimal expires) ∷ᴸ [])
      ≡ until now expires subject
unfolding check_parts
check_parts_lem signer now expires subject small =
    rw (parse_int64-decimal expires small, check_parts)
      (rw (eq_refl (signer.mac (subject <> ":" <> decimal expires)))
        (elim (Bool-cases (leb now expires)) [
          | inl fresh ↦
              (let in_time : ltb_ℤ (pos expires) (pos now) ≡ false = ground arith in
                rw (in_time, fresh) refl)
          | inr stale ↦
              (let late : ltb_ℤ (pos expires) (pos now) ≡ true = ground arith in
                rw (late, stale) refl)
        ]))

module _ (signer : Signer) (sound : IsSigner signer) where
  token_subject_lem :
      (now expires : ℕ) (subject : String)
      → lacks 58 subject ≡ true
      → expires < 2 ^ 63
      → token_subject signer now (sign_payload signer (subject <> ":" <> decimal expires))
        ≡ until now expires subject
  unfolding token_subject sign_payload
  token_subject_lem now expires subject s small =
      let payload = subject <> ":" <> decimal expires in
      let mac = signer.mac payload in
      let raw = payload <> ":" <> mac in
      let decoded : signer.decode (trim_space (signer.encode raw)) ≡ some raw =
        ap signer.decode (sound.trimmed raw) ∙ sound.decodes raw in
      rw (decoded, token_subject)
        (ap (check_parts signer now) (
            split_payload subject (decimal expires) mac s
              (lacks-decimal 58 expires (inr (omega arith))) (sound.no_colon payload))
          ∙ check_parts_lem signer now expires subject small)

  -- A verification token that was signed for a name without a colon is accepted exactly until its time
  -- is over, and for exactly the names that are that one, spaces around them aside.
  pub verify_reset_verification-sign_reset_verification :
      (now expires : ℕ) (username other : String)
      → lacks 58 (trim_space username) ≡ true
      → expires < 2 ^ 63
      → verify_reset_verification signer now (sign_reset_verification signer username expires) other
        ≡ (leb now expires && trim_space username == trim_space other)
  unfolding verify_reset_verification sign_reset_verification
  verify_reset_verification-sign_reset_verification now expires username other s small =
      rw (token_subject_lem now expires (trim_space username) s small, verify_reset_verification)
        (elim (Bool-cases (leb now expires)) [ inl e ↦ rw e refl | inr e ↦ rw e refl ])

  -- A captcha that was signed for an answer accepts that number as text, spaces around it aside,
  -- until its time is over, as often as it is shown, and nothing else.
  pub verify_captcha-sign_captcha :
      (now expires answer : ℕ) (text : String)
      → expires < 2 ^ 63
      → verify_captcha signer now (sign_captcha signer answer expires) text
        ≡ (leb now expires && trim_space text == decimal answer)
  unfolding verify_captcha sign_captcha
  verify_captcha-sign_captcha now expires answer text small =
      rw
        (
          token_subject_lem now expires (decimal answer)
              (lacks-decimal 58 answer (inr (omega arith))) small,
          verify_captcha,
        )
        (elim (Bool-cases (leb now expires)) [ inl e ↦ rw e refl | inr e ↦ rw e refl ])

  -- A captcha that was signed for an answer is accepted, within its time, as a verification of the
  -- user whose name is that number, though nobody has given the answer.
  pub verify_reset_verification-sign_captcha :
      (now expires answer : ℕ)
      → now ≤ expires
      → expires < 2 ^ 63
      → verify_reset_verification signer now (sign_captcha signer answer expires) (decimal answer)
        ≡ true
  unfolding verify_reset_verification sign_captcha
  verify_reset_verification-sign_captcha now expires answer fresh small =
      let in_time : leb now expires ≡ true = ground arith in
      rw
        (
          token_subject_lem now expires (decimal answer)
              (lacks-decimal 58 answer (inr (omega arith))) small,
          verify_reset_verification,
        )
        (rw in_time (rw (trim_space-decimal answer) (eq_refl (decimal answer))))
