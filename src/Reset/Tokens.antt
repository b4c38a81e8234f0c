-- ===== src/Reset/Tokens.antt =====
-- The signed tokens of backend/api/router/password_reset.go: signCaptcha, verifyCaptcha,
-- signResetVerification and verifyResetVerification, and randomCaptchaChallenge. The secret and
-- HMAC-SHA-256 are one function from a payload to the text of its code, and base64 is a pair of
-- functions.
pub mod RoundTrip
use kvm_manager.Base.{
  ℕ, ◌+◌, ◌-◌, ◌*◌, String, Bool, true, false, ◌&&◌, Option, none, some, List, [], ◌∷◌, ◌==◌, ltb,
  eqb, if◌then◌else◌,
}
use kvm_manager.Base.Int.{ℤ, pos, ltb_ℤ}
use kvm_manager.Text.{◌<>◌, trim_space, decimal}
use kvm_manager.Text.Numbers.{parse_int64, split_on}

-- hmac with the secret, as text; base64's encoding and decoding, `none` for its error.
pub record Signer : Type 0 where
  pub mac : String → String
  pub encode : String → String
  pub decode : String → Option String

unfoldable pub first_part : List String → String
first_part [] = ""
first_part (part ∷ parts) = part

module _ (signer : Signer) where
  -- What both kinds of tokens share.
  unfoldable pub sign_payload : String → String
  sign_payload payload = signer.encode (payload <> ":" <> signer.mac payload)

  unfoldable pub sign_captcha : ℕ → ℕ → String
  sign_captcha answer expires = sign_payload (decimal answer <> ":" <> decimal expires)

  unfoldable pub sign_reset_verification : String → ℕ → String
  sign_reset_verification username expires =
      sign_payload (trim_space username <> ":" <> decimal expires)

  -- The parts of a token that is not past its time and whose code is right: the first one.
  unfoldable pub check_parts : ℕ → List String → Option String
  check_parts now (subject ∷ expires ∷ code ∷ []) = elim (parse_int64 expires) [
    | none ↦ none
    | some at ↦
        if ltb_ℤ at (pos now)
        then none
        else if code == signer.mac (subject <> ":" <> expires)
        then some subject
        else none
  ]
  check_parts now parts = none

  unfoldable pub token_subject : ℕ → String → Option String
  token_subject now token = elim (signer.decode (trim_space token)) [
    | none ↦ none
    | some raw ↦ check_parts now (split_on 58 raw)
  ]

  unfoldable pub verify_captcha : ℕ → String → String → Bool
  verify_captcha now token answer = elim (token_subject now token) [
    | none ↦ false
    | some subject ↦ trim_space answer == subject
  ]

  unfoldable pub verify_reset_verification : ℕ → String → String → Bool
  verify_reset_verification now token username = elim (token_subject now token) [
    | none ↦ false
    | some subject ↦ subject == trim_space username
  ]

pub record CaptchaChallenge : Type 0 where
  pub question : String
  pub answer : ℕ

-- randomCaptchaChallenge, with the numbers that it draws.
unfoldable pub captcha_challenge : ℕ → ℕ → ℕ → CaptchaChallenge
captcha_challenge operator_index left right =
    if eqb operator_index 0
    then record { question = decimal left <> " + " <> decimal right; answer = left + right }
    else if eqb operator_index 1
    then (if ltb left right
        then record { question = decimal right <> " - " <> decimal left; answer = right - left }
        else record { question = decimal left <> " - " <> decimal right; answer = left - right })
    else record { question = decimal left <> " × " <> decimal right; answer = left * right }
