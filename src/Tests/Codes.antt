-- ===== src/Tests/Codes.antt =====
-- A signer that puts a text in brackets, and requests for codes.
use Prim.Native.Char.{Char}
use Prim.Native.String.{◌∷◌, ◌++◌, [] as nil}
use text.Mathlib.TextLemmas.{nil-append, cons-append}
use kvm_manager.Base.{
  ℕ, String, ◌≡◌, refl, ap, ◌∙◌, true, Option, none, some, List, arith, leb, ◌&&◌, ◌==◌,
}
use mathlib.Core.List.{[], ◌∷◌ as ◌∷ᴸ◌}
use kvm_manager.Text.{trim_space, decimal}
use kvm_manager.Text.Laws.{trim_space_in_brackets}
use kvm_manager.Text.Numbers.{lacks}
use kvm_manager.Reset.{RuntimeSettings, count_recent_tokens}
use kvm_manager.Reset.Tokens.{
  Signer, sign_captcha, sign_reset_verification, verify_captcha, verify_reset_verification,
}
use kvm_manager.Reset.Handlers.{SendCodeRequest}
use kvm_manager.Reset.Limit.{SendEvent, WithinLimit, latest, send_codes, send_codes-WithinLimit}
use kvm_manager.Tests.Sessions.{state}
use kvm_manager.Reset.Tokens.RoundTrip.{
  IsSigner, verify_reset_verification-sign_reset_verification, verify_captcha-sign_captcha,
  verify_reset_verification-sign_captcha,
}

-- The text before the last character.
before_last : String → String
before_last nil = nil
before_last (c ∷ nil) = nil
before_last (c ∷ (d ∷ s)) = c ∷ before_last (d ∷ s)

unbracket : String → Option String
unfolding before_last
unbracket nil = none
unbracket (c ∷ s) = some (before_last s)

abbrev signer : Signer
signer = record { mac = λ p. "code"; encode = λ s. "(" ++ (s ++ ")"); decode = unbracket }

before_last-cons :
    (c : Char) (s : String) → before_last (c ∷ (s ++ ")")) ≡ c ∷ before_last (s ++ ")")
unfolding before_last
before_last-cons c nil = refl
before_last-cons c (d ∷ s) = rw (cons-append d s ")") refl

before_last-append : (s : String) → before_last (s ++ ")") ≡ s
unfolding before_last
before_last-append nil = refl
before_last-append (c ∷ s) =
    ap before_last (cons-append c s ")")
    ∙ before_last-cons c s
    ∙ ap (λ t. c ∷ t) (before_last-append s)

bracket : (s : String) → "(" ++ s ≡ "(" ∷ s
bracket s = cons-append "(" nil s ∙ ap (λ t. "(" ∷ t) (nil-append s)

signer-IsSigner : IsSigner signer
unfolding unbracket lacks
signer-IsSigner = record {
  decodes = λ s. ap unbracket (bracket (s ++ ")")) ∙ ap (λ t. some t) (before_last-append s);
  trimmed = λ s. trim_space_in_brackets s;
  no_colon = λ s. refl;
}

bob_has_no_colon : lacks 58 (trim_space "bob ") ≡ true
unfolding lacks trim_space
bob_has_no_colon = refl

verify_reset_verification-sign_reset_verification_example :
    verify_reset_verification signer 100 (sign_reset_verification signer "bob " 600) " bob"
    ≡ (leb 100 600 && trim_space "bob " == trim_space " bob")
verify_reset_verification-sign_reset_verification_example =
    verify_reset_verification-sign_reset_verification signer signer-IsSigner 100 600 "bob " " bob"
      bob_has_no_colon (omega arith)

verify_captcha-sign_captcha_example :
    verify_captcha signer 100 (sign_captcha signer 12 160) " 12"
    ≡ (leb 100 160 && trim_space " 12" == decimal 12)
verify_captcha-sign_captcha_example =
    verify_captcha-sign_captcha signer signer-IsSigner 100 160 12 " 12" (omega arith)

verify_reset_verification-sign_captcha_example :
    verify_reset_verification signer 100 (sign_captcha signer 12 160) (decimal 12) ≡ true
verify_reset_verification-sign_captcha_example =
    verify_reset_verification-sign_captcha signer signer-IsSigner 100 160 12 (omega arith)
      (omega arith)

abbrev settings : RuntimeSettings
settings = record {
  code_ttl = 600;
  captcha_ttl = 60;
  send_cooldown = 30;
  rate_limit_max = 5;
  rate_limit_span = 300;
}

abbrev request : SendCodeRequest
request = record {
  username = "bob";
  verification_token = sign_reset_verification signer "bob" 600;
  channel = "email";
  verify_email = "bob@b.c";
}

abbrev event : ℕ → String → SendEvent
event now id = record { now = now; sent = true; id = id; code_hash = "1"; input = request }

abbrev events : List SendEvent
events = event 200 "t3" ∷ᴸ event 150 "t2" ∷ᴸ event 100 "t1" ∷ᴸ []

no_tokens : WithinLimit settings 100 []
unfolding count_recent_tokens
no_tokens user_id now h = omega arith

send_codes-WithinLimit_example :
    WithinLimit settings
      (latest 100 events)
      (send_codes signer settings events (record state { tokens = [] })).tokens
send_codes-WithinLimit_example =
    send_codes-WithinLimit signer settings 100 events (record state { tokens = [] }) (omega arith)
      no_tokens
