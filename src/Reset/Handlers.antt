-- ===== src/Reset/Handlers.antt =====
-- The handlers of backend/api/router/password_reset.go, from the decoded body on. Whether the
-- notification could be sent, and the code and the identifiers that are drawn, are arguments.
use Prim.Native.String.{len}
use kvm_manager.Base.{
  ℕ, ◌+◌, String, Bool, false, ◌&&◌, ◌||◌, not, Option, none, some, List, [], ◌∷◌, ◌++◌, ◌==◌, ltb,
  leb, filter, if◌then◌else◌,
}
use kvm_manager.Text.{trim_space, equal_fold}
use kvm_manager.Sql.{find_where}
use kvm_manager.Access.Users.{User}
use kvm_manager.Access.Users.Handlers.{Response, reply}
use kvm_manager.Login.{delete_login_failures, account_name}
use kvm_manager.Sessions.{
  Accounts, Crypto, find_user_by_username, attach_access, update_user_password,
  delete_user_sessions,
}
use kvm_manager.Reset.{
  PasswordResetToken, RuntimeSettings, count_recent_tokens, is_cooling_down, delete_stale_tokens,
  find_usable_token, mark_token_used,
}
use kvm_manager.Reset.Email.{is_email}
use kvm_manager.Reset.Tokens.{
  Signer, sign_captcha, sign_reset_verification, verify_captcha, verify_reset_verification,
  captcha_challenge,
}

-- What the handlers read of a notification channel.
pub record Channel : Type 0 where
  pub id : String
  pub password_reset_enabled : Bool

-- The tables that the handlers read and write.
pub record State : Type 0 where
  pub accounts : Accounts
  pub tokens : List PasswordResetToken
  pub channels : List Channel

unfoldable pub is_password_reset_channel : Channel → Bool
is_password_reset_channel c = c.password_reset_enabled && c.id == "email"

unfoldable pub password_reset_channels : List Channel → List Channel
password_reset_channels channels = filter is_password_reset_channel channels

-- Whether a user may reset the password.
unfoldable pub is_resettable : User → Bool
is_resettable u = not u.disabled && (u.source == "local" || u.source == "")

abbrev bad : String → Response
bad code = reply 400 code

unfoldable pub found_user : String → State → Option User × State
found_user username s =
    let (found, d) = find_user_by_username username s.accounts.directory in
    (found, record s { accounts = record s.accounts { directory = d } })

pub record SendCodeRequest : Type 0 where
  pub username : String
  pub verification_token : String
  pub channel : String
  pub verify_email : String

module _ (signer : Signer) where
  -- handlePasswordResetCaptcha: the token and the question.
  unfoldable pub handle_captcha : ℕ → RuntimeSettings → ℕ → ℕ → ℕ → String × String
  handle_captcha now settings operator_index left right =
      let challenge = captcha_challenge operator_index left right in
      (sign_captcha signer challenge.answer (now + settings.captcha_ttl), challenge.question)

  -- The end of handlePasswordResetVerify.
  unfoldable pub offer_channels : ℕ → String → State → (Response × String) × State
  offer_channels now username s = elim (password_reset_channels s.channels) [
    | [] ↦ ((reply 503 "no_password_reset_channel", ""), s)
    | c ∷ cs ↦ ((reply 200 "", sign_reset_verification signer username (now + 600)), s)
  ]

  -- handlePasswordResetVerify: the answer and the verification token.
  unfoldable pub handle_verify : ℕ → String → String → String → State → (Response × String) × State
  handle_verify now username captcha_token captcha_answer s =
      let name = trim_space username in
      let (found, s') = found_user name s in
      if name == ""
      then ((bad "missing_username", ""), s)
      else if not (verify_captcha signer now captcha_token captcha_answer)
      then ((bad "invalid_captcha", ""), s)
      else elim found [
        | none ↦ ((bad "password_reset_unavailable", ""), s')
        | some u ↦
            if is_resettable u
            then offer_channels now name s'
            else ((bad "password_reset_unavailable", ""), s')
      ]

-- A new row of password_reset_tokens.
unfoldable pub new_token : ℕ → RuntimeSettings → String → String → User → PasswordResetToken
new_token now settings id code_hash u = record {
  id = id;
  user_id = u.id;
  channel_id = "email";
  contact = u.email;
  code_hash = code_hash;
  expires_at = now + settings.code_ttl;
  used_at = none;
  created_at = now;
}

-- The limits of handlePasswordResetSendCode, and what it does within them.
unfoldable pub send_code :
    ℕ → RuntimeSettings → Bool → PasswordResetToken → State → Response × State
send_code now settings sent token s =
    if is_cooling_down token.user_id now settings.send_cooldown s.tokens
    then (reply 429 "password_reset_cooldown", s)
    else if leb settings.rate_limit_max
        (count_recent_tokens token.user_id now settings.rate_limit_span s.tokens)
    then (reply 429 "password_reset_limited", s)
    else (
      if sent then reply 200 "" else reply 503 "password_reset_send_failed",
      record s { tokens = delete_stale_tokens now (s.tokens ++ token ∷ []) },
    )

-- GetNotificationChannel, and whether the channel may be used; only the one named email may.
unfoldable pub is_channel_usable : String → List Channel → Bool
is_channel_usable id channels = elim (find_where (λ c. c.id == id) channels) [
  | none ↦ false
  | some c ↦ is_password_reset_channel c
]

-- The refusal of handlePasswordResetSendCode once the user is read, when it refuses.
unfoldable pub check_send : SendCodeRequest → Option User → List Channel → Option Response
check_send input none channels = some (bad "password_reset_unavailable")
check_send input (some u) channels =
    if not (is_resettable u)
    then some (bad "password_reset_unavailable")
    else if not (equal_fold (trim_space u.email) (trim_space input.verify_email))
    then some (bad "verify_email_mismatch")
    else if not (is_channel_usable (trim_space input.channel) channels)
    then some (bad "invalid_channel")
    else none

-- The code is sent when no check refuses and the user is known.
unfoldable pub send_checked :
    ℕ
    → RuntimeSettings
    → Bool
    → String
    → String
    → Option Response
    → Option User
    → State
    → Response × State
send_checked now settings sent id code_hash (some refusal) found s = (refusal, s)
send_checked now settings sent id code_hash none none s = (bad "password_reset_unavailable", s)
send_checked now settings sent id code_hash none (some u) s =
    send_code now settings sent (new_token now settings id code_hash u) s

-- handlePasswordResetSendCode; `code_hash` is the hash of the code that is drawn.
unfoldable pub handle_send_code :
    Signer
    → ℕ
    → RuntimeSettings
    → Bool
    → String
    → String
    → SendCodeRequest
    → State
    → Response × State
handle_send_code signer now settings sent id code_hash input s =
    let username = trim_space input.username in
    let (found, s') = found_user username s in
    if username == "" || trim_space input.channel == ""
    then (bad "invalid_request", s)
    else if not (is_email (trim_space input.verify_email))
    then (bad "invalid_verify_email", s)
    else if not (verify_reset_verification signer now input.verification_token username)
    then (bad "invalid_verification", s)
    else send_checked now settings sent id code_hash (check_send input found s.channels) found s'

pub record ConfirmRequest : Type 0 where
  pub username : String
  pub code : String
  pub new_password : String
  pub confirm_password : String

-- The end of handlePasswordResetConfirm, with the hash of the new password.
unfoldable pub store_reset :
    ℕ → PasswordResetToken → User → Option String → State → Response × State
store_reset now token user none s = (reply 500 "password_reset_failed", s)
store_reset now token user (some password_hash) s =
    let a = s.accounts in
    let (ok, d) = update_user_password now user.id password_hash a.directory in
    if not ok then (reply 500 "password_reset_failed", s) else (
      reply 200 "",
      record s {
        accounts = record {
          directory = d;
          sessions = delete_user_sessions user.id a.sessions;
          failures = (delete_login_failures (account_name user.username) a.failures).1;
        };
        tokens = mark_token_used now token.id s.tokens;
      },
    )

-- The part of handlePasswordResetConfirm that knows the token and its user.
unfoldable pub confirm_token :
    Crypto → ℕ → String → PasswordResetToken → User → State → Response × State
confirm_token crypto now new_password token user s =
    let s' = record s {
      accounts = record s.accounts { directory = attach_access user s.accounts.directory };
    } in
    if not (is_resettable user)
    then (bad "password_reset_unavailable", s')
    else store_reset now token user (crypto.hash new_password) s'

-- The refusal of a body of handlePasswordResetConfirm.
unfoldable pub check_confirm : ConfirmRequest → Option Response
check_confirm input =
    if trim_space input.username == "" || trim_space input.code == ""
    then some (bad "invalid_request")
    else if ltb (len input.new_password) 6 || ltb (len input.confirm_password) 6
    then some (bad "invalid_password")
    else if not (input.new_password == input.confirm_password)
    then some (bad "password_mismatch")
    else none

-- handlePasswordResetConfirm behind those checks.
unfoldable pub confirm_checked : Crypto → ℕ → String → String → String → State → Response × State
confirm_checked crypto now username code_hash new_password s =
    elim (find_usable_token now username code_hash s.accounts.directory s.tokens) [
      | none ↦ (bad "invalid_reset_code", s)
      | some (token, user) ↦ confirm_token crypto now new_password token user s
    ]

-- handlePasswordResetConfirm; `code_hash` is hashResetCode.
unfoldable pub handle_confirm :
    Crypto → (String → String) → ℕ → ConfirmRequest → State → Response × State
handle_confirm crypto code_hash now input s = elim (check_confirm input) [
  | some refusal ↦ (refusal, s)
  | none ↦
      confirm_checked crypto now (trim_space input.username) (code_hash (trim_space input.code))
        input.new_password s
]
