-- ===== src/Sessions/Handlers.antt =====
-- Logging in and out, and changing a password: backend/api/router/router.go and Login of
-- backend/internal/service/auth/service.go.
use Prim.Native.String.{len}
use kvm_manager.Base.{ℕ, String, ◌||◌, not, Option, none, some, ◌==◌, ltb, if◌then◌else◌}
use kvm_manager.Text.{trim_space}
use kvm_manager.System.{SystemBaseConfig}
use kvm_manager.Access.Users.Handlers.{Response, reply}
use kvm_manager.Login.{ensure_login_allowed, record_login_failure, clear_login_failures}
use kvm_manager.Sessions.{
  Accounts, Session, Crypto, find_user_by_username, update_user_password, issue_session, validate,
  logout,
}

-- The outcome of a login with a provider.
pub data LoginResult : Type 0 where
  granted : Session → LoginResult
  invalid_credentials : LoginResult
  failed : LoginResult

abbrev pub login_result : Option Session → LoginResult
login_result none = LoginResult.failed
login_result (some session) = LoginResult.granted session

-- What handleLogin answers and writes after the login.
unfoldable pub finish_login :
    ℕ → String → LoginResult → Accounts → (Response × Option Session) × Accounts
finish_login now username (LoginResult.granted session) a = (
  (reply 200 "", some session),
  record a { failures = (clear_login_failures username a.failures).1 },
)
finish_login now username LoginResult.invalid_credentials a = (
  (reply 401 "invalid_credentials", none),
  record a { failures = record_login_failure now username a.failures },
)
finish_login now username LoginResult.failed a = ((reply 500 "login_failed", none), a)

-- The refusal of a body of handleChangePassword.
unfoldable pub check_passwords : String → String → String → Option Response
check_passwords old_password new_password confirm_password =
    if ltb (len old_password) 6 || ltb (len new_password) 6 || ltb (len confirm_password) 6
    then some (reply 400 "invalid_password")
    else if not (new_password == confirm_password)
    then some (reply 400 "password_mismatch")
    else if new_password == old_password
    then some (reply 400 "same_password")
    else none

-- The end of handleChangePassword, with the hash of the new password.
unfoldable pub store_password : ℕ → String → Option String → Accounts → Response × Accounts
store_password now user_id none a = (reply 500 "password_change_failed", a)
store_password now user_id (some password_hash) a =
    let (ok, d) = update_user_password now user_id password_hash a.directory in
    let a' = record a { directory = d } in
    if ok then (reply 200 "", a') else (reply 500 "password_change_failed", a')

module _ (crypto : Crypto) where
  -- Login of the local provider.
  unfoldable pub login : ℕ → ℕ → String → String → String → Accounts → LoginResult × Accounts
  login now ttl jti username password a =
      let (found, d) = find_user_by_username username a.directory in
      let a' = record a { directory = d } in
      elim found [
        | none ↦ (LoginResult.invalid_credentials, a')
        | some user ↦
            (let (session, b) = issue_session crypto now ttl jti user a' in
              if user.disabled || not (crypto.matches user.password_hash password)
              then (LoginResult.invalid_credentials, a')
              else (login_result session, b))
      ]

  -- handleLogin for the local provider, from the decoded body on.
  unfoldable pub handle_login :
      ℕ
      → ℕ
      → String
      → SystemBaseConfig
      → String
      → String
      → Accounts
      → (Response × Option Session) × Accounts
  handle_login now ttl jti base username password a =
      let name = trim_space username in
      let (lock, rows) = ensure_login_allowed now base name a.failures in
      let a' = record a { failures = rows } in
      let (result, b) = login now ttl jti name password a' in
      if name == "" || password == ""
      then ((reply 400 "missing_credentials", none), a)
      else elim lock [
        | some minutes ↦ ((reply 429 "login_locked", none), a')
        | none ↦ finish_login now name result b
      ]

  -- requireAuth: the token of the header, or else of the query; `serve` is the handler behind it.
  unfoldable pub require_auth :
      ℕ
      → String
      → String
      → (Session → Accounts → Response × Accounts)
      → Accounts
      → Response × Accounts
  require_auth now bearer query serve a =
      let token = if bearer == "" then trim_space query else bearer in
      let (session, a') = validate crypto now token a in
      elim session [ none ↦ (reply 401 "unauthorized", a') | some s ↦ serve s a' ]

  unfoldable pub handle_logout : ℕ → String → Session → Accounts → Response × Accounts
  handle_logout now bearer session a = (reply 200 "", logout crypto now bearer a)

  unfoldable pub handle_change_password :
      ℕ → String → String → String → Session → Accounts → Response × Accounts
  handle_change_password now old_password new_password confirm_password session a =
      let (found, d) = find_user_by_username session.user.username a.directory in
      let a' = record a { directory = d } in
      let stored = store_password now session.user.id (crypto.hash new_password) a' in
      elim (check_passwords old_password new_password confirm_password) [
        | some refusal ↦ (refusal, a)
        | none ↦ (elim found [
          | none ↦ (reply 404 "user_not_found", a')
          | some user ↦
              if not (crypto.matches user.password_hash old_password)
              then (reply 401 "invalid_old_password", a')
              else stored
        ])
      ]
