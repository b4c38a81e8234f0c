-- ===== src/Sessions/Gone.antt =====
-- Requests of accounts in any order, and the row of a session that is gone.
use kvm_manager.Base.{
  ℕ, String, ◌≡◌, refl, sym, subst, ◌∙◌, Bool, true, false, ◌&&◌, ◌||◌, not, Option, none, some,
  List, [], ◌∷◌, ◌++◌, arith, ◌==◌, Bool-cases, Option-cases, inl, inr, any, leb, if◌then◌else◌,
}
use kvm_manager.Sql.Rows.{any-append, any-delete_where_absent, find_where_absent}
use kvm_manager.System.{SystemBaseConfig}
use kvm_manager.Access.Users.{User}
use kvm_manager.Access.Users.Handlers.{Response}
use kvm_manager.Text.{trim_space}
use kvm_manager.Login.{ensure_login_allowed}
use kvm_manager.Sessions.{
  UserSession, Accounts, Session, Crypto, has_jti, new_session, update_user_password,
  create_session, delete_session, delete_expired_sessions, find_session, find_user_by_username,
  store_session, issue_session, validate, logout,
}
use kvm_manager.Sessions.Handlers.{
  LoginResult, login, finish_login, handle_login, require_auth, handle_logout, check_passwords,
  store_password, handle_change_password,
}

-- A request, with what the program draws for it.
pub data Visit : Type 0 where
  sign_in : ℕ → ℕ → String → SystemBaseConfig → String → String → Visit
  use_session : ℕ → String → String → Visit
  sign_out : ℕ → String → String → Visit
  change_password : ℕ → String → String → String → String → String → Visit

module _ (crypto : Crypto) where
  unfoldable pub visit : Visit → Accounts → Accounts
  visit (Visit.sign_in now ttl jti base username password) a =
      (handle_login crypto now ttl jti base username password a).1
  visit (Visit.use_session now bearer query) a = (validate crypto now bearer a).1
  visit (Visit.sign_out now bearer query) a =
      (require_auth crypto now bearer query (handle_logout crypto now bearer) a).1
  visit (Visit.change_password now bearer query old new confirm) a =
      (require_auth crypto now bearer query (handle_change_password crypto now old new confirm) a).1

  -- Visits, the latest first.
  unfoldable pub visits : List Visit → Accounts → Accounts
  visits [] a = a
  visits (v ∷ older) a = visit v (visits older a)

-- Whether no login of a list of visits draws an identifier.
unfoldable pub never_drawn : String → List Visit → Bool
never_drawn jti [] = true
never_drawn jti (Visit.sign_in now ttl drawn base username password ∷ vs) =
    not (drawn == jti) && never_drawn jti vs
never_drawn jti (v ∷ vs) = never_drawn jti vs

-- No row has the identifier.
abbrev pub IsGone : String → Accounts → Type 0
IsGone jti a = any (has_jti jti) a.sessions ≡ false

module _ (jti : String) where
  store_session-IsGone :
      (now : ℕ) (s : UserSession) (a : Accounts)
      → (s.jti == jti) ≡ false
      → IsGone jti a
      → IsGone jti (store_session now s a).1
  unfolding store_session create_session delete_expired_sessions
  store_session-IsGone now s a other gone = elim (Bool-cases (any (has_jti s.jti) a.sessions)) [
    | inl e ↦ rw (e, store_session, create_session) gone
    | inr e ↦
        rw (e, store_session, create_session)
          (any-delete_where_absent (λ row. leb row.expires_at now) (has_jti jti)
            (a.sessions ++ s ∷ [])
            (unfold has_jti in
              (any-append (has_jti jti) a.sessions (s ∷ []) ∙ ground (arith, gone, other))))
  ]

  finish_login-IsGone :
      (now : ℕ) (username : String) (result : LoginResult) (a : Accounts)
      → IsGone jti a
      → IsGone jti (finish_login now username result a).1
  unfolding finish_login
  finish_login-IsGone now username (LoginResult.granted session) a gone = gone
  finish_login-IsGone now username LoginResult.invalid_credentials a gone = gone
  finish_login-IsGone now username LoginResult.failed a gone = gone

  store_password-IsGone :
      (now : ℕ) (user_id : String) (password_hash : Option String) (a : Accounts)
      → IsGone jti a
      → IsGone jti (store_password now user_id password_hash a).1
  unfolding store_password
  store_password-IsGone now user_id none a gone = gone
  store_password-IsGone now user_id (some h) a gone =
      elim (Bool-cases (update_user_password now user_id h a.directory).0) [
        | inl e ↦ rw (e, store_password) gone
        | inr e ↦ rw (e, store_password) gone
      ]

  module _ (crypto : Crypto) where
    issue_session-IsGone :
        (now ttl : ℕ) (drawn : String) (u : User) (a : Accounts)
        → (drawn == jti) ≡ false
        → IsGone jti a
        → IsGone jti (issue_session crypto now ttl drawn u a).1
    unfolding issue_session new_session
    issue_session-IsGone now ttl drawn u a other gone =
        let row = new_session now ttl drawn u in
        let stored = store_session-IsGone now row a other gone in
        elim (Option-cases (crypto.sign row)) [
          | inl e ↦ rw (e, issue_session) gone
          | inr (token, e) ↦ elim (Bool-cases (store_session now row a).0) [
            | inl ok ↦ rw (e, ok, issue_session) stored
            | inr bad ↦ rw (e, bad, issue_session) stored
          ]
        ]

    login-IsGone :
        (now ttl : ℕ) (drawn username password : String) (a : Accounts)
        → (drawn == jti) ≡ false
        → IsGone jti a
        → IsGone jti (login crypto now ttl drawn username password a).1
    unfolding login
    login-IsGone now ttl drawn username password a other gone =
        let d = (find_user_by_username username a.directory).1 in
        elim (Option-cases (find_user_by_username username a.directory).0) [
          | inl e ↦ rw (e, login) gone
          | inr (u, e) ↦
              elim (Bool-cases (u.disabled || not (crypto.matches u.password_hash password))) [
                | inl bad ↦ rw (e, bad, login) gone
                | inr good ↦
                    rw (e, good, login)
                      (issue_session-IsGone now ttl drawn u (record a { directory = d }) other gone)
              ]
        ]

    handle_login-IsGone :
        (now ttl : ℕ) (drawn : String) (base : SystemBaseConfig) (username password : String)
        (a : Accounts)
        → (drawn == jti) ≡ false
        → IsGone jti a
        → IsGone jti (handle_login crypto now ttl drawn base username password a).1
    unfolding handle_login
    handle_login-IsGone now ttl drawn base username password a other gone =
        let name = trim_space username in
        let a' = record a { failures = (ensure_login_allowed now base name a.failures).1 } in
        let (result, b) = login crypto now ttl drawn name password a' in
        elim (Bool-cases (name == "" || password == "")) [
          | inl e ↦ rw (e, handle_login) gone
          | inr e ↦ elim (Option-cases (ensure_login_allowed now base name a.failures).0) [
            | inl free ↦
                rw (e, free, handle_login)
                  (finish_login-IsGone now name result b
                    (login-IsGone now ttl drawn name password a' other gone))
            | inr (minutes, locked) ↦ rw (e, locked, handle_login) gone
          ]
        ]

    validate-IsGone :
        (now : ℕ) (token : String) (a : Accounts)
        → IsGone jti a
        → IsGone jti (validate crypto now token a).1
    unfolding validate
    validate-IsGone now token a gone =
        let j = crypto.session_jti now token in
        elim (Bool-cases (j == "")) [
          | inl e ↦ rw (e, validate) gone
          | inr e ↦ elim (Option-cases (find_session j a)) [
            | inl f ↦ rw (e, f, validate) gone
            | inr ((s, u), f) ↦ elim (Bool-cases (leb s.expires_at now || u.disabled)) [
              | inl bad ↦ rw (e, f, bad, validate) gone
              | inr good ↦ rw (e, f, good, validate) gone
            ]
          ]
        ]

    require_auth-IsGone :
        (now : ℕ) (bearer query : String) (serve : Session → Accounts → Response × Accounts)
        (a : Accounts)
        → ((s : Session) (b : Accounts) → IsGone jti b → IsGone jti (serve s b).1)
        → IsGone jti a
        → IsGone jti (require_auth crypto now bearer query serve a).1
    unfolding require_auth
    require_auth-IsGone now bearer query serve a served gone =
        let token = if bearer == "" then trim_space query else bearer in
        elim (Option-cases (validate crypto now token a).0) [
          | inl e ↦ rw (e, require_auth) (validate-IsGone now token a gone)
          | inr (s, e) ↦
              rw (e, require_auth)
                (served s (validate crypto now token a).1 (validate-IsGone now token a gone))
        ]

    logout-IsGone :
        (now : ℕ) (token : String) (a : Accounts)
        → IsGone jti a
        → IsGone jti (logout crypto now token a)
    unfolding logout delete_session
    logout-IsGone now token a gone =
        let j = crypto.session_jti now token in
        elim (Bool-cases (j == "")) [
          | inl e ↦ rw (e, logout) gone
          | inr e ↦
              rw (e, logout) (any-delete_where_absent (has_jti j) (has_jti jti) a.sessions gone)
        ]

    handle_change_password-IsGone :
        (now : ℕ) (old new confirm : String) (session : Session) (a : Accounts)
        → IsGone jti a
        → IsGone jti (handle_change_password crypto now old new confirm session a).1
    unfolding handle_change_password
    handle_change_password-IsGone now old new confirm session a gone =
        let (found, d) = find_user_by_username session.user.username a.directory in
        let a' = record a { directory = d } in
        elim (Option-cases (check_passwords old new confirm)) [
          | inr (refusal, e) ↦ rw (e, handle_change_password) gone
          | inl e ↦ elim (Option-cases found) [
            | inl f ↦ rw (e, f, handle_change_password) gone
            | inr (u, f) ↦ elim (Bool-cases (not (crypto.matches u.password_hash old))) [
              | inl bad ↦ rw (e, f, bad, handle_change_password) gone
              | inr good ↦
                  rw (e, f, good, handle_change_password)
                    (store_password-IsGone now session.user.id (crypto.hash new) a' gone)
            ]
          ]
        ]

    pub visits-IsGone :
        (vs : List Visit) (a : Accounts)
        → never_drawn jti vs ≡ true
        → IsGone jti a
        → IsGone jti (visits crypto vs a)
    unfolding visits visit never_drawn handle_logout
    visits-IsGone [] a fresh gone = gone
    visits-IsGone (Visit.sign_in now ttl drawn base username password ∷ vs) a fresh gone =
        handle_login-IsGone now ttl drawn base username password (visits crypto vs a) (ground arith)
          (visits-IsGone vs a (ground arith) gone)
    visits-IsGone (Visit.use_session now bearer query ∷ vs) a fresh gone =
        validate-IsGone now bearer (visits crypto vs a) (visits-IsGone vs a fresh gone)
    visits-IsGone (Visit.sign_out now bearer query ∷ vs) a fresh gone =
        require_auth-IsGone now bearer query (handle_logout crypto now bearer) (visits crypto vs a)
          (λ s b g. logout-IsGone now bearer b g) (visits-IsGone vs a fresh gone)
    visits-IsGone (Visit.change_password now bearer query old new confirm ∷ vs) a fresh gone =
        require_auth-IsGone now bearer query (handle_change_password crypto now old new confirm)
          (visits crypto vs a) (λ s b g. handle_change_password-IsGone now old new confirm s b g)
          (visits-IsGone vs a fresh gone)

    pub refused :
        (now : ℕ) (token : String) (a : Accounts)
        → crypto.session_jti now token ≡ jti
        → IsGone jti a
        → (validate crypto now token a).0 ≡ none
    unfolding validate find_session
    refused now token a same gone =
        let j = crypto.session_jti now token in
        elim (Bool-cases (j == "")) [
          | inl e ↦ rw (e, validate) refl
          | inr e ↦
              rw
                (
                  e,
                  find_where_absent (has_jti j) a.sessions
                      (subst (λ x. any (has_jti x) a.sessions ≡ false) (sym same) gone),
                  validate,
                  find_session,
                )
                refl
        ]
