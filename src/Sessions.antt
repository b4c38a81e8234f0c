-- ===== src/Sessions.antt =====
-- Sessions of local users: backend/internal/repository/sessions.go, the statements on users of
-- backend/internal/repository/repository.go, the local part of
-- backend/internal/service/auth/service.go, and the login, logout and change of a password in
-- backend/api/router/router.go behind requireAuth of backend/api/router/middleware.go. Every
-- statement reaches the database; one instant stands for the clock readings of a request. bcrypt and
-- the JWT library are parameters. Audit entries, LDAP and the WeCom binding of a user are left out.
pub mod Handlers
pub mod Gone
pub mod Revoked
use kvm_manager.Base.{
  ℕ, ◌+◌, String, Bool, true, false, ◌||◌, not, Option, none, some, List, [], ◌∷◌, ◌++◌, ◌==◌, any,
  ltb, leb, if◌then◌else◌,
}
use kvm_manager.Sql.{update_where, delete_where, find_where}
use kvm_manager.Access.Users.{
  User, Directory, has_user_id, with_fallback, list_user_effective_roles,
}
use kvm_manager.Login.{LoginFailure}

-- A row of user_sessions.
pub record UserSession : Type 0 where
  pub jti : String
  pub user_id : String
  pub username : String
  pub source : String
  pub created_at : ℕ
  pub expires_at : ℕ

-- The tables that logins read and write.
pub record Accounts : Type 0 where
  pub directory : Directory
  pub sessions : List UserSession
  pub failures : List LoginFailure

-- A session that is valid: its end and its user.
pub record Session : Type 0 where
  pub token : String
  pub expires_at : ℕ
  pub user : User

-- bcrypt, which hashes (`none` for its error) and compares a hash with a password; the JWT library,
-- which signs the claims of a session (`none` for its error) and reads the identifier of a token
-- whose signature and times are good, empty for any other.
pub record Crypto : Type 0 where
  pub hash : String → Option String
  pub matches : String → String → Bool
  pub sign : UserSession → Option String
  pub session_jti : ℕ → String → String

unfoldable pub has_username : String → User → Bool
has_username username u = u.username == username

unfoldable pub has_jti : String → UserSession → Bool
has_jti jti s = s.jti == jti

unfoldable pub of_user : String → UserSession → Bool
of_user user_id s = s.user_id == user_id

-- attachAccessToUsers for one user
unfoldable pub attach_access : User → Directory → Directory
attach_access u d = with_fallback u (list_user_effective_roles u.id d) d

unfoldable pub find_user_by_username : String → Directory → Option User × Directory
find_user_by_username username d = elim (find_where (has_username username) d.users) [
  | none ↦ (none, d)
  | some u ↦ (some u, attach_access u d)
]

-- false where no row has the identifier
unfoldable pub update_user_password : ℕ → String → String → Directory → Bool × Directory
update_user_password now id password_hash d = (
  any (has_user_id id) d.users,
  record d {
    users =
        update_where (has_user_id id)
          (λ u. record u { password_hash = password_hash; updated_at = now }) d.users;
  },
)

unfoldable pub record_user_login : ℕ → String → Directory → Bool × Directory
record_user_login now id d = (
  any (has_user_id id) d.users,
  record d {
    users =
        update_where (has_user_id id) (λ u. record u { last_login_at = some now; updated_at = now })
          d.users;
  },
)

-- false for an identifier that is there already
unfoldable pub create_session : UserSession → List UserSession → Bool × List UserSession
create_session s rows = if any (has_jti s.jti) rows then (false, rows) else (true, rows ++ s ∷ [])

unfoldable pub delete_session : String → List UserSession → List UserSession
delete_session jti rows = delete_where (has_jti jti) rows

unfoldable pub delete_expired_sessions : ℕ → List UserSession → List UserSession
delete_expired_sessions now rows = delete_where (λ s. leb s.expires_at now) rows

unfoldable pub delete_user_sessions : String → List UserSession → List UserSession
delete_user_sessions user_id rows = delete_where (of_user user_id) rows

-- The row joined with its user.
unfoldable pub join_user : UserSession → Directory → Option (UserSession × User)
join_user s d = elim (find_where (has_user_id s.user_id) d.users) [
  | none ↦ none
  | some u ↦ some (s, u)
]

unfoldable pub find_session : String → Accounts → Option (UserSession × User)
find_session jti a = elim (find_where (has_jti jti) a.sessions) [
  | none ↦ none
  | some s ↦ join_user s a.directory
]

unfoldable pub new_session : ℕ → ℕ → String → User → UserSession
new_session now ttl jti user = record {
  jti = jti;
  user_id = user.id;
  username = user.username;
  source = user.source;
  created_at = now;
  expires_at = now + ttl;
}

-- The statements of issueSession; false for an error of one.
unfoldable pub store_session : ℕ → UserSession → Accounts → Bool × Accounts
store_session now s a =
    let (created, rows) = create_session s a.sessions in
    let (recorded, d) = record_user_login now s.user_id a.directory in
    if created
    then (recorded, record a { directory = d; sessions = delete_expired_sessions now rows })
    else (false, a)

module _ (crypto : Crypto) where
  -- `jti` is the identifier that randomSessionID draws.
  unfoldable pub issue_session : ℕ → ℕ → String → User → Accounts → Option Session × Accounts
  issue_session now ttl jti user a =
      let row = new_session now ttl jti user in
      let (ok, a') = store_session now row a in
      elim (crypto.sign row) [
        | none ↦ (none, a)
        | some token ↦
            if ok
            then (some (record { token = token; expires_at = row.expires_at; user = user }), a')
            else (none, a')
      ]

  -- Validate, with the roles that reading the user writes.
  unfoldable pub validate : ℕ → String → Accounts → Option Session × Accounts
  validate now token a =
      let jti = crypto.session_jti now token in
      if jti == "" then (none, a) else elim (find_session jti a) [
        | none ↦ (none, a)
        | some (s, u) ↦
            (let a' = record a { directory = attach_access u a.directory } in
              if leb s.expires_at now || u.disabled
              then (none, a')
              else (some (record { token = token; expires_at = s.expires_at; user = u }), a'))
      ]

  unfoldable pub logout : ℕ → String → Accounts → Accounts
  logout now token a =
      let jti = crypto.session_jti now token in
      if jti == "" then a else record a { sessions = delete_session jti a.sessions }
