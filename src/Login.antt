-- ===== src/Login.antt =====
-- The limit on failed logins: backend/internal/service/auth/login_throttle.go over the statements of
-- backend/internal/repository/login_failures.go. Every statement reaches the database, and times are
-- in seconds since 1970.
pub mod Lockout
use kvm_manager.Base.{
  ℕ, ◌+◌, ◌-◌, ◌*◌, ◌/◌, String, Bool, true, false, ◌||◌, Option, none, some, List, [], ◌∷◌, ◌++◌,
  ◌==◌, ltb, if◌then◌else◌,
}
use kvm_manager.Base.Int.{ℤ, pos, pos_part, ltb_ℤ, leb_ℤ}
use kvm_manager.Text.{trim_space, to_lower, equal_fold}
use kvm_manager.Sql.{delete_where}
use kvm_manager.Sql.Rows.{count}
use kvm_manager.System.{SystemBaseConfig}

-- A row of login_failure_log.
pub record LoginFailure : Type 0 where
  pub username : String
  pub failed_at : ℕ

unfoldable pub has_username : String → LoginFailure → Bool
has_username name row = row.username == name

abbrev pub later : ℕ → ℕ → ℕ
later a b = if ltb a b then b else a

-- COALESCE(MAX(failed_at), 0) of a user's rows
unfoldable pub last_failed_at : String → List LoginFailure → ℕ
last_failed_at name [] = 0
last_failed_at name (row ∷ rest) =
    let last = last_failed_at name rest in
    if has_username name row then later row.failed_at last else last

unfoldable pub count_login_failures : String → List LoginFailure → ℕ × ℕ
count_login_failures name rows = (count (has_username name) rows, last_failed_at name rows)

-- failed_at < failedAt - 24 * 3600
unfoldable pub is_old : ℕ → LoginFailure → Bool
is_old now row = ltb (row.failed_at + 86400) now

unfoldable pub create_login_failure : String → ℕ → List LoginFailure → List LoginFailure
create_login_failure name failed_at rows =
    delete_where (is_old failed_at) (rows ++ record { username = name; failed_at = failed_at } ∷ [])

-- The count of the deleted rows, and the rest.
unfoldable pub delete_login_failures : String → List LoginFailure → ℕ × List LoginFailure
delete_login_failures name rows =
    (count (has_username name) rows, delete_where (has_username name) rows)

unfoldable pub account_name : String → String
account_name username = to_lower (trim_space username)

unfoldable pub positive_or : ℤ → ℕ → ℕ
positive_or n default = if leb_ℤ n (pos 0) then default else pos_part n

-- EnsureLoginAllowed: the minutes of a LoginLockedError, and the rows.
unfoldable pub ensure_login_allowed :
    ℕ → SystemBaseConfig → String → List LoginFailure → Option ℕ × List LoginFailure
ensure_login_allowed now base username rows =
    let name = account_name username in
    let max_failures = positive_or base.login_max_failures 5 in
    let lockout_minutes = positive_or base.login_lockout_minutes 2 in
    let (failures, last) = count_login_failures name rows in
    if name == "" || equal_fold (trim_space username) "admin"
    then (none, rows)
    else (if ltb failures max_failures || ltb last 1
        then (none, rows)
        else (if ltb now (last + lockout_minutes * 60)
            then (some ((last + lockout_minutes * 60 - now + 59) / 60), rows)
            else (none, (delete_login_failures name rows).1)))

unfoldable pub record_login_failure : ℕ → String → List LoginFailure → List LoginFailure
record_login_failure now username rows =
    if account_name username == ""
    then rows
    else create_login_failure (account_name username) now rows

unfoldable pub clear_login_failures : String → List LoginFailure → ℕ × List LoginFailure
clear_login_failures username rows =
    if account_name username == ""
    then (0, rows)
    else delete_login_failures (account_name username) rows
