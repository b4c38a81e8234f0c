-- ===== src/Access/Users/Handlers.antt =====
-- The handlers that create, update, disable and delete a user: backend/api/router/rbac.go.
use kvm_manager.Base.{
  ℕ, String, Bool, true, false, ◌&&◌, ◌||◌, not, Option, none, some, ◌==◌, if◌then◌else◌,
}
use kvm_manager.Access.Users.{
  User, Directory, UserInput, StoreError, find_user_by_id, create_managed_user, update_managed_user,
  set_managed_user_disabled, delete_managed_user,
}

-- An HTTP status, and the code of an error.
pub record Response : Type 0 where
  pub status : ℕ
  pub code : String

abbrev pub reply : ℕ → String → Response
reply status code = record { status = status; code = code }

unfoldable pub is_default_admin_user : User → Bool
is_default_admin_user u = u.username == "admin"

-- What a handler answers for the error of its last statement.
abbrev create_reply : Option StoreError → Response
create_reply none = reply 201 ""
create_reply (some StoreError.unique_violation) = reply 409 "user_exists"
create_reply (some StoreError.not_found) = reply 400 "role_not_found"

abbrev update_reply : Option StoreError → Response
update_reply none = reply 200 ""
update_reply (some StoreError.not_found) = reply 404 "user_not_found"
update_reply (some StoreError.unique_violation) = reply 409 "user_exists"

abbrev delete_reply : Option StoreError → Response
delete_reply none = reply 204 ""
delete_reply (some StoreError.not_found) = reply 404 "user_not_found"
delete_reply (some StoreError.unique_violation) = reply 500 "delete_user_failed"

abbrev disable_reply : Option StoreError → Response
disable_reply none = reply 200 ""
disable_reply (some StoreError.not_found) = reply 404 "user_not_found"
disable_reply (some StoreError.unique_violation) = reply 500 "update_user_failed"

module _ (hash : String → Option String) where
  unfoldable pub handle_create_managed_user :
      ℕ → String → UserInput → Directory → Response × Directory
  handle_create_managed_user now id input d = elim (hash input.password) [
    | none ↦ (reply 500 "create_user_failed", d)
    | some password_hash ↦
        (let (error, d') = create_managed_user now id input password_hash d in
          (create_reply error, d'))
  ]

  -- The password's hash; empty for a password that stays, `none` for an error.
  unfoldable pub changed_hash : String → Option String
  changed_hash password = if password == "" then some "" else hash password

  -- The part of handleUpdateManagedUser after its guards.
  unfoldable pub save_user : ℕ → String → UserInput → Directory → Response × Directory
  save_user now id input d = elim (changed_hash input.password) [
    | none ↦ (reply 500 "update_user_failed", d)
    | some password_hash ↦
        (let (error, d') = update_managed_user now id input password_hash d in
          (update_reply error, d'))
  ]

  -- `self` is the user of the session.
  unfoldable pub handle_update_managed_user :
      ℕ → String → String → UserInput → Directory → Response × Directory
  handle_update_managed_user now self id input d =
      let (found, d') = find_user_by_id id d in
      if id == self && input.disabled then (reply 400 "disable_self_forbidden", d) else elim found [
        | none ↦ (reply 404 "user_not_found", d')
        | some current ↦
            if is_default_admin_user current
              && (input.disabled || not (input.username == current.username))
            then (reply 400 "default_admin_protected", d')
            else save_user now id input d'
      ]

unfoldable pub disable_user : ℕ → String → Bool → Directory → Response × Directory
disable_user now id disabled d =
    let (error, d') = set_managed_user_disabled now id disabled d in (disable_reply error, d')

unfoldable pub handle_set_managed_user_disabled :
    ℕ → String → String → Bool → Directory → Response × Directory
handle_set_managed_user_disabled now self id disabled d =
    let (found, d') = find_user_by_id id d in
    if id == self && disabled
    then (reply 400 "disable_self_forbidden", d)
    else if not disabled
    then disable_user now id false d
    else elim found [
      | none ↦ (reply 404 "user_not_found", d')
      | some current ↦
          if is_default_admin_user current
          then (reply 400 "default_admin_protected", d')
          else disable_user now id true d'
    ]

unfoldable pub delete_user : String → Directory → Response × Directory
delete_user id d = let (error, d') = delete_managed_user id d in (delete_reply error, d')

unfoldable pub handle_delete_managed_user : String → String → Directory → Response × Directory
handle_delete_managed_user self id d =
    let (found, d') = find_user_by_id id d in
    if id == self then (reply 400 "delete_self_forbidden", d) else elim found [
      | none ↦ (reply 404 "user_not_found", d')
      | some current ↦
          if is_default_admin_user current
          then (reply 400 "default_admin_protected", d')
          else if not current.disabled
          then (reply 400 "user_must_be_disabled", d')
          else delete_user id d'
    ]
