-- ===== src/Access/Users/Requests.antt =====
-- The requests about users, and what each leaves of the users.
use kvm_manager.Base.{
  ℕ, String, ◌≡◌, refl, sym, subst, ◌∙◌, ap, Bool, true, false, ◌&&◌, ◌||◌, not, Option, some, List,
  [], ◌∷◌, ◌++◌, arith, ◌==◌, eq_refl, Bool-cases, Option-cases, inl, inr, any, all, if◌then◌else◌,
}
use kvm_manager.Sql.{find_where}
use kvm_manager.Sql.Rows.{any-append}
use kvm_manager.Access.Permissions.{normalize_role_keys}
use kvm_manager.Access.Users.{
  User, Directory, UserInput, has_user_id, find_user_by_id, new_user, first_key, with_roles,
  create_managed_user,
}
use kvm_manager.Access.Users.Handlers.{
  is_default_admin_user, handle_create_managed_user, handle_update_managed_user,
  handle_set_managed_user_disabled, handle_delete_managed_user,
}
use kvm_manager.Access.Users.Known.{is_known, has_unique_ids, replace_user_roles_lem}
use kvm_manager.Access.Users.Effects.{find_user_by_id_lem, users-with_roles}
use kvm_manager.Access.Users.Admin.{
  IsSafe, create-IsSafe, save-IsSafe, not_admin, delete-IsSafe, disable-IsSafe, enable-IsSafe,
  disable_user-IsSafe, delete_user-IsSafe,
}

handle_create-IsSafe :
    (hash : String → Option String) (now : ℕ) (id : String) (input : UserInput) (d : Directory)
    → IsSafe d.users
    → IsSafe (handle_create_managed_user hash now id input d).1.users
unfolding handle_create_managed_user
handle_create-IsSafe hash now id input d safe = elim (Option-cases (hash input.password)) [
  | inl e ↦ rw (e, handle_create_managed_user) safe
  | inr (password_hash, e) ↦
      rw (e, handle_create_managed_user) (create-IsSafe now id input password_hash d safe)
]

handle_update-IsSafe :
    (hash : String → Option String) (now : ℕ) (self id : String) (input : UserInput) (d : Directory)
    → IsSafe d.users
    → IsSafe (handle_update_managed_user hash now self id input d).1.users
unfolding handle_update_managed_user
handle_update-IsSafe hash now self id input d safe =
    let d' = (find_user_by_id id d).1 in
    let (first, same) = find_user_by_id_lem id d in
    let safe' : IsSafe d'.users = subst IsSafe (sym same) safe in
    elim (Bool-cases (id == self && input.disabled)) [
      | inl e ↦ rw (e, handle_update_managed_user) safe
      | inr e ↦ elim (Option-cases (find_user_by_id id d).0) [
        | inl f ↦ rw (e, f, handle_update_managed_user) safe'
        | inr (current, f) ↦
            rw (e, f, handle_update_managed_user)
              (elim (Bool-cases (
                is_default_admin_user current
                && (input.disabled || not (input.username == current.username)))) [
                  | inl g ↦ rw g safe'
                  | inr g ↦ rw g (
                      save-IsSafe hash now id input d' current
                        (ap (find_where (has_user_id id)) same ∙ sym first ∙ f) g safe')
                ])
      ]
    ]

handle_disable-IsSafe :
    (now : ℕ) (self id : String) (disabled : Bool) (d : Directory)
    → IsSafe d.users
    → IsSafe (handle_set_managed_user_disabled now self id disabled d).1.users
unfolding handle_set_managed_user_disabled
handle_disable-IsSafe now self id false d safe = elim (Bool-cases (id == self && false)) [
  | inl e ↦ rw (e, handle_set_managed_user_disabled) safe
  | inr e ↦
      rw (e, handle_set_managed_user_disabled)
        (disable_user-IsSafe now id false d (enable-IsSafe now id d safe) safe)
]
handle_disable-IsSafe now self id true d safe =
    let d' = (find_user_by_id id d).1 in
    let (first, same) = find_user_by_id_lem id d in
    let safe' : IsSafe d'.users = subst IsSafe (sym same) safe in
    elim (Bool-cases (id == self && true)) [
      | inl e ↦ rw (e, handle_set_managed_user_disabled) safe
      | inr e ↦ elim (Option-cases (find_user_by_id id d).0) [
        | inl f ↦ rw (e, f, handle_set_managed_user_disabled) safe'
        | inr (current, f) ↦
            rw (e, f, handle_set_managed_user_disabled)
              (elim (Bool-cases (is_default_admin_user current)) [
                | inl g ↦ rw g safe'
                | inr g ↦ rw g (
                    disable_user-IsSafe now id true d'
                      (disable-IsSafe now id d' current
                        (ap (find_where (has_user_id id)) same ∙ sym first ∙ f) g safe')
                      safe')
              ])
      ]
    ]

handle_delete-IsSafe :
    (self id : String) (d : Directory)
    → IsSafe d.users
    → IsSafe (handle_delete_managed_user self id d).1.users
unfolding handle_delete_managed_user
handle_delete-IsSafe self id d safe =
    let d' = (find_user_by_id id d).1 in
    let (first, same) = find_user_by_id_lem id d in
    let safe' : IsSafe d'.users = subst IsSafe (sym same) safe in
    elim (Bool-cases (id == self)) [
      | inl e ↦ rw (e, handle_delete_managed_user) safe
      | inr e ↦ elim (Option-cases (find_user_by_id id d).0) [
        | inl f ↦ rw (e, f, handle_delete_managed_user) safe'
        | inr (current, f) ↦
            rw (e, f, handle_delete_managed_user)
              (elim (Bool-cases (is_default_admin_user current)) [
                | inl g ↦ rw g safe'
                | inr g ↦ rw g (elim (Bool-cases (not current.disabled)) [
                  | inl k ↦ rw k safe'
                  | inr k ↦ rw k (
                      delete_user-IsSafe id d'
                        (delete-IsSafe id d'.users current
                          (ap (find_where (has_user_id id)) same ∙ sym first ∙ f)
                          (not_admin current g) safe')
                        safe')
                ])
              ])
      ]
    ]

-- A request about users, with the user of its session.
pub data Request : Type 0 where
  create : ℕ → String → UserInput → Request
  update : ℕ → String → String → UserInput → Request
  disable : ℕ → String → String → Bool → Request
  delete : String → String → Request

unfoldable pub serve : (String → Option String) → Request → Directory → Directory
serve hash (Request.create now id input) d = (handle_create_managed_user hash now id input d).1
serve hash (Request.update now self id input) d =
    (handle_update_managed_user hash now self id input d).1
serve hash (Request.disable now self id disabled) d =
    (handle_set_managed_user_disabled now self id disabled d).1
serve hash (Request.delete self id) d = (handle_delete_managed_user self id d).1

pub serve-IsSafe :
    (hash : String → Option String) (r : Request) (d : Directory)
    → IsSafe d.users
    → IsSafe (serve hash r d).users
unfolding serve
serve-IsSafe hash (Request.create now id input) d safe =
    handle_create-IsSafe hash now id input d safe
serve-IsSafe hash (Request.update now self id input) d safe =
    handle_update-IsSafe hash now self id input d safe
serve-IsSafe hash (Request.disable now self id disabled) d safe =
    handle_disable-IsSafe now self id disabled d safe
serve-IsSafe hash (Request.delete self id) d safe = handle_delete-IsSafe self id d safe

new_row :
    (id : String) (input : UserInput) (password_hash : String) (now : ℕ) (keys : List String)
    (users : List User)
    → any
        (λ u. u.username == input.username)
        (users ++ new_user now id input password_hash (first_key keys) ∷ [])
      ≡ true
unfolding new_user
new_row id input password_hash now keys users = ground (
  arith,
  eq_refl input.username,
  any-append (λ u. u.username == input.username) users
      (new_user now id input password_hash (first_key keys) ∷ []),
)

-- Where no two roles have the same identifier, creating a user whose name and identifier are free,
-- with a password that can be hashed, leaves a row with its name whatever the answer is. The status is
-- 201 if every requested key, or "viewer" where none is requested, is that of a role, and 400
-- otherwise.
pub handle_create_managed_user_leaves_row :
    (hash : String → Option String) (now : ℕ) (id : String) (input : UserInput)
    (password_hash : String) (d : Directory)
    → hash input.password ≡ some password_hash
    → any (λ u. u.id == id || u.username == input.username) d.users ≡ false
    → has_unique_ids d.roles ≡ true
    → let (response, d') = handle_create_managed_user hash now id input d in
      (any (λ u. u.username == input.username) d'.users ≡ true)
      × (response.status
          ≡ (if all (is_known d.roles) (normalize_role_keys input.role_keys) then 201 else 400))
unfolding handle_create_managed_user create_managed_user with_roles
handle_create_managed_user_leaves_row hash now id input password_hash d hashed fresh ids =
    let keys = normalize_role_keys input.role_keys in
    let d' : Directory = record d {
      users = d.users ++ new_user now id input password_hash (first_key keys) ∷ [];
    } in
    let given = replace_user_roles_lem id input.role_keys d' ids in
    rw (hashed, handle_create_managed_user)
      (rw (fresh, create_managed_user)
        (
          ap (any (λ u. u.username == input.username)) (users-with_roles id keys d')
              ∙ new_row id input password_hash now keys d.users,
          elim (Bool-cases (all (is_known d.roles) keys)) [
            | inl e ↦ rw (given ∙ e, e, with_roles) refl
            | inr e ↦ rw (given ∙ e, e, with_roles) refl
          ],
        ))
