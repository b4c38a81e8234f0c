-- ===== src/Access/Users.antt =====
-- The administration of users: the statements on users and their roles in
-- backend/internal/repository/rbac.go, and the handlers of backend/api/router/rbac.go that create,
-- update, disable and delete a user, from the decoded request on. `hash` is auth.HashPassword: `none`
-- for its error. Audit entries are left out.
pub mod Handlers
pub mod Effects
pub mod Admin
pub mod Known
pub mod Requests
use kvm_manager.Base.{
  ℕ, String, Bool, true, false, ◌&&◌, ◌||◌, not, Option, none, some, List, [], ◌∷◌, ◌++◌, ◌==◌, any,
  filter, map, member, if◌then◌else◌,
}
use kvm_manager.Text.{trim_space, to_lower}
use kvm_manager.Sql.{update_where, delete_where, find_where}
use kvm_manager.Access.Permissions.{normalize_role_keys}

pub record User : Type 0 where
  pub id : String
  pub username : String
  pub email : String
  pub password_hash : String
  pub display_name : String
  pub role : String
  pub source : String
  pub disabled : Bool
  pub last_login_at : Option ℕ
  pub created_at : ℕ
  pub updated_at : ℕ

pub record Role : Type 0 where
  pub id : String
  pub key : String
  pub name : String
  pub description : String
  pub permissions : List String
  pub builtin : Bool
  pub created_at : ℕ
  pub updated_at : ℕ

pub record UserGroup : Type 0 where
  pub id : String
  pub name : String
  pub description : String
  pub disabled : Bool
  pub created_at : ℕ
  pub updated_at : ℕ

-- The tables users, roles, user_roles, user_groups, user_group_members and user_group_roles. Pairs
-- are in the order of their columns.
pub record Directory : Type 0 where
  pub users : List User
  pub roles : List Role
  pub user_roles : List (String × String)
  pub groups : List UserGroup
  pub group_members : List (String × String)
  pub group_roles : List (String × String)

pub record UserInput : Type 0 where
  pub username : String
  pub password : String
  pub email : String
  pub display_name : String
  pub role_keys : List String
  pub disabled : Bool

pub data StoreError : Type 0 where
  not_found : StoreError
  unique_violation : StoreError

unfoldable pub has_user_id : String → User → Bool
has_user_id id u = u.id == id

unfoldable pub normalize_user_source : String → String
normalize_user_source source =
    let s = to_lower (trim_space source) in
    if s == "ldap" then "ldap" else if s == "wecom" then "wecom" else "local"

unfoldable pub has_role : String → String → String × String → Bool
has_role user_id role_id (u, r) = u == user_id && r == role_id

-- The loop of replaceUserRoles: false for ErrNotFound, which a row that is there already gives too.
unfoldable pub insert_user_roles : String → List String → Directory → Bool × Directory
insert_user_roles user_id [] d = (true, d)
insert_user_roles user_id (key ∷ keys) d = elim (find_where (λ r. r.key == key) d.roles) [
  | none ↦ (false, d)
  | some role ↦
      (let rest =
          insert_user_roles user_id keys
            (record d { user_roles = d.user_roles ++ (user_id, role.id) ∷ [] }) in
        if any (has_role user_id role.id) d.user_roles then (false, d) else rest)
]

unfoldable pub replace_user_roles : String → List String → Directory → Bool × Directory
replace_user_roles user_id keys d =
    insert_user_roles user_id keys
      (record d { user_roles = delete_where (λ row. row.0 == user_id) d.user_roles })

-- The roles of a user: those given to it, and those of its enabled groups.
unfoldable pub gives_role : Directory → String → String → Bool
gives_role d user_id role_id =
    any (has_role user_id role_id) d.user_roles
    || any
        (λ g.
          not g.disabled
          && any (has_role g.id user_id) d.group_members
          && any (has_role g.id role_id) d.group_roles)
        d.groups

unfoldable pub list_user_effective_roles : String → Directory → List Role
list_user_effective_roles user_id d = filter (λ r. gives_role d user_id r.id) d.roles

-- fallbackRole: a user without roles gets that of its column, if there is such a role.
unfoldable pub fallback_role : User → Directory → Directory
fallback_role u d =
    let key = if u.role == "" then "viewer" else u.role in
    elim (find_where (λ r. r.key == key) d.roles) [
      | none ↦ d
      | some role ↦ (replace_user_roles u.id (role.key ∷ []) d).1
    ]

-- The end of listUserEffectiveRoles.
unfoldable pub with_fallback : User → List Role → Directory → Directory
with_fallback u [] d = fallback_role u d
with_fallback u (role ∷ roles) d = d

-- FindUserByID, with the roles that reading a user without any writes.
unfoldable pub find_user_by_id : String → Directory → Option User × Directory
find_user_by_id id d = elim (find_where (has_user_id id) d.users) [
  | none ↦ (none, d)
  | some u ↦ (some u, with_fallback u (list_user_effective_roles id d) d)
]

abbrev pub first_key : List String → String
first_key [] = ""
first_key (k ∷ ks) = k

unfoldable pub new_user : ℕ → String → UserInput → String → String → User
new_user now id input password_hash role = record {
  id = id;
  username = input.username;
  email = input.email;
  password_hash = password_hash;
  display_name = input.display_name;
  role = role;
  source = normalize_user_source "";
  disabled = input.disabled;
  last_login_at = none;
  created_at = now;
  updated_at = now;
}

-- The end that creating and updating share: the roles, then the read of the user.
unfoldable pub with_roles : String → List String → Directory → Option StoreError × Directory
with_roles id keys d =
    let (ok, d') = replace_user_roles id keys d in
    if ok then (none, (find_user_by_id id d').1) else (some StoreError.not_found, d')

-- CreateManagedUser; the handlers give no source. The database draws the identifier.
unfoldable pub create_managed_user :
    ℕ → String → UserInput → String → Directory → Option StoreError × Directory
create_managed_user now id input password_hash d =
    let keys = normalize_role_keys input.role_keys in
    if any (λ u. u.id == id || u.username == input.username) d.users
    then (some StoreError.unique_violation, d)
    else with_roles id keys
        (record d { users = d.users ++ new_user now id input password_hash (first_key keys) ∷ [] })

unfoldable pub updated_user : ℕ → UserInput → String → String → User → User
updated_user now input password_hash role u = record u {
  username = input.username;
  email = input.email;
  password_hash = if password_hash == "" then u.password_hash else password_hash;
  display_name = input.display_name;
  role = role;
  source = normalize_user_source "";
  disabled = input.disabled;
  updated_at = now;
}

-- UpdateManagedUser
unfoldable pub update_managed_user :
    ℕ → String → UserInput → String → Directory → Option StoreError × Directory
update_managed_user now id input password_hash d =
    let keys = normalize_role_keys input.role_keys in
    if any (λ u. not (u.id == id) && u.username == input.username) d.users
      && any (has_user_id id) d.users
    then (some StoreError.unique_violation, d)
    else if not (any (has_user_id id) d.users)
    then (some StoreError.not_found, d)
    else with_roles id keys (record d {
      users =
          update_where (has_user_id id) (updated_user now input password_hash (first_key keys))
            d.users;
    })

unfoldable pub with_disabled : ℕ → Bool → User → User
with_disabled now disabled u = record u { disabled = disabled; updated_at = now }

unfoldable pub set_managed_user_disabled :
    ℕ → String → Bool → Directory → Option StoreError × Directory
set_managed_user_disabled now id disabled d =
    if not (any (has_user_id id) d.users) then (some StoreError.not_found, d) else (
      none,
      (find_user_by_id id (record d {
        users = update_where (has_user_id id) (with_disabled now disabled) d.users;
      })).1,
    )

-- DeleteManagedUser; rows that refer to the user go with it.
unfoldable pub delete_managed_user : String → Directory → Option StoreError × Directory
delete_managed_user id d =
    if not (any (has_user_id id) d.users) then (some StoreError.not_found, d) else (
      none,
      record d {
        users = delete_where (has_user_id id) d.users;
        user_roles = delete_where (λ row. row.0 == id) d.user_roles;
        group_members = delete_where (λ row. row.1 == id) d.group_members;
      },
    )
