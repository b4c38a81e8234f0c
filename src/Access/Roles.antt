-- ===== src/Access/Roles.antt =====
-- The administration of roles: UpsertCustomRole and DeleteCustomRole of
-- backend/internal/repository/rbac.go; decodeRoleRequest, handleCreateRole and handleRoleRoute of
-- backend/api/router/rbac.go, from the identifier that the path holds on. Audit entries are left out.
pub mod Steps
pub mod Builtin
pub mod Valid
use kvm_manager.Base.{
  ℕ, String, Bool, true, false, ◌&&◌, ◌||◌, not, Option, none, some, List, [], ◌∷◌, ◌++◌, ◌==◌, any,
  if◌then◌else◌,
}
use kvm_manager.Text.{trim_space}
use kvm_manager.Sql.{update_where, delete_where}
use kvm_manager.Access.Keys.{is_role_key}
use kvm_manager.Access.Permissions.{normalize_permissions, unique_trimmed}
use kvm_manager.Access.Users.{Role, Directory, StoreError}
use kvm_manager.Access.Users.Handlers.{Response, reply}

pub record RoleInput : Type 0 where
  pub key : String
  pub name : String
  pub description : String
  pub permissions : List String

-- WHERE id=$1 AND builtin=false
unfoldable pub is_custom : String → Role → Bool
is_custom id r = r.id == id && not r.builtin

unfoldable pub new_role : ℕ → String → RoleInput → Role
new_role now id input = record {
  id = id;
  key = input.key;
  name = input.name;
  description = input.description;
  permissions = normalize_permissions input.permissions;
  builtin = false;
  created_at = now;
  updated_at = now;
}

unfoldable pub updated_role : ℕ → RoleInput → Role → Role
updated_role now input r = record r {
  key = input.key;
  name = input.name;
  description = input.description;
  permissions = normalize_permissions input.permissions;
  updated_at = now;
}

-- UpsertCustomRole without an identifier; the database draws `id`.
unfoldable pub insert_custom_role :
    ℕ → String → RoleInput → Directory → Option StoreError × Directory
insert_custom_role now id input d =
    if any (λ r. r.id == id || r.key == input.key) d.roles
    then (some StoreError.unique_violation, d)
    else (none, record d { roles = d.roles ++ new_role now id input ∷ [] })

-- UpsertCustomRole with an identifier.
unfoldable pub update_custom_role :
    ℕ → String → RoleInput → Directory → Option StoreError × Directory
update_custom_role now id input d =
    if not (any (is_custom id) d.roles)
    then (some StoreError.not_found, d)
    else if any (λ r. not (r.id == id) && r.key == input.key) d.roles
    then (some StoreError.unique_violation, d)
    else (none, record d { roles = update_where (is_custom id) (updated_role now input) d.roles })

unfoldable pub upsert_custom_role :
    ℕ → String → String → RoleInput → Directory → Option StoreError × Directory
upsert_custom_role now new_id id input d =
    if id == "" then insert_custom_role now new_id input d else update_custom_role now id input d

-- The tables without a custom role and the rows that refer to it.
unfoldable pub remove_role_rows : String → Directory → Directory
remove_role_rows id d = record d {
  roles = delete_where (is_custom id) d.roles;
  user_roles = delete_where (λ row. row.1 == id) d.user_roles;
  group_roles = delete_where (λ row. row.1 == id) d.group_roles;
}

unfoldable pub delete_custom_role : String → Directory → Option StoreError × Directory
delete_custom_role id d =
    if not (any (is_custom id) d.roles)
    then (some StoreError.not_found, d)
    else (none, remove_role_rows id d)

unfoldable pub trim_role_input : RoleInput → RoleInput
trim_role_input input = record {
  key = trim_space input.key;
  name = trim_space input.name;
  description = trim_space input.description;
  permissions = unique_trimmed [] input.permissions;
}

-- The answer to an input that decodeRoleRequest refuses, when it does.
unfoldable pub check_role_input : RoleInput → Option Response
check_role_input input =
    if not (is_role_key input.key)
    then some (reply 400 "invalid_role_key")
    else if input.name == ""
    then some (reply 400 "invalid_role_name")
    else none

-- What a handler answers for the error of its last statement.
abbrev create_role_reply : Option StoreError → Response
create_role_reply none = reply 201 ""
create_role_reply (some StoreError.unique_violation) = reply 409 "role_exists"
create_role_reply (some StoreError.not_found) = reply 500 "save_role_failed"

abbrev update_role_reply : Option StoreError → Response
update_role_reply none = reply 200 ""
update_role_reply (some StoreError.not_found) = reply 404 "role_not_found"
update_role_reply (some StoreError.unique_violation) = reply 500 "save_role_failed"

abbrev delete_role_reply : Option StoreError → Response
delete_role_reply none = reply 200 ""
delete_role_reply (some StoreError.not_found) = reply 404 "role_not_found"
delete_role_reply (some StoreError.unique_violation) = reply 500 "delete_role_failed"

-- A body that is decoded, trimmed and checked, saved by a statement whose error `answer` reads;
-- `none` for a body that is not a role.
unfoldable pub save_role :
    (Option StoreError → Response)
    → (RoleInput → Directory → Option StoreError × Directory)
    → Option RoleInput
    → Directory
    → Response × Directory
save_role answer store none d = (reply 400 "invalid_request", d)
save_role answer store (some input) d = elim (check_role_input (trim_role_input input)) [
  | some refusal ↦ (refusal, d)
  | none ↦ (let (error, d') = store (trim_role_input input) d in (answer error, d'))
]

unfoldable pub handle_create_role : ℕ → String → Option RoleInput → Directory → Response × Directory
handle_create_role now new_id body d =
    save_role create_role_reply (upsert_custom_role now new_id "") body d

unfoldable pub remove_role : String → Directory → Response × Directory
remove_role id d = let (error, d') = delete_custom_role id d in (delete_role_reply error, d')

unfoldable pub handle_role_route :
    ℕ → String → String → String → Option RoleInput → Directory → Response × Directory
handle_role_route now new_id method id body d =
    if method == "PUT"
    then save_role update_role_reply (upsert_custom_role now new_id id) body d
    else if method == "DELETE"
    then remove_role id d
    else (reply 405 "method_not_allowed", d)

-- A request about roles.
pub data RoleRequest : Type 0 where
  create : ℕ → String → Option RoleInput → RoleRequest
  route : ℕ → String → String → String → Option RoleInput → RoleRequest

unfoldable pub serve_role : RoleRequest → Directory → Directory
serve_role (RoleRequest.create now new_id body) d = (handle_create_role now new_id body d).1
serve_role (RoleRequest.route now new_id method id body) d =
    (handle_role_route now new_id method id body d).1

-- Requests, the latest first.
unfoldable pub serve_roles : List RoleRequest → Directory → Directory
serve_roles [] d = d
serve_roles (r ∷ older) d = serve_role r (serve_roles older d)
