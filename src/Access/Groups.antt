-- ===== src/Access/Groups.antt =====
-- Groups of users: UpsertUserGroup, DeleteUserGroup, replaceGroupMembers, replaceGroupRoles,
-- ListUserGroups and attachAccessToUsers of backend/internal/repository/rbac.go;
-- decodeUserGroupRequest, handleCreateUserGroup and handleUserGroupRoute of
-- backend/api/router/rbac.go, from the identifier that the path holds on. Audit entries are left out.
pub mod Members
pub mod Untouched
use kvm_manager.Base.{
  ℕ, String, Bool, true, false, ◌&&◌, ◌||◌, not, Option, none, some, List, [], ◌∷◌, ◌++◌, ◌==◌, any,
  filter, if◌then◌else◌,
}
use kvm_manager.Text.{trim_space}
use kvm_manager.Sql.{update_where, delete_where, find_where, sort_by}
use kvm_manager.Access.Permissions.{is_before, normalize_role_keys, unique_trimmed}
use kvm_manager.Access.Users.{
  User, UserGroup, Directory, has_user_id, has_role, with_fallback, list_user_effective_roles,
}
use kvm_manager.Access.Users.Handlers.{Response, reply}

pub record UserGroupInput : Type 0 where
  pub name : String
  pub description : String
  pub disabled : Bool
  pub member_ids : List String
  pub role_keys : List String

-- An error of a statement: ErrNotFound, a repeated name, or any other one, such as a member that is
-- no user.
pub data GroupError : Type 0 where
  not_found : GroupError
  unique_violation : GroupError
  failed : GroupError

unfoldable pub has_group_id : String → UserGroup → Bool
has_group_id id g = g.id == id

unfoldable pub in_group : String → String × String → Bool
in_group id (group_id, other) = group_id == id

-- The loop of replaceGroupMembers: false for a member that is no user.
unfoldable pub insert_group_members : String → List String → Directory → Bool × Directory
insert_group_members group_id [] d = (true, d)
insert_group_members group_id (member_id ∷ ids) d =
    let present = insert_group_members group_id ids d in
    let rest =
      insert_group_members group_id ids
        (record d { group_members = d.group_members ++ (group_id, member_id) ∷ [] }) in
    if not (any (has_user_id member_id) d.users)
    then (false, d)
    else if any (has_role group_id member_id) d.group_members
    then present
    else rest

unfoldable pub replace_group_members : String → List String → Directory → Bool × Directory
replace_group_members group_id member_ids d =
    insert_group_members group_id (unique_trimmed [] member_ids)
      (record d { group_members = delete_where (in_group group_id) d.group_members })

-- One statement of replaceGroupRoles; a key that no role has inserts nothing.
unfoldable pub insert_group_role : String → String → Directory → Directory
insert_group_role group_id key d = elim (find_where (λ r. r.key == key) d.roles) [
  | none ↦ d
  | some role ↦
      if any (has_role group_id role.id) d.group_roles
      then d
      else record d { group_roles = d.group_roles ++ (group_id, role.id) ∷ [] }
]

unfoldable pub insert_group_roles : String → List String → Directory → Directory
insert_group_roles group_id [] d = d
insert_group_roles group_id (key ∷ keys) d =
    insert_group_roles group_id keys (insert_group_role group_id key d)

unfoldable pub replace_group_roles : String → List String → Directory → Directory
replace_group_roles group_id keys d =
    insert_group_roles group_id keys
      (record d { group_roles = delete_where (in_group group_id) d.group_roles })

-- What attachAccessToUsers writes: the role of its column for each user without roles.
unfoldable pub attach_access_to_users : List User → Directory → Directory
attach_access_to_users [] d = d
attach_access_to_users (u ∷ us) d =
    attach_access_to_users us (with_fallback u (list_user_effective_roles u.id d) d)

unfoldable pub list_group_members : String → Directory → List User
list_group_members group_id d =
    sort_by (λ u v. is_before u.username v.username)
      (filter (λ u. any (has_role group_id u.id) d.group_members) d.users)

-- What ListUserGroups writes when it reads the members of each group.
unfoldable pub read_groups : List UserGroup → Directory → Directory
read_groups [] d = d
read_groups (g ∷ gs) d = read_groups gs (attach_access_to_users (list_group_members g.id d) d)

unfoldable pub list_user_groups : Directory → Directory
list_user_groups d = read_groups (sort_by (λ g h. is_before g.name h.name) d.groups) d

unfoldable pub new_group : ℕ → String → UserGroupInput → UserGroup
new_group now id input = record {
  id = id;
  name = input.name;
  description = input.description;
  disabled = input.disabled;
  created_at = now;
  updated_at = now;
}

unfoldable pub updated_group : ℕ → UserGroupInput → UserGroup → UserGroup
updated_group now input g = record g {
  name = input.name;
  description = input.description;
  disabled = input.disabled;
  updated_at = now;
}

-- The statement on user_groups in UpsertUserGroup; the database draws `new_id`.
unfoldable pub save_group_row :
    ℕ → String → String → UserGroupInput → Directory → Option GroupError × Directory
save_group_row now new_id id input d =
    if id == ""
    then (if any (λ g. g.id == new_id || g.name == input.name) d.groups
        then (some GroupError.unique_violation, d)
        else (none, record d { groups = d.groups ++ new_group now new_id input ∷ [] }))
    else if not (any (has_group_id id) d.groups)
    then (some GroupError.not_found, d)
    else if any (λ g. not (g.id == id) && g.name == input.name) d.groups
    then (some GroupError.unique_violation, d)
    else (
      none,
      record d { groups = update_where (has_group_id id) (updated_group now input) d.groups },
    )

-- The rest of UpsertUserGroup: members, roles and the read of all groups, which holds the row.
unfoldable pub fill_group : String → UserGroupInput → Directory → Option GroupError × Directory
fill_group id input d =
    let (ok, d') = replace_group_members id input.member_ids d in
    if ok
    then (none, list_user_groups (replace_group_roles id (normalize_role_keys input.role_keys) d'))
    else (some GroupError.failed, d')

unfoldable pub upsert_user_group :
    ℕ → String → String → UserGroupInput → Directory → Option GroupError × Directory
upsert_user_group now new_id id input d =
    let (error, d') = save_group_row now new_id id input d in
    elim error [
      | some e ↦ (some e, d')
      | none ↦ fill_group (if id == "" then new_id else id) input d'
    ]

-- Rows that refer to the group go with it.
unfoldable pub delete_user_group : String → Directory → Option GroupError × Directory
delete_user_group id d =
    if not (any (has_group_id id) d.groups) then (some GroupError.not_found, d) else (
      none,
      record d {
        groups = delete_where (has_group_id id) d.groups;
        group_members = delete_where (in_group id) d.group_members;
        group_roles = delete_where (in_group id) d.group_roles;
      },
    )

unfoldable pub trim_group_input : UserGroupInput → UserGroupInput
trim_group_input input = record {
  name = trim_space input.name;
  description = trim_space input.description;
  disabled = input.disabled;
  member_ids = unique_trimmed [] input.member_ids;
  role_keys = unique_trimmed [] input.role_keys;
}

-- What a handler answers for the error of its last statement.
abbrev create_group_reply : Option GroupError → Response
create_group_reply none = reply 201 ""
create_group_reply (some GroupError.unique_violation) = reply 409 "user_group_exists"
create_group_reply (some _) = reply 500 "save_user_group_failed"

abbrev update_group_reply : Option GroupError → Response
update_group_reply none = reply 200 ""
update_group_reply (some GroupError.not_found) = reply 404 "user_group_not_found"
update_group_reply (some _) = reply 500 "save_user_group_failed"

abbrev delete_group_reply : Option GroupError → Response
delete_group_reply none = reply 200 ""
delete_group_reply (some GroupError.not_found) = reply 404 "user_group_not_found"
delete_group_reply (some _) = reply 500 "delete_user_group_failed"

-- A body that is decoded, trimmed and checked, then saved; `none` for a body that is not a group.
unfoldable pub save_group :
    (Option GroupError → Response)
    → ℕ
    → String
    → String
    → Option UserGroupInput
    → Directory
    → Response × Directory
save_group answer now new_id id none d = (reply 400 "invalid_request", d)
save_group answer now new_id id (some input) d =
    let (error, d') = upsert_user_group now new_id id (trim_group_input input) d in
    if trim_space input.name == ""
    then (reply 400 "invalid_user_group_name", d)
    else (answer error, d')

unfoldable pub handle_create_user_group :
    ℕ → String → Option UserGroupInput → Directory → Response × Directory
handle_create_user_group now new_id body d = save_group create_group_reply now new_id "" body d

unfoldable pub remove_group : String → Directory → Response × Directory
remove_group id d = let (error, d') = delete_user_group id d in (delete_group_reply error, d')

unfoldable pub handle_user_group_route :
    ℕ → String → String → String → Option UserGroupInput → Directory → Response × Directory
handle_user_group_route now new_id method id body d =
    if method == "PUT"
    then save_group update_group_reply now new_id id body d
    else if method == "DELETE"
    then remove_group id d
    else (reply 405 "method_not_allowed", d)
