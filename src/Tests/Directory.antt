-- ===== src/Tests/Directory.antt =====
-- Two users and three roles.
use kvm_manager.Base.{
  String, ◌≡◌, refl, subst, ◌≤◌, Bool, true, false, Option, none, some, List, [], ◌∷◌, arith, ◌==◌,
  any, all, eq_iff, Bool-cases, inl, inr, member, if◌then◌else◌,
}
use kvm_manager.Dict.{get}
use kvm_manager.Sql.Rows.{count}
use kvm_manager.Access.Permissions.{
  implied_read_permissions, normalize_permissions, normalize_role_keys,
}
use kvm_manager.Access.Permissions.Laws.{gives, normalize_permissions_lem}
use kvm_manager.Access.Users.{User, Role, Directory, UserInput, has_user_id}
use kvm_manager.Access.Users.Handlers.{handle_create_managed_user}
use kvm_manager.Access.Users.Admin.{IsSafe, is_enabled_admin}
use kvm_manager.Access.Users.Requests.{Request, handle_create_managed_user_leaves_row}
use kvm_manager.Access.Users.Known.{is_known, has_unique_ids}
use kvm_manager.Access.Roles.{RoleRequest}
use kvm_manager.Access.Safety.{AccessRequest, serve_accesses, serve_accesses-IsSafe}

abbrev user : String → String → String → User
user id username role = record {
  id = id;
  username = username;
  email = "a@b.c";
  password_hash = "h";
  display_name = username;
  role = role;
  source = "local";
  disabled = false;
  last_login_at = none;
  created_at = 0;
  updated_at = 0;
}

abbrev role : String → String → Bool → List String → Role
role id key builtin permissions = record {
  id = id;
  key = key;
  name = key;
  description = "";
  permissions = permissions;
  builtin = builtin;
  created_at = 0;
  updated_at = 0;
}

abbrev directory : Directory
directory = record {
  users = user "u1" "admin" "admin" ∷ user "u2" "bob" "viewer" ∷ [];
  roles = role "r1" "admin" true [] ∷ role "r2" "viewer" true ("vms.read" ∷ []) ∷ [];
  user_roles = ("u1", "r1") ∷ ("u2", "r2") ∷ [];
  groups = [];
  group_members = [];
  group_roles = [];
}

abbrev input : UserInput
input = record {
  username = "eve";
  password = "secret";
  email = "e@b.c";
  display_name = "Eve";
  role_keys = "auditor" ∷ [];
  disabled = true;
}

abbrev hash : String → Option String
hash password = some "hashed"

directory-IsSafe : IsSafe directory.users
unfolding is_enabled_admin has_user_id
directory-IsSafe = record {
  admin = refl;
  unique = λ id. elim (Bool-cases ("u1" == id)) [
    | inl e ↦
        subst (λ i. count (has_user_id i) directory.users ≤ 1) ((eq_iff "u1" id).0 e) (omega arith)
    | inr e ↦ ground (arith, e)
  ];
}

abbrev requests : List AccessRequest
requests =
    AccessRequest.about_role (RoleRequest.route 12 "r3" "DELETE" "r1" none)
    ∷ AccessRequest.about_group 11 "g1" "DELETE" "g1" none
    ∷ AccessRequest.about_user (Request.delete "u2" "u1")
    ∷ AccessRequest.about_user (Request.disable 9 "u2" "u1" true)
    ∷ AccessRequest.about_user (Request.update 8 "u2" "u1" input)
    ∷ AccessRequest.about_user (Request.create 7 "u3" input)
    ∷ []

serve_accesses-IsSafe_example : IsSafe (serve_accesses hash requests directory).users
serve_accesses-IsSafe_example = serve_accesses-IsSafe hash requests directory directory-IsSafe

handle_create_managed_user_leaves_row_example :
    let (response, d') = handle_create_managed_user hash 7 "u3" input directory in
    (any (λ u. u.username == input.username) d'.users ≡ true)
    × (response.status ≡ (
        if all (is_known directory.roles) (normalize_role_keys input.role_keys) then 201 else 400))
unfolding has_unique_ids
handle_create_managed_user_leaves_row_example =
    handle_create_managed_user_leaves_row hash 7 "u3" input "hashed" directory refl refl refl

normalize_permissions_lem_example :
    (member "vms.power" (normalize_permissions (" vms.power " ∷ []))
      ≡ any (gives "vms.power") (" vms.power " ∷ []))
    × ((read : String)
        → get "vms.power" implied_read_permissions ≡ some read
        → member "vms.power" (normalize_permissions (" vms.power " ∷ [])) ≡ true
        → member read (normalize_permissions (" vms.power " ∷ [])) ≡ true)
normalize_permissions_lem_example = normalize_permissions_lem (" vms.power " ∷ []) "vms.power"
