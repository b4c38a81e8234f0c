-- ===== src/Tests/Roles.antt =====
-- A built-in and a custom role, and requests that save, change and delete roles.
use mathlib.Core.Bool.{false≢true, true≢false}
use kvm_manager.Base.{String, ◌≡◌, refl, Bool, true, false, none, some, List, [], ◌∷◌, All}
use kvm_manager.Access.Keys.{is_role_key}
use kvm_manager.Access.Users.{Role, Directory}
use kvm_manager.Access.Users.Handlers.{reply}
use kvm_manager.Access.Roles.{
  RoleInput, RoleRequest, serve_roles, handle_role_route, remove_role, delete_custom_role,
  is_custom,
}
use kvm_manager.Access.Roles.Builtin.{builtin_roles, builtin_roles-serve_roles}
use kvm_manager.Access.Roles.Valid.{IsSound, serve_roles-IsSound}

abbrev role : String → String → Bool → List String → Role
role id key builtin permissions = record {
  id = id;
  key = key;
  name = key;
  description = "";
  permissions = permissions;
  builtin = builtin;
  created_at = 0;
  updated_at = 0;
}

abbrev directory : Directory
directory = record {
  users = [];
  roles = role "r1" "admin" true [] ∷ role "r2" "auditor" false [] ∷ [];
  user_roles = ("u1", "r1") ∷ ("u2", "r2") ∷ [];
  groups = [];
  group_members = [];
  group_roles = ("g1", "r2") ∷ [];
}

abbrev operator : RoleInput
operator = record {
  key = " operator2 ";
  name = "Operator";
  description = "";
  permissions = "vms.power" ∷ [];
}

abbrev requests : List RoleRequest
requests =
    RoleRequest.route 9 "r9" "DELETE" "r1" none
    ∷ RoleRequest.route 8 "r8" "PUT" "r1" (some operator)
    ∷ RoleRequest.create 7 "r7" (some operator)
    ∷ []

directory-IsSound : All IsSound directory.roles
unfolding IsSound is_role_key
directory-IsSound = (
  λ custom. absurd (true≢false custom),
  (
    λ custom. record {
      key_fits = refl;
      named = refl;
      closed = λ p read implied granted. absurd (false≢true granted);
    },
    tt,
  ),
)

builtin_roles-serve_roles_example :
    builtin_roles (serve_roles requests directory).roles ≡ builtin_roles directory.roles
builtin_roles-serve_roles_example = builtin_roles-serve_roles requests directory

serve_roles-IsSound_example : All IsSound (serve_roles requests directory).roles
serve_roles-IsSound_example = serve_roles-IsSound requests directory directory-IsSound

builtin_role_refused :
    (handle_role_route 9 "r9" "DELETE" "r1" none directory).0 ≡ reply 404 "role_not_found"
unfolding handle_role_route remove_role delete_custom_role is_custom
builtin_role_refused = refl
