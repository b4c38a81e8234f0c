-- ===== src/Access/Permissions.antt =====
-- Permissions: normalizePermissions, uniquePermissions and normalizeRoleKeys of
-- backend/internal/repository/rbac.go; hasPermission and vmRoutePermission of
-- backend/api/router/rbac.go.
pub mod Laws
use Prim.Native.Nat.{Ordering}
use Prim.Native.String.{compare}
use kvm_manager.Base.{
  String, Bool, true, false, ◌&&◌, ◌||◌, Option, none, some, List, [], ◌∷◌, ◌++◌, ◌==◌, any, member,
  adjoin, if◌then◌else◌,
}
use kvm_manager.Sql.{sort_by}
use kvm_manager.Dict.{Dict, get}
use kvm_manager.Text.{trim_space, to_lower}

unfoldable pub implied_read_permissions : Dict String
implied_read_permissions =
    ("agents.manage", "agents.read")
    ∷ ("host.interfaces.manage", "host.interfaces.read")
    ∷ ("vms.create", "vms.read")
    ∷ ("vms.update", "vms.read")
    ∷ ("vms.power", "vms.read")
    ∷ ("vms.delete", "vms.read")
    ∷ ("vms.force", "vms.read")
    ∷ ("vms.console", "vms.read")
    ∷ ("vms.clone", "vms.read")
    ∷ ("vms.migrate", "vms.read")
    ∷ ("snapshots.create", "snapshots.read")
    ∷ ("snapshots.update", "snapshots.read")
    ∷ ("snapshots.revert", "snapshots.read")
    ∷ ("snapshots.delete", "snapshots.read")
    ∷ ("storage.manage", "storage.read")
    ∷ ("network.manage", "network.read")
    ∷ ("alerts.manage", "operations.read")
    ∷ ("settings.base.manage", "settings.base.read")
    ∷ ("settings.users.manage", "settings.users.read")
    ∷ ("settings.auth.manage", "settings.auth.read")
    ∷ ("settings.notifications.manage", "settings.notifications.read")
    ∷ []

-- The set `seen` after one permission.
unfoldable pub add_permission : String → List String → List String
add_permission permission seen =
    let p = trim_space permission in
    if p == "" then seen else elim (get p implied_read_permissions) [
      | none ↦ adjoin p seen
      | some read ↦ adjoin read (adjoin p seen)
    ]

-- The loop, from the last permission to the first: the set does not depend on the order.
unfoldable pub seen_permissions : List String → List String
seen_permissions [] = []
seen_permissions (p ∷ ps) = add_permission p (seen_permissions ps)

-- sort.Strings' order
unfoldable pub is_before : String → String → Bool
is_before a b = elim (compare a b) [ Ordering.gt ↦ false | _ ↦ true ]

unfoldable pub normalize_permissions : List String → List String
normalize_permissions permissions = sort_by is_before (seen_permissions permissions)

-- The trimmed texts without blanks and repetitions, in the order of their first appearance; `seen`
-- holds those that have come.
unfoldable pub unique_trimmed : List String → List String → List String
unique_trimmed seen [] = []
unique_trimmed seen (key ∷ keys) =
    let k = trim_space key in
    let skip = unique_trimmed seen keys in
    let keep = unique_trimmed (k ∷ seen) keys in if k == "" || member k seen then skip else k ∷ keep

unfoldable pub normalize_role_keys : List String → List String
normalize_role_keys keys = elim (unique_trimmed [] keys) [ [] ↦ "viewer" ∷ [] | k ∷ ks ↦ k ∷ ks ]

unfoldable pub has_permission : String → List String → String → Bool
has_permission role permissions permission = role == "admin" || member permission permissions

unfoldable pub has_any_permission : String → List String → List String → Bool
has_any_permission role permissions wanted = any (has_permission role permissions) wanted

-- The permission that a route of machines asks for; empty for a method that is not served.
unfoldable pub vm_route_permission : String → String → String
vm_route_permission method action =
    if method == "GET"
    then (if action == "console" then "vms.console" else "vms.read")
    else if method == "POST" && action == ""
    then "vms.create"
    else if method == "POST"
    then (if action == "clone"
        then "vms.clone"
        else if action == "template-mark"
        then "vms.update"
        else if action == "template-create"
        then "vms.create"
        else if action == "migrate"
            || action == "migrate-precheck"
            || action == "migrate-ssh-key"
            || action == "migrate-hostname"
        then "vms.migrate"
        else if action == "refresh"
        then "vms.read"
        else if action == "delete"
        then "vms.delete"
        else if action == "force-stop"
            || action == "force-shutdown"
            || action == "force-reboot"
            || action == "force-delete"
        then "vms.force"
        else "vms.power")
    else if method == "PUT" || method == "DELETE"
    then "vms.update"
    else ""
