-- ===== src/Runtime/Lists.antt =====
-- Reading the cache: the List… and Get… methods of
-- backend/internal/service/realtime/redis_runtime_store.go, with vmMatchesQuery of service.go. Objects
-- that sort.Slice holds for equal come in some order; here that of the set.
pub mod Laws
use Prim.Native.Nat.{Ordering}
use Prim.Native.String.{compare}
use kvm_manager.Base.{
  ℕ, String, Bool, true, false, ◌&&◌, ◌||◌, not, Option, none, some, List, [], ◌∷◌, ◌==◌, eqb, ltb,
  leb, if◌then◌else◌,
}
use kvm_manager.Dict.{Dict, get}
use kvm_manager.Sql.{sort_by}
use kvm_manager.Text.{to_lower, trim_space, contains}
use kvm_manager.Runtime.{Host, VirtualMachine, Snapshot, Keyspace}

unfoldable pub host_status_rank : String → ℕ
host_status_rank status =
    let s = to_lower (trim_space status) in
    if s == "online"
    then 0
    else if s == "degraded"
    then 1
    else if s == "maintenance"
    then 2
    else if s == "offline"
    then 3
    else if s == "unknown"
    then 4
    else 5

unfoldable pub vm_status_rank : String → ℕ
vm_status_rank status =
    let s = to_lower (trim_space status) in
    if s == "running"
    then 0
    else if s == "paused"
    then 1
    else if s == "stopped"
    then 2
    else if s == "error"
    then 3
    else if s == "unknown"
    then 4
    else 5

-- Not after by name: the order of bytes in UTF-8 is that of the characters' numbers.
unfoldable pub is_at_most : String → String → Bool
is_at_most a b = elim (compare a b) [ Ordering.gt ↦ false | _ ↦ true ]

-- The order by rank, then by name in lower case.
unfoldable pub precedes : ℕ → String → ℕ → String → Bool
precedes rank name rank' name' =
    if eqb rank rank' then is_at_most (to_lower name) (to_lower name') else ltb rank rank'

unfoldable pub host_precedes : Host → Host → Bool
host_precedes a b = precedes (host_status_rank a.status) a.name (host_status_rank b.status) b.name

unfoldable pub vm_precedes : VirtualMachine → VirtualMachine → Bool
vm_precedes a b = precedes (vm_status_rank a.status) a.name (vm_status_rank b.status) b.name

unfoldable pub snapshot_precedes : Snapshot → Snapshot → Bool
snapshot_precedes a b = leb b.created_at a.created_at

-- The objects of a set's identifiers that pass a test; an identifier without an object is skipped.
unfoldable pub collect {ℓ} : {V : Type ℓ} → (V → Bool) → List String → Dict V → List V
collect p [] d = []
collect p (id ∷ ids) d =
    let rest = collect p ids d in
    elim (get id d) [ none ↦ rest | some v ↦ if p v then v ∷ rest else rest ]

unfoldable pub vm_matches_query : VirtualMachine → String → Bool
vm_matches_query vm query =
    contains (to_lower vm.name) query
    || contains (to_lower vm.primary_ip) query
    || contains (to_lower vm.os_type) query
    || contains (to_lower vm.host_name) query

-- The filters of ListVMs.
unfoldable pub is_listed : String → String → String → VirtualMachine → Bool
is_listed status query host_id vm =
    let text = to_lower (trim_space query) in
    let host = trim_space host_id in
    (status == "" || status == "all" || vm.status == status)
    && (host == "" || vm.host_id == host)
    && (text == "" || vm_matches_query vm text)

unfoldable pub list_hosts : Keyspace → List Host
list_hosts w = sort_by host_precedes (collect (λ host. true) w.hosts w.host)

unfoldable pub list_vms : String → String → String → Keyspace → List VirtualMachine
list_vms status query host_id w =
    sort_by vm_precedes (collect (is_listed status query host_id) w.vms w.vm)

unfoldable pub list_snapshots : Keyspace → List Snapshot
list_snapshots w = sort_by snapshot_precedes (collect (λ s. true) w.snapshots w.snapshot)

unfoldable pub get_host : String → Keyspace → Option Host
get_host agent_id w = get agent_id w.host

unfoldable pub get_vm : String → Keyspace → Option VirtualMachine
get_vm id w = get id w.vm

unfoldable pub get_snapshot : String → Keyspace → Option Snapshot
get_snapshot id w = get id w.snapshot
