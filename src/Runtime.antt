-- ===== src/Runtime.antt =====
-- The cache of the hosts' state in Redis: backend/internal/service/realtime/redis_runtime_store.go.
-- A keyspace has a field for each kind of key. A pipeline reads from the keyspace that it finds, then
-- runs its commands at once on the keyspace of that later moment: a function …_write takes both.
-- Commands are grouped by key, since commands on different keys commute. Every command reaches Redis.
pub mod Consistent
pub mod Deleted
pub mod Saved
pub mod Lists
use kvm_manager.Base.{
  ℕ, ◌-◌, String, Bool, true, false, ◌&&◌, not, Option, none, some, List, [], ◌∷◌, ◌++◌, ◌==◌, ltb,
  member, without, adjoin, if◌then◌else◌,
}
use kvm_manager.Dict.{Dict, get, put, remove}
use kvm_manager.Dict.Many.{
  without_all, adjoin_all, keys, remove_all, assign_all, members, sadd, sadd_all, srem,
}

-- The fields that the store reads or changes, and the rest of the JSON text.
pub record Host : Type 0 where
  pub id : String
  pub name : String
  pub status : String
  pub vm_count : ℕ
  pub rest : String

pub record VirtualMachine : Type 0 where
  pub id : String
  pub name : String
  pub description : String
  pub os_type : String
  pub primary_ip : String
  pub host_id : String
  pub host_name : String
  pub status : String
  pub rest : String

pub record Snapshot : Type 0 where
  pub id : String
  pub vm_id : String
  pub created_at : ℕ
  pub rest : String

pub record Keyspace : Type 0 where
  pub hosts : List String
  pub host : Dict Host
  pub vms : List String
  pub vm : Dict VirtualMachine
  pub agent_vms : Dict (List String)
  pub snapshots : List String
  pub snapshot : Dict Snapshot
  pub vm_snapshots : Dict (List String)
  pub deleted : List String

-- What a write returns; `agent_deleted` is errAgentRuntimeDeleted.
pub data Outcome : Type 0 where
  saved : Outcome
  agent_deleted : Outcome

unfoldable pub is_agent_deleted : String → Keyspace → Bool
is_agent_deleted agent_id w = member agent_id w.deleted

unfoldable pub snapshot_ids : List String → Dict (List String) → List String
snapshot_ids [] d = []
snapshot_ids (vm_id ∷ vm_ids) d = members vm_id d ++ snapshot_ids vm_ids d

-- The members of each snapshot's set.
unfoldable pub index_snapshots : Dict Snapshot → Dict (List String) → Dict (List String)
index_snapshots [] d = d
index_snapshots ((id, s) ∷ rest) d = sadd s.vm_id id (index_snapshots rest d)

-- The pipeline of RemoveAgent, from its reads of `r`.
unfoldable pub remove_agent_write : String → Keyspace → Keyspace → Keyspace
remove_agent_write agent_id r w =
    let old = members agent_id r.agent_vms in
    let old_snapshots = snapshot_ids old r.vm_snapshots in
    record {
      hosts = without agent_id w.hosts;
      host = remove agent_id w.host;
      vms = without_all old w.vms;
      vm = remove_all old w.vm;
      agent_vms = remove agent_id w.agent_vms;
      snapshots = without_all old_snapshots w.snapshots;
      snapshot = remove_all old_snapshots w.snapshot;
      vm_snapshots = remove_all old w.vm_snapshots;
      deleted = adjoin agent_id w.deleted;
    }

unfoldable pub remove_agent : String → Keyspace → Keyspace
remove_agent agent_id w = remove_agent_write agent_id w w

-- rejectDeletedAgentRuntimeWrite
unfoldable pub reject_deleted_agent_runtime_write : String → Keyspace → Outcome × Keyspace
reject_deleted_agent_runtime_write agent_id w =
    if is_agent_deleted agent_id w then (agent_deleted, remove_agent agent_id w) else (saved, w)

unfoldable pub save_agent_runtime_write :
    String → Host → Dict VirtualMachine → Dict Snapshot → Bool → Keyspace → Keyspace → Keyspace
save_agent_runtime_write agent_id host vms snapshots replace_snapshots r w =
    let old = members agent_id r.agent_vms in
    let old_snapshots = snapshot_ids old r.vm_snapshots in
    record w {
      hosts = adjoin agent_id w.hosts;
      host = put agent_id host w.host;
      vms = adjoin_all (keys vms) (without_all old w.vms);
      vm = assign_all vms (remove_all old w.vm);
      agent_vms = sadd_all agent_id (keys vms) (remove agent_id w.agent_vms);
      snapshots =
          if replace_snapshots
          then adjoin_all (keys snapshots) (without_all old_snapshots w.snapshots)
          else w.snapshots;
      snapshot =
          if replace_snapshots
          then assign_all snapshots (remove_all old_snapshots w.snapshot)
          else w.snapshot;
      vm_snapshots =
          if replace_snapshots
          then index_snapshots snapshots (remove_all old w.vm_snapshots)
          else w.vm_snapshots;
    }

unfoldable pub save_agent_runtime :
    String → Host → Dict VirtualMachine → Dict Snapshot → Bool → Keyspace → Outcome × Keyspace
save_agent_runtime agent_id host vms snapshots replace_snapshots w =
    if is_agent_deleted agent_id w
    then (agent_deleted, w)
    else reject_deleted_agent_runtime_write agent_id
        (save_agent_runtime_write agent_id host vms snapshots replace_snapshots w w)

-- The agent's other machines of the same name.
unfoldable pub renamed_vms : VirtualMachine → List String → Dict VirtualMachine → List String
renamed_vms vm [] d = []
renamed_vms vm (vm_id ∷ vm_ids) d =
    let rest = renamed_vms vm vm_ids d in
    if vm_id == vm.id then rest else elim (get vm_id d) [
      | none ↦ rest
      | some current ↦ if current.name == vm.name then vm_id ∷ rest else rest
    ]

srem_all : String → List String → Dict (List String) → Dict (List String)
srem_all k [] d = d
srem_all k (j ∷ js) d = srem_all k js (srem k j d)

unfoldable pub update_vm_runtime_write :
    String → Host → VirtualMachine → Keyspace → Keyspace → Keyspace
unfolding srem_all
update_vm_runtime_write agent_id host vm r w =
    let stale = renamed_vms vm (members agent_id r.agent_vms) r.vm in
    record w {
      hosts = adjoin agent_id w.hosts;
      host = put agent_id host w.host;
      vms = adjoin vm.id (without_all stale w.vms);
      vm = put vm.id vm (remove_all stale w.vm);
      agent_vms = sadd agent_id vm.id (srem_all agent_id stale w.agent_vms);
    }

unfoldable pub update_vm_runtime : String → Host → VirtualMachine → Keyspace → Outcome × Keyspace
update_vm_runtime agent_id host vm w =
    if is_agent_deleted agent_id w
    then (agent_deleted, w)
    else reject_deleted_agent_runtime_write agent_id (update_vm_runtime_write agent_id host vm w w)

-- The host with one machine less, if it has any.
unfoldable pub with_vm_removed : String → Dict Host → Dict Host → Dict Host
with_vm_removed agent_id r w = elim (get agent_id r) [
  | none ↦ w
  | some host ↦
      if ltb 0 host.vm_count
      then put agent_id (record host { vm_count = host.vm_count - 1 }) w
      else w
]

unfoldable pub remove_vm_runtime_write : String → String → Keyspace → Keyspace → Keyspace
remove_vm_runtime_write agent_id vm_id r w =
    let old_snapshots = members vm_id r.vm_snapshots in
    record w {
      host = if agent_id == "" then w.host else with_vm_removed agent_id r.host w.host;
      vms = without vm_id w.vms;
      vm = remove vm_id w.vm;
      agent_vms = if agent_id == "" then w.agent_vms else srem agent_id vm_id w.agent_vms;
      snapshots = without_all old_snapshots w.snapshots;
      snapshot = remove_all old_snapshots w.snapshot;
      vm_snapshots = remove vm_id w.vm_snapshots;
    }

unfoldable pub remove_vm_runtime : String → String → Keyspace → Outcome × Keyspace
remove_vm_runtime agent_id vm_id w =
    reject_deleted_agent_runtime_write agent_id (remove_vm_runtime_write agent_id vm_id w w)

unfoldable pub replace_agent_snapshots_write :
    String → Dict Snapshot → Keyspace → Keyspace → Keyspace
replace_agent_snapshots_write agent_id snapshots r w =
    let old = members agent_id r.agent_vms in
    let old_snapshots = snapshot_ids old r.vm_snapshots in
    record w {
      snapshots = adjoin_all (keys snapshots) (without_all old_snapshots w.snapshots);
      snapshot = assign_all snapshots (remove_all old_snapshots w.snapshot);
      vm_snapshots = index_snapshots snapshots (remove_all old w.vm_snapshots);
    }

unfoldable pub replace_agent_snapshots : String → Dict Snapshot → Keyspace → Outcome × Keyspace
replace_agent_snapshots agent_id snapshots w =
    if is_agent_deleted agent_id w
    then (agent_deleted, w)
    else (saved, replace_agent_snapshots_write agent_id snapshots w w)

-- The marker of a deleted agent expires after ten minutes.
unfoldable pub expire_deleted : String → Keyspace → Keyspace
expire_deleted agent_id w = record w { deleted = without agent_id w.deleted }
