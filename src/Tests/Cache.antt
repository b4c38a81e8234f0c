-- ===== src/Tests/Cache.antt =====
-- The cache of two agents' machines.
use kvm_manager.Base.{
  String, ◌≡◌, refl, true, false, ◌&&◌, ◌||◌, none, some, List, [], ◌∷◌, member, if◌then◌else◌,
}
use kvm_manager.Dict.{get}
use kvm_manager.Dict.Many.{keys, members}
use kvm_manager.Runtime.{
  Host, VirtualMachine, Snapshot, Keyspace, saved, agent_deleted, is_agent_deleted,
  save_agent_runtime, reject_deleted_agent_runtime_write,
}
use kvm_manager.Runtime.Consistent.{
  IsConsistent, Operation, run_all, no_runtime, run_all-IsConsistent,
}
use kvm_manager.Runtime.Deleted.{IsGone, IsAbsent, Write, write, is_about, write_after_removal}
use kvm_manager.Runtime.Saved.{save_agent_runtime_lem}

abbrev host : Host
host = record { id = "a1"; name = "h1"; status = "online"; vm_count = 1; rest = "" }

abbrev vm : VirtualMachine
vm = record {
  id = "a1:u1";
  name = "web";
  description = "";
  os_type = "Ubuntu 22.04";
  primary_ip = "10.0.0.5";
  host_id = "a1";
  host_name = "h1";
  status = "running";
  rest = "";
}

abbrev snapshot : Snapshot
snapshot = record { id = "a1:u1:snapshot:s"; vm_id = "a1:u1"; created_at = 5; rest = "" }

abbrev operations : List Operation
operations =
    Operation.remove_host "a1"
    ∷ Operation.update_vm "a1" host vm
    ∷ Operation.save "a1" host (("a1:u1", vm) ∷ []) (("a1:u1:snapshot:s", snapshot) ∷ []) true
    ∷ []

run_all-IsConsistent_example : IsConsistent (run_all operations no_runtime)
run_all-IsConsistent_example = run_all-IsConsistent operations

abbrev marked : Keyspace
marked = record {
  hosts = [];
  host = [];
  vms = [];
  vm = [];
  agent_vms = [];
  snapshots = [];
  snapshot = [];
  vm_snapshots = [];
  deleted = "a1" ∷ [];
}

abbrev save : Write
save = Write.save host (("a1:u1", vm) ∷ []) (("a1:u1:snapshot:s", snapshot) ∷ []) true

-- The marker, with a machine that a write in between has listed again
abbrev listed_again : Keyspace
listed_again = record marked {
  vms = "a1:u0" ∷ [];
  vm = ("a1:u0", vm) ∷ [];
  agent_vms = ("a1", "a1:u0" ∷ []) ∷ [];
}

write_after_removal_example :
    let written = write save "a1" listed_again listed_again in
    let (outcome, w) = reject_deleted_agent_runtime_write "a1" written in
    (outcome ≡ agent_deleted)
    × IsGone "a1" written w
    × ((id : String)
        → (is_about save id
            || member id (members "a1" listed_again.agent_vms)
              && member id (members "a1" listed_again.agent_vms))
          ≡ true
        → IsAbsent id w)
unfolding is_agent_deleted
write_after_removal_example = write_after_removal save "a1" listed_again listed_again refl

save_agent_runtime_lem_example :
    let (outcome, w') = save_agent_runtime "a1" host (("a1:u1", vm) ∷ []) [] false no_runtime in
    (outcome ≡ saved)
    × (get "a1" w'.host ≡ some host)
    × ((id : String)
        → member id (members "a1" w'.agent_vms) ≡ member id (keys (("a1:u1", vm) ∷ [])))
    × ((id : String)
        → get id w'.vm ≡ elim (get id (("a1:u1", vm) ∷ [])) [
          | some vm ↦ some vm
          | none ↦
              if member id (members "a1" no_runtime.agent_vms) then none else get id no_runtime.vm
        ])
unfolding is_agent_deleted no_runtime
save_agent_runtime_lem_example =
    save_agent_runtime_lem "a1" host (("a1:u1", vm) ∷ []) [] false no_runtime refl

abbrev stored : Keyspace
stored = record marked { vms = "a1:u1" ∷ "gone" ∷ []; vm = ("a1:u1", vm) ∷ [] }
