-- ===== src/Runtime/Saved.antt =====
-- What a saved synchronisation leaves in the cache.
use kvm_manager.Base.{
  String, ◌≡◌, refl, ◌∙◌, Bool, true, false, none, some, arith, eq_refl, member, if◌then◌else◌,
}
use kvm_manager.Dict.{Dict, get, remove, get-put}
use kvm_manager.Dict.Many.{
  keys, remove_all, members, get-remove_all, get-assign_all, members-sadd_all, members-remove,
}
use kvm_manager.Runtime.{
  Host, VirtualMachine, Snapshot, Keyspace, saved, is_agent_deleted, save_agent_runtime,
  save_agent_runtime_write, reject_deleted_agent_runtime_write,
}

if_same : (b : Bool) → (if b then true else false) ≡ b
if_same true = refl
if_same false = refl

no_other :
    (agent_id : String) (vms : Dict VirtualMachine) (w : Keyspace) (id : String)
    → (if member id (keys vms)
        then true
        else member id (members agent_id (remove agent_id w.agent_vms)))
      ≡ member id (keys vms)
no_other agent_id vms w id =
    rw (members-remove agent_id w.agent_vms) (if_same (member id (keys vms)))

-- Saving an agent's synchronisation when it is not marked as deleted succeeds; it stores its host,
-- lists exactly the given machines for it, and makes each machine of the cache the given one, or, if
-- none is given, what it was before unless it was listed for the agent, in which case it is gone.
pub save_agent_runtime_lem :
    (agent_id : String) (host : Host) (vms : Dict VirtualMachine) (snapshots : Dict Snapshot)
    (replace : Bool) (w : Keyspace)
    → is_agent_deleted agent_id w ≡ false
    → let (outcome, w') = save_agent_runtime agent_id host vms snapshots replace w in
      (outcome ≡ saved)
      × (get agent_id w'.host ≡ some host)
      × ((id : String) → member id (members agent_id w'.agent_vms) ≡ member id (keys vms))
      × ((id : String)
          → get id w'.vm ≡ elim (get id vms) [
            | some vm ↦ some vm
            | none ↦ if member id (members agent_id w.agent_vms) then none else get id w.vm
          ])
unfolding save_agent_runtime reject_deleted_agent_runtime_write save_agent_runtime_write
    is_agent_deleted
save_agent_runtime_lem agent_id host vms snapshots replace w unmarked = rw unmarked (
  refl,
  ground (arith, get-put agent_id agent_id host w.host, eq_refl agent_id),
  (λ id. members-sadd_all agent_id (keys vms) id _ ∙ no_other agent_id vms w id),
  λ id. ground (
    arith,
    get-assign_all vms (remove_all (members agent_id w.agent_vms) w.vm) id,
    get-remove_all (members agent_id w.agent_vms) w.vm id,
  ),
)
