-- ===== src/Runtime/Deleted.antt =====
-- The race between a write for an agent and the agent's removal.
use kvm_manager.Base.{
  String, ◌≡◌, refl, ◌∙◌, Bool, true, false, ◌&&◌, ◌||◌, none, List, [], ◌∷◌, arith, ◌==◌, eq_refl,
  Bool-cases, Option-cases, inl, inr, member, without, member-without, member-adjoin, if◌then◌else◌,
}
use kvm_manager.Dict.{Dict, get, remove, get-put, get-remove}
use kvm_manager.Dict.Many.{
  members, keys, srem, without_all, remove_all, member-without_all, member-adjoin_all, members-sadd,
  members-sadd_all, member-keys, get-remove_all, get-assign_all,
}
use kvm_manager.Runtime.{
  Host, VirtualMachine, Snapshot, Keyspace, agent_deleted, is_agent_deleted, snapshot_ids,
  remove_agent, remove_agent_write, save_agent_runtime_write, update_vm_runtime_write,
  remove_vm_runtime_write, renamed_vms, srem_all, reject_deleted_agent_runtime_write,
}

-- Nothing of an agent is left: neither its host, nor the machines listed for it in `before`, nor the
-- snapshots listed for those machines there; and the agent is marked.
pub record IsGone (agent_id : String) (before w : Keyspace) : Type 0 where
  pub unlisted : member agent_id w.hosts ≡ false
  pub no_host : get agent_id w.host ≡ none
  pub no_vms : get agent_id w.agent_vms ≡ none
  pub vms :
      (id : String)
      → member id (members agent_id before.agent_vms) ≡ true
      → (member id w.vms ≡ false) × (get id w.vm ≡ none) × (get id w.vm_snapshots ≡ none)
  pub snapshots :
      (id : String)
      → member id (snapshot_ids (members agent_id before.agent_vms) before.vm_snapshots) ≡ true
      → (member id w.snapshots ≡ false) × (get id w.snapshot ≡ none)

-- Removing an agent leaves nothing of it.
remove_agent-IsGone :
    (agent_id : String) (w : Keyspace) → IsGone agent_id w (remove_agent agent_id w)
unfolding remove_agent remove_agent_write
remove_agent-IsGone agent_id w =
    let old = members agent_id w.agent_vms in
    let old_snapshots = snapshot_ids old w.vm_snapshots in
    record {
      unlisted = ground (arith, member-without agent_id agent_id w.hosts, eq_refl agent_id);
      no_host = ground (arith, get-remove agent_id agent_id w.host, eq_refl agent_id);
      no_vms = ground (arith, get-remove agent_id agent_id w.agent_vms, eq_refl agent_id);
      vms = λ id h. (
        ground (arith, member-without_all old w.vms id),
        ground (arith, get-remove_all old w.vm id),
        ground (arith, get-remove_all old w.vm_snapshots id),
      );
      snapshots = λ id h. (
        ground (arith, member-without_all old_snapshots w.snapshots id),
        ground (arith, get-remove_all old_snapshots w.snapshot id),
      );
    }

reject_marked :
    (agent_id : String) (w : Keyspace)
    → is_agent_deleted agent_id w ≡ true
    → let (outcome, w') = reject_deleted_agent_runtime_write agent_id w in
      (outcome ≡ agent_deleted) × IsGone agent_id w w'
unfolding reject_deleted_agent_runtime_write
reject_marked agent_id w marked = rw marked (refl, remove_agent-IsGone agent_id w)

-- The writes for an agent that check its marker again after their commands.
pub data Write : Type 0 where
  save : Host → Dict VirtualMachine → Dict Snapshot → Bool → Write
  update_vm : Host → VirtualMachine → Write
  remove_vm : String → Write

-- The commands of a write, from its reads of `r`.
unfoldable pub write : Write → String → Keyspace → Keyspace → Keyspace
write (Write.save host vms snapshots replace) agent_id =
    save_agent_runtime_write agent_id host vms snapshots replace
write (Write.update_vm host vm) agent_id = update_vm_runtime_write agent_id host vm
write (Write.remove_vm vm_id) agent_id = remove_vm_runtime_write agent_id vm_id

write-marker :
    (o : Write) (agent_id : String) (r w : Keyspace)
    → is_agent_deleted agent_id (write o agent_id r w) ≡ is_agent_deleted agent_id w
unfolding write save_agent_runtime_write update_vm_runtime_write remove_vm_runtime_write
    is_agent_deleted
write-marker (Write.save host vms snapshots replace) agent_id r w = refl
write-marker (Write.update_vm host vm) agent_id r w = refl
write-marker (Write.remove_vm vm_id) agent_id r w = refl

-- The machines that a write is about: those that it puts, or the one that it takes away.
unfoldable pub is_about : Write → String → Bool
is_about (Write.save host vms snapshots replace) id = member id (keys vms)
is_about (Write.update_vm host vm) id = vm.id == id
is_about (Write.remove_vm vm_id) id = vm_id == id

-- No machine under an identifier.
abbrev pub IsAbsent : String → Keyspace → Type 0
IsAbsent id w = (member id w.vms ≡ false) × (get id w.vm ≡ none)

members-srem :
    (k i j : String) (d : Dict (List String))
    → member j (members k (srem k i d)) ≡ (if i == j then false else member j (members k d))
unfolding srem members
members-srem k i j d = elim (Option-cases (get k d)) [
  | inl e ↦ rw (e, members, srem) (ground arith)
  | inr (js, e) ↦
      rw (e, srem) (ground (arith, get-put k k (without i js) d, eq_refl k, member-without i j js))
]

members-srem_all :
    (k : String) (is : List String) (d : Dict (List String)) (j : String)
    → member j (members k (srem_all k is d))
      ≡ (if member j is then false else member j (members k d))
unfolding srem_all
members-srem_all k [] d j = refl
members-srem_all k (i ∷ is) d j =
    ground (arith, members-srem_all k is (srem k i d) j, members-srem k i j d)

-- A machine that a write is about, or that was listed for its agent both when it read and when its
-- commands ran, is listed for the agent after them unless they took it away.
write_unlisted :
    (o : Write) (agent_id : String) (r w : Keyspace) (id : String)
    → (is_about o id
        || member id (members agent_id r.agent_vms) && member id (members agent_id w.agent_vms))
      ≡ true
    → member id (members agent_id (write o agent_id r w).agent_vms) ≡ false
    → IsAbsent id (write o agent_id r w)
unfolding write is_about save_agent_runtime_write update_vm_runtime_write remove_vm_runtime_write
write_unlisted (Write.save host vms snapshots replace) agent_id r w id h unlisted =
    let old = members agent_id r.agent_vms in
    let new : member id (keys vms) ≡ false =
      ground (arith, members-sadd_all agent_id (keys vms) id (remove agent_id w.agent_vms)) in
    (
      ground (
        arith,
        member-adjoin_all (keys vms) (without_all old w.vms) id,
        member-without_all old w.vms id,
      ),
      ground (
        arith,
        get-assign_all vms (remove_all old w.vm) id,
        get-remove_all old w.vm id,
        member-keys vms id,
      ),
    )
write_unlisted (Write.update_vm host vm) agent_id r w id h unlisted =
    let stale = renamed_vms vm (members agent_id r.agent_vms) r.vm in
    let others = srem_all agent_id stale w.agent_vms in
    let other : (vm.id == id) ≡ false = ground (arith, members-sadd agent_id vm.id id others) in
    let taken : member id stale ≡ true = ground (
      arith,
      members-sadd agent_id vm.id id others,
      members-srem_all agent_id stale w.agent_vms id,
    ) in
    (
      ground (
        arith,
        member-adjoin vm.id id (without_all stale w.vms),
        member-without_all stale w.vms id,
      ),
      ground (arith, get-put vm.id id vm (remove_all stale w.vm), get-remove_all stale w.vm id),
    )
write_unlisted (Write.remove_vm vm_id) agent_id r w id h unlisted =
    let taken : (vm_id == id) ≡ true = ground (arith, members-srem agent_id vm_id id w.agent_vms) in
    (ground (arith, member-without vm_id id w.vms), ground (arith, get-remove vm_id id w.vm))

remove_agent-IsAbsent :
    (agent_id : String) (w : Keyspace) (id : String)
    → (member id (members agent_id w.agent_vms) ≡ false → IsAbsent id w)
    → IsAbsent id (remove_agent agent_id w)
unfolding remove_agent remove_agent_write
remove_agent-IsAbsent agent_id w id h =
    let listed = members agent_id w.agent_vms in
    elim (Bool-cases (member id listed)) [
      | inl e ↦ (
        ground (arith, member-without_all listed w.vms id),
        ground (arith, get-remove_all listed w.vm id),
      )
      | inr e ↦ (
        ground (arith, h e, member-without_all listed w.vms id),
        ground (arith, h e, get-remove_all listed w.vm id),
      )
    ]

reject_marked-IsAbsent :
    (agent_id : String) (w : Keyspace) (id : String)
    → is_agent_deleted agent_id w ≡ true
    → (member id (members agent_id w.agent_vms) ≡ false → IsAbsent id w)
    → IsAbsent id (reject_deleted_agent_runtime_write agent_id w).1
unfolding reject_deleted_agent_runtime_write
reject_marked-IsAbsent agent_id w id marked h = rw marked (remove_agent-IsAbsent agent_id w id h)

-- A write that began before its agent was removed, from the reads of any keyspace `r`, and whose
-- commands run on a keyspace `w` that holds the agent's marker, fails. It leaves no host of the
-- agent, and nothing of what is listed for the agent after its commands. Nor does it leave a machine
-- that it is about, or one that was listed for the agent both in `r` and in `w`.
pub write_after_removal :
    (o : Write) (agent_id : String) (r w : Keyspace)
    → is_agent_deleted agent_id w ≡ true
    → let written = write o agent_id r w in
      let (outcome, w') = reject_deleted_agent_runtime_write agent_id written in
      (outcome ≡ agent_deleted)
      × IsGone agent_id written w'
      × ((id : String)
          → (is_about o id
              || member id (members agent_id r.agent_vms)
                && member id (members agent_id w.agent_vms))
            ≡ true
          → IsAbsent id w')
write_after_removal o agent_id r w marked =
    let still = write-marker o agent_id r w ∙ marked in
    let (failed, gone) = reject_marked agent_id (write o agent_id r w) still in
    (
      failed,
      gone,
      λ id h.
          reject_marked-IsAbsent agent_id (write o agent_id r w) id still
            (write_unlisted o agent_id r w id h),
    )
