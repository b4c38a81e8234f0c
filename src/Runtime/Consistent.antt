-- ===== src/Runtime/Consistent.antt =====
-- The sets of identifiers and the keys of objects, through the writes of redis_runtime_store.go.
use kvm_manager.Base.{
  String, ◌≡◌, refl, sym, ◌∙◌, Bool, true, false, Option, none, some, List, [], ◌∷◌, arith, ◌==◌,
  eq_iff, ltb, ◌-◌, Bool-cases, inl, inr, Option-cases, member, without, adjoin, member-without,
  member-adjoin,
}
use kvm_manager.Dict.{Dict, get, put, remove, get-put, get-remove}
use kvm_manager.Dict.Many.{
  without_all, adjoin_all, keys, remove_all, assign_all, member-without_all, member-adjoin_all,
  get-remove_all, get-assign_all, member-keys,
}
use kvm_manager.Runtime.{
  Host, VirtualMachine, Snapshot, Keyspace, is_agent_deleted, with_vm_removed, remove_agent,
  remove_agent_write, save_agent_runtime, save_agent_runtime_write, update_vm_runtime,
  update_vm_runtime_write, remove_vm_runtime, remove_vm_runtime_write, replace_agent_snapshots,
  replace_agent_snapshots_write, reject_deleted_agent_runtime_write, expire_deleted,
}

abbrev is_some {ℓ} : {V : Type ℓ} → Option V → Bool
is_some none = false
is_some (some v) = true

-- A set lists exactly the keys that have a value.
abbrev Indexes {ℓ} : {V : Type ℓ} → List String → Dict V → Type 0
Indexes ids d = (id : String) → member id ids ≡ is_some (get id d)

module _ {ℓ} {V : Type ℓ} (ids : List String) (d : Dict V) (i : Indexes ids d) where
  Indexes-put : (k : String) (v : V) → Indexes (adjoin k ids) (put k v d)
  Indexes-put k v id = ground (arith, member-adjoin k id ids, get-put k id v d, i id)

  Indexes-remove : (k : String) → Indexes (without k ids) (remove k d)
  Indexes-remove k id = ground (arith, member-without k id ids, get-remove k id d, i id)

  Indexes-remove_all : (ks : List String) → Indexes (without_all ks ids) (remove_all ks d)
  Indexes-remove_all ks id =
      ground (arith, member-without_all ks ids id, get-remove_all ks d id, i id)

  Indexes-assign_all : (new : Dict V) → Indexes (adjoin_all (keys new) ids) (assign_all new d)
  Indexes-assign_all new id = ground (
    arith,
    member-adjoin_all (keys new) ids id,
    member-keys new id,
    get-assign_all new d id,
    i id,
  )

-- The three sets list exactly the hosts, machines and snapshots that have a value.
pub record IsConsistent (w : Keyspace) : Type 0 where
  pub hosts : Indexes w.hosts w.host
  pub vms : Indexes w.vms w.vm
  pub snapshots : Indexes w.snapshots w.snapshot

remove_agent_write-IsConsistent :
    (agent_id : String) (r w : Keyspace)
    → IsConsistent w
    → IsConsistent (remove_agent_write agent_id r w)
unfolding remove_agent_write
remove_agent_write-IsConsistent agent_id r w c = record {
  hosts = Indexes-remove w.hosts w.host c.hosts agent_id;
  vms = Indexes-remove_all w.vms w.vm c.vms _;
  snapshots = Indexes-remove_all w.snapshots w.snapshot c.snapshots _;
}

replace_agent_snapshots_write-IsConsistent :
    (agent_id : String) (snapshots : Dict Snapshot) (r w : Keyspace)
    → IsConsistent w
    → IsConsistent (replace_agent_snapshots_write agent_id snapshots r w)
unfolding replace_agent_snapshots_write
replace_agent_snapshots_write-IsConsistent agent_id snapshots r w c = record {
  hosts = c.hosts;
  vms = c.vms;
  snapshots =
      Indexes-assign_all _ _ (Indexes-remove_all w.snapshots w.snapshot c.snapshots _) snapshots;
}

save_agent_runtime_write-IsConsistent :
    (agent_id : String) (host : Host) (vms : Dict VirtualMachine) (snapshots : Dict Snapshot)
    (replace : Bool) (r w : Keyspace)
    → IsConsistent w
    → IsConsistent (save_agent_runtime_write agent_id host vms snapshots replace r w)
unfolding save_agent_runtime_write
save_agent_runtime_write-IsConsistent agent_id host vms snapshots true r w c = record {
  hosts = Indexes-put w.hosts w.host c.hosts agent_id host;
  vms = Indexes-assign_all _ _ (Indexes-remove_all w.vms w.vm c.vms _) vms;
  snapshots =
      Indexes-assign_all _ _ (Indexes-remove_all w.snapshots w.snapshot c.snapshots _) snapshots;
}
save_agent_runtime_write-IsConsistent agent_id host vms snapshots false r w c = record {
  hosts = Indexes-put w.hosts w.host c.hosts agent_id host;
  vms = Indexes-assign_all _ _ (Indexes-remove_all w.vms w.vm c.vms _) vms;
  snapshots = c.snapshots;
}

update_vm_runtime_write-IsConsistent :
    (agent_id : String) (host : Host) (vm : VirtualMachine) (r w : Keyspace)
    → IsConsistent w
    → IsConsistent (update_vm_runtime_write agent_id host vm r w)
unfolding update_vm_runtime_write
update_vm_runtime_write-IsConsistent agent_id host vm r w c = record {
  hosts = Indexes-put w.hosts w.host c.hosts agent_id host;
  vms = Indexes-put _ _ (Indexes-remove_all w.vms w.vm c.vms _) vm.id vm;
  snapshots = c.snapshots;
}

Indexes-with_vm_removed :
    (agent_id : String) (ids : List String) (d : Dict Host)
    → Indexes ids d
    → Indexes ids (with_vm_removed agent_id d d)
unfolding with_vm_removed
Indexes-with_vm_removed agent_id ids d i id = elim (Option-cases (get agent_id d)) [
  | inl e ↦ rw (e, with_vm_removed) (i id)
  | inr (host, e) ↦
      rw (e, with_vm_removed)
        (elim (Bool-cases (ltb 0 host.vm_count)) [
          | inl h ↦
              rw (h, with_vm_removed)
                (i id ∙ put_same (record host { vm_count = host.vm_count - 1 }) host e)
          | inr h ↦ rw (h, with_vm_removed) (i id)
        ])
]
  where
    put_same :
        (new old : Host)
        → get agent_id d ≡ some old
        → is_some (get id d) ≡ is_some (get id (put agent_id new d))
    put_same new old e = elim (Bool-cases (agent_id == id)) [
      | inl h ↦ rw (get-put agent_id id new d, h, sym ((eq_iff agent_id id).0 h), e) refl
      | inr h ↦ rw (get-put agent_id id new d, h) refl
    ]

remove_vm_runtime_write-IsConsistent :
    (agent_id vm_id : String) (w : Keyspace)
    → IsConsistent w
    → IsConsistent (remove_vm_runtime_write agent_id vm_id w w)
unfolding remove_vm_runtime_write
remove_vm_runtime_write-IsConsistent agent_id vm_id w c = record {
  hosts = elim (Bool-cases (agent_id == "")) [
    | inl h ↦ rw h c.hosts
    | inr h ↦ rw h (Indexes-with_vm_removed agent_id w.hosts w.host c.hosts)
  ];
  vms = Indexes-remove w.vms w.vm c.vms vm_id;
  snapshots = Indexes-remove_all w.snapshots w.snapshot c.snapshots _;
}

reject_deleted-IsConsistent :
    (agent_id : String) (w : Keyspace)
    → IsConsistent w
    → IsConsistent (reject_deleted_agent_runtime_write agent_id w).1
unfolding reject_deleted_agent_runtime_write remove_agent
reject_deleted-IsConsistent agent_id w c = elim (Bool-cases (is_agent_deleted agent_id w)) [
  | inl h ↦ rw h (remove_agent_write-IsConsistent agent_id w w c)
  | inr h ↦ rw h c
]

-- The operations of the store, and the loss of a deleted agent's marker.
pub data Operation : Type 0 where
  save : String → Host → Dict VirtualMachine → Dict Snapshot → Bool → Operation
  update_vm : String → Host → VirtualMachine → Operation
  remove_vm : String → String → Operation
  replace_snapshots : String → Dict Snapshot → Operation
  remove_host : String → Operation
  expire : String → Operation

unfoldable pub run : Operation → Keyspace → Keyspace
run (Operation.save a host vms snapshots replace) w =
    (save_agent_runtime a host vms snapshots replace w).1
run (Operation.update_vm a host vm) w = (update_vm_runtime a host vm w).1
run (Operation.remove_vm a vm_id) w = (remove_vm_runtime a vm_id w).1
run (Operation.replace_snapshots a snapshots) w = (replace_agent_snapshots a snapshots w).1
run (Operation.remove_host a) w = remove_agent a w
run (Operation.expire a) w = expire_deleted a w

unfoldable pub run_all : List Operation → Keyspace → Keyspace
run_all [] w = w
run_all (o ∷ older) w = run o (run_all older w)

unfoldable pub no_runtime : Keyspace
no_runtime = record {
  hosts = [];
  host = [];
  vms = [];
  vm = [];
  agent_vms = [];
  snapshots = [];
  snapshot = [];
  vm_snapshots = [];
  deleted = [];
}

run-IsConsistent : (o : Operation) (w : Keyspace) → IsConsistent w → IsConsistent (run o w)
unfolding run save_agent_runtime update_vm_runtime remove_vm_runtime replace_agent_snapshots
    remove_agent expire_deleted
run-IsConsistent (Operation.save a host vms snapshots replace) w c =
    elim (Bool-cases (is_agent_deleted a w)) [
      | inl h ↦ rw (h, run) c
      | inr h ↦
          rw (h, run)
            (reject_deleted-IsConsistent a _
              (save_agent_runtime_write-IsConsistent a host vms snapshots replace w w c))
    ]
run-IsConsistent (Operation.update_vm a host vm) w c = elim (Bool-cases (is_agent_deleted a w)) [
  | inl h ↦ rw (h, run) c
  | inr h ↦
      rw (h, run)
        (reject_deleted-IsConsistent a _ (update_vm_runtime_write-IsConsistent a host vm w w c))
]
run-IsConsistent (Operation.remove_vm a vm_id) w c =
    reject_deleted-IsConsistent a _ (remove_vm_runtime_write-IsConsistent a vm_id w c)
run-IsConsistent (Operation.replace_snapshots a snapshots) w c =
    elim (Bool-cases (is_agent_deleted a w)) [
      | inl h ↦ rw (h, run) c
      | inr h ↦ rw (h, run) (replace_agent_snapshots_write-IsConsistent a snapshots w w c)
    ]
run-IsConsistent (Operation.remove_host a) w c = remove_agent_write-IsConsistent a w w c
run-IsConsistent (Operation.expire a) w c = record {
  hosts = c.hosts;
  vms = c.vms;
  snapshots = c.snapshots;
}

-- From the empty cache, after any operations in any order, the sets of hosts, machines and snapshots
-- list exactly the identifiers whose object is stored.
pub run_all-IsConsistent :
    (operations : List Operation) → IsConsistent (run_all operations no_runtime)
unfolding run_all no_runtime get
run_all-IsConsistent [] = record { hosts = λ id. refl; vms = λ id. refl; snapshots = λ id. refl }
run_all-IsConsistent (o ∷ older) =
    run-IsConsistent o (run_all older no_runtime) (run_all-IsConsistent older)
