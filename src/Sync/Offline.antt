-- ===== src/Sync/Offline.antt =====
-- Runs of recordAgentSyncFailure and of successful synchronisations of one agent.
use kvm_manager.Base.{
  ℕ, suc, ◌+◌, ◌≤◌, String, ◌≡◌, refl, sym, subst, ◌∙◌, Bool, true, false, ◌&&◌, Option, some, List,
  [], ◌∷◌, arith, ◌==◌, eq_iff, eq_refl, Bool-cases, inl, inr, leb, ltb, all, take, length,
  if◌then◌else◌,
}
use kvm_manager.Base.Int.{pos, leb_ℤ}
use kvm_manager.Sql.Rows.{find_where-update_where, find_where_lem}
use kvm_manager.Agents.{
  Agent, has_id, get_agent, with_sync_started, mark_agent_sync_started, with_success,
  update_agent_sync_success, with_failure, update_agent_sync_failure,
}
use kvm_manager.Alert.{Alert, NotificationChannel, Store}
use kvm_manager.Alert.Table.Activity.{has_active, has_active-upsert}
use kvm_manager.Alert.Evaluate.{
  Host, VirtualMachine, Service, evaluate_runtime_alerts, resolve_active_alerts_by_source,
}
use kvm_manager.Alert.Evaluate.Streak.{run_length, leb-run_length}
use kvm_manager.Sync.{
  State, Settings, Answer, offline_title, with_store, notify, record_agent_sync_failure,
  finish_sync, sync_with_token, sync_agent,
}
use kvm_manager.Sync.Quiet.{has_active-notify, has_active-resolve_by_source}

abbrev pub is_failure : ℕ × Answer → Bool
is_failure (now, Answer.failure message) = true
is_failure (now, Answer.success version capabilities host vms) = false

-- The agent's synchronisations, latest first, each with its time.
unfoldable pub sync_all :
    (NotificationChannel → String → Alert → Option String)
    → Settings
    → String
    → List (ℕ × Answer)
    → State
    → State
sync_all send settings id [] s = s
sync_all send settings id ((now, answer) ∷ older) s =
    sync_agent send settings now id answer (sync_all send settings id older s)

started_lem :
    (now : ℕ) (id : String) (agents : List Agent) (a : Agent)
    → get_agent id agents ≡ some a
    → get_agent id (mark_agent_sync_started now id agents) ≡ some (with_sync_started now a)
unfolding get_agent mark_agent_sync_started has_id with_sync_started
started_lem now id agents a h =
    find_where-update_where (has_id id) (with_sync_started now) (λ b. refl) agents a h

success_lem :
    (now : ℕ) (id version capabilities : String) (agents : List Agent) (a : Agent)
    → get_agent id agents ≡ some a
    → get_agent id (update_agent_sync_success now id version capabilities agents)
      ≡ some (with_success now version capabilities a)
unfolding get_agent update_agent_sync_success has_id with_success
success_lem now id version capabilities agents a h =
    find_where-update_where (has_id id) (with_success now version capabilities) (λ b. refl) agents a
      h

failure_lem :
    (now : ℕ) (id message : String) (limit : ℕ) (agents : List Agent) (a : Agent)
    → 1 ≤ limit
    → get_agent id agents ≡ some a
    → get_agent id (update_agent_sync_failure now id message (pos limit) agents)
      ≡ some (with_failure now message limit a)
unfolding get_agent update_agent_sync_failure has_id with_failure
failure_lem now id message limit agents a positive h =
    let no_default : leb_ℤ (pos limit) (pos 0) ≡ false = ground arith in
    rw no_default
      (find_where-update_where (has_id id) (with_failure now message limit) (λ b. refl) agents a h)

agent_id_lem :
    (id : String) (agents : List Agent) (a : Agent) → get_agent id agents ≡ some a → a.id ≡ id
unfolding get_agent has_id
agent_id_lem id agents a h =
    (eq_iff a.id id).0 (find_where_lem (has_id id) (has_id id) agents a h).0

-- The agent's row and its alert after a run of failures.
record Tracks (id name : String) (limit run : ℕ) (s : State) : Type 0 where
  row : Agent
  found : get_agent id s.agents ≡ some row
  named : row.name ≡ name
  counted : row.failure_count ≡ run
  offline : (row.status == "offline") ≡ leb limit run
  raised : has_active "agent" id (offline_title name) s.service.store ≡ leb limit run

none_yet : (limit : ℕ) → 1 ≤ limit → false ≡ leb limit 0
none_yet limit positive = ground arith

offline_after_failure :
    (count run limit : ℕ) (status : String)
    → count ≡ run
    → (status == "offline") ≡ leb limit run
    → ((if leb limit (count + 1) then "offline" else status) == "offline") ≡ leb limit (suc run)
offline_after_failure count run limit status counted before =
    elim (Bool-cases (leb limit (count + 1))) [
      | inl e ↦ rw e (ground (arith, counted, e))
      | inr e ↦ rw e (ground (arith, counted, before, e))
    ]

module _ (send : NotificationChannel → String → Alert → Option String) (settings : Settings)
    (positive : 1 ≤ settings.config.offline_failure_limit) (id name : String) where
  raised_after_failure :
      (now run : ℕ) (a : Agent) (message : String) (v : Service)
      → a.id ≡ id
      → a.name ≡ name
      → a.failure_count ≡ run
      → has_active "agent" id (offline_title name) v.store
        ≡ leb settings.config.offline_failure_limit run
      → has_active "agent" id
          (offline_title name)
          (record_agent_sync_failure send settings now a message
            (record { agents = []; service = v })).service.store
        ≡ leb settings.config.offline_failure_limit (suc run)
  unfolding record_agent_sync_failure with_store notify
  raised_after_failure now run a message v same named counted before =
      elim (Bool-cases (ltb (a.failure_count + 1) settings.config.offline_failure_limit)) [
        | inl e ↦ rw (e, record_agent_sync_failure) (ground (arith, before, counted, e))
        | inr e ↦
            rw (e, record_agent_sync_failure)
              (has_active-notify "agent" id (offline_title name) send settings.notifier now
                  settings.config settings.retry _
                ∙ has_active-upsert "agent" a.id (offline_title a.name) "agent" id
                    (offline_title name) now "critical" _ _ v.store
                ∙ rw (same, named)
                    (ground (arith, eq_refl id, eq_refl (offline_title name), counted, e)))
      ]

  resolved :
      (now : ℕ) (t : Store)
      → has_active "agent" id
          (offline_title name)
          (notify send settings now (resolve_active_alerts_by_source now "agent" id t))
        ≡ false
  unfolding notify
  resolved now t =
      has_active-notify "agent" id (offline_title name) send settings.notifier now settings.config
        settings.retry _
      ∙ has_active-resolve_by_source "agent" id (offline_title name) now t

  Tracks-failure :
      (now run : ℕ) (message : String) (s : State)
      → Tracks id name settings.config.offline_failure_limit run s
      → Tracks id name settings.config.offline_failure_limit
          (suc run)
          (sync_agent send settings now id (Answer.failure message) s)
  unfolding sync_agent sync_with_token record_agent_sync_failure with_failure with_sync_started
  Tracks-failure now run message s t =
      let a = t.row in
      let same = agent_id_lem id s.agents a t.found in
      let limit = settings.config.offline_failure_limit in
      rw (t.found, sync_agent)
        (record {
          row = with_failure now message limit (with_sync_started now a);
          found =
              subst
                (λ j.
                  get_agent id (
                    update_agent_sync_failure now j message (pos limit)
                      (mark_agent_sync_started now j s.agents))
                  ≡ some (with_failure now message limit (with_sync_started now a)))
                (sym same)
                (failure_lem now id message limit (mark_agent_sync_started now id s.agents)
                  (with_sync_started now a) positive (started_lem now id s.agents a t.found));
          named = t.named;
          counted = ground (arith, t.counted);
          offline = offline_after_failure a.failure_count run limit a.status t.counted t.offline;
          raised = raised_after_failure now run a message s.service same t.named t.counted t.raised;
        })

  Tracks-success :
      (now run : ℕ) (version capabilities : String) (host : Host) (vms : List VirtualMachine)
      (s : State)
      → Tracks id name settings.config.offline_failure_limit run s
      → Tracks id name settings.config.offline_failure_limit 0
          (sync_agent send settings now id (Answer.success version capabilities host vms) s)
  unfolding sync_agent sync_with_token finish_sync with_store with_success with_sync_started
  Tracks-success now run version capabilities host vms s t =
      let a = t.row in
      let same = agent_id_lem id s.agents a t.found in
      rw (t.found, sync_agent)
        (record {
          row = with_success now version capabilities (with_sync_started now a);
          found =
              subst
                (λ j.
                  get_agent id (
                    update_agent_sync_success now j version capabilities
                      (mark_agent_sync_started now j s.agents))
                  ≡ some (with_success now version capabilities (with_sync_started now a)))
                (sym same)
                (success_lem now id version capabilities (mark_agent_sync_started now id s.agents)
                  (with_sync_started now a) (started_lem now id s.agents a t.found));
          named = t.named;
          counted = refl;
          offline = none_yet settings.config.offline_failure_limit positive;
          raised =
              subst
                (λ j.
                  has_active "agent" id (offline_title name) (
                    notify send settings now (
                      resolve_active_alerts_by_source now "agent" j (
                        notify send settings now
                          (evaluate_runtime_alerts now settings.config a host vms
                            s.service).store)))
                  ≡ leb settings.config.offline_failure_limit 0)
                (sym same)
                (resolved now _ ∙ none_yet settings.config.offline_failure_limit positive);
        })

  Tracks-sync_all :
      (answers : List (ℕ × Answer)) (s : State)
      → Tracks id name settings.config.offline_failure_limit 0 s
      → Tracks id name settings.config.offline_failure_limit
          (run_length is_failure answers)
          (sync_all send settings id answers s)
  unfolding sync_all
  Tracks-sync_all [] s t = t
  Tracks-sync_all ((now, Answer.failure message) ∷ older) s t =
      Tracks-failure now _ message _ (Tracks-sync_all older s t)
  Tracks-sync_all ((now, Answer.success version capabilities host vms) ∷ older) s t =
      Tracks-success now _ version capabilities host vms _ (Tracks-sync_all older s t)

-- An agent that is registered, has not failed since its last success, is not offline and has no alert
-- that it is.
pub record IsHealthy (id name : String) (s : State) : Type 0 where
  pub row : Agent
  pub found : get_agent id s.agents ≡ some row
  pub named : row.name ≡ name
  pub counted : row.failure_count ≡ 0
  pub reachable : (row.status == "offline") ≡ false
  pub quiet : has_active "agent" id (offline_title name) s.service.store ≡ false

-- The agent's row says that it is offline, and the alert that it is stands, exactly if `failing`.
pub record IsMarked (failing : Bool) (id name : String) (s : State) : Type 0 where
  pub row : Agent
  pub found : get_agent id s.agents ≡ some row
  pub offline : (row.status == "offline") ≡ failing
  pub raised : has_active "agent" id (offline_title name) s.service.store ≡ failing

-- From a healthy start, whatever the agent's synchronisations give and whatever notifications do, the
-- agent's status is offline, and the alert that it is offline is active, exactly when there are at
-- least as many synchronisations as the limit, which is positive, and the last so many all failed.
pub sync_all_offline :
    (send : NotificationChannel → String → Alert → Option String) (settings : Settings)
    (id name : String) (answers : List (ℕ × Answer)) (s : State)
    → 1 ≤ settings.config.offline_failure_limit
    → IsHealthy id name s
    → let limit = settings.config.offline_failure_limit in
      IsMarked
        (leb limit (length answers) && all is_failure (take limit answers))
        id
        name
        (sync_all send settings id answers s)
sync_all_offline send settings id name answers s positive h =
    let limit = settings.config.offline_failure_limit in
    let t = Tracks-sync_all send settings positive id name answers s (record {
      row = h.row;
      found = h.found;
      named = h.named;
      counted = h.counted;
      offline = h.reachable ∙ none_yet limit positive;
      raised = h.quiet ∙ none_yet limit positive;
    }) in
    record {
      row = t.row;
      found = t.found;
      offline = t.offline ∙ leb-run_length is_failure limit answers;
      raised = t.raised ∙ leb-run_length is_failure limit answers;
    }
