-- ===== src/Tasks/Worker/Laws.antt =====
-- Claiming and running a refresh task: refresh_worker.go.
use kvm_manager.Base.{
  ℕ, ◌+◌, String, ◌≡◌, refl, ◌∙◌, ap, Bool, true, false, ◌&&◌, Option, none, some, List, [], ◌∷◌,
  arith, ◌==◌, not, eqb, ltb, Bool-cases, inl, inr, any, if◌then◌else◌,
}
use kvm_manager.Sql.Rows.{
  count, find_where-update_where, find_where-update_where_other, find_where_lem,
  any-update_where_none,
}
use kvm_manager.Tasks.{
  RefreshProgress, Task, has_task_id, is_claimable, claimed, claim_task, get_task, with_progress,
  update_task_progress, finished, finish_task,
}
use kvm_manager.Tasks.Worker.{
  Service, RefreshError, SyncAgentResult, Surroundings, broadcast, record_results, announced,
  counted, reported, result_progress, final_progress, is_failed_refresh, finish_refresh,
  join_refresh_errors, refresh_agents, refresh_listed, listed_progress, started_progress,
  run_refresh_task,
}

-- Results whose turns come while the worker's context lasts.
abbrev pub uninterrupted : List SyncAgentResult → List (Option RefreshError × SyncAgentResult)
uninterrupted [] = []
uninterrupted (r ∷ rest) = (none, r) ∷ uninterrupted rest

abbrev pub succeeded : SyncAgentResult → Bool
succeeded r = r.error == ""

abbrev total : List SyncAgentResult → RefreshProgress → RefreshProgress
total [] p = p
total (r ∷ rest) p = total rest (result_progress r p)

result_lem :
    (r : SyncAgentResult) (p : RefreshProgress)
    → let p' = result_progress r p in
      (p'.total_agents ≡ p.total_agents)
      × (p'.synced_agents ≡ p.synced_agents + (if succeeded r then 1 else 0))
      × (p'.failed_agents ≡ p.failed_agents + (if succeeded r then 0 else 1))
unfolding result_progress reported counted announced
result_lem r p = elim (Bool-cases (r.error == "")) [
  | inl e ↦ rw e (refl, refl, omega arith)
  | inr e ↦ rw e (refl, omega arith, refl)
]

total_lem :
    (results : List SyncAgentResult) (p : RefreshProgress)
    → let p' = total results p in
      (p'.total_agents ≡ p.total_agents)
      × (p'.synced_agents ≡ p.synced_agents + count succeeded results)
      × (p'.failed_agents ≡ p.failed_agents + count (λ r. not (succeeded r)) results)
total_lem [] p = (refl, omega arith, omega arith)
total_lem (r ∷ rest) p =
    let (t, n, f) = result_lem r p in
    let (t', n', f') = total_lem rest (result_progress r p) in
    (t' ∙ t, ground (arith, n, n'), ground (arith, f, f'))

-- The counts of a whole run, from the zero of its start.
run_total :
    (started_at : String) (agents : ℕ) (results : List SyncAgentResult)
    → let p = total results (listed_progress started_at agents) in
      (p.total_agents ≡ agents)
      × (p.synced_agents ≡ count succeeded results)
      × (p.failed_agents ≡ count (λ r. not (succeeded r)) results)
unfolding listed_progress started_progress
run_total started_at agents results =
    let (t, n, f) = total_lem results (listed_progress started_at agents) in
    (t, ground (arith, n), ground (arith, f))

update_lem :
    (now : ℕ) (id : String) (p : RefreshProgress) (tasks : List Task) (t : Task)
    → get_task id tasks ≡ some t
    → get_task id (update_task_progress now id p "" tasks) ≡ some (with_progress now p "" t)
unfolding get_task update_task_progress has_task_id with_progress
update_lem now id p tasks t h =
    find_where-update_where (has_task_id id) (with_progress now p "") (λ a. refl) tasks t h

finish_lem :
    (now : ℕ) (id status : String) (p : RefreshProgress) (message : String) (tasks : List Task)
    (t : Task)
    → get_task id tasks ≡ some t
    → get_task id (finish_task now id status p message tasks)
      ≡ some (finished now status p message t)
unfolding get_task finish_task has_task_id finished
finish_lem now id status p message tasks t h =
    find_where-update_where (has_task_id id) (finished now status p message) (λ a. refl) tasks t h

-- The loop reaches its end with the counts of all results, and the task is still there.
through :
    (now : ℕ) (finished_at id : String) (results : List SyncAgentResult) (p : RefreshProgress)
    (s : Service) (t : Task)
    → get_task id s.tasks ≡ some t
    → let run = record_results now finished_at id (uninterrupted results) p s in
      (run.0 ≡ false)
      × (run.1 ≡ total results p)
      × ((t' : Task) × (get_task id run.2.tasks ≡ some t'))
unfolding record_results broadcast
through now finished_at id [] p s t h = (refl, refl, (t, h))
through now finished_at id (r ∷ rest) p s t h =
    through now finished_at id rest (result_progress r p) _ _
      (update_lem now id (result_progress r p) _ _ (update_lem now id (announced r p) s.tasks t h))

claim_lem :
    (now : ℕ) (id : String) (tasks : List Task) (t : Task)
    → get_task id tasks ≡ some t
    → (t.status == "queued") ≡ true
    → ((claim_task now id tasks).0 ≡ true)
      × (get_task id (claim_task now id tasks).1 ≡ some (claimed now t))
unfolding claim_task get_task is_claimable claimed has_task_id
claim_lem now id tasks t h queued =
    let (same, found) = find_where_lem (has_task_id id) (is_claimable id) tasks t h in
    let claimable : is_claimable id t ≡ true = ground (arith, same, queued) in
    (
      found claimable,
      find_where-update_where_other (has_task_id id) (is_claimable id) (claimed now) (λ a. refl)
            tasks t h
          ∙ rw claimable refl,
    )

finish_refresh_lem :
    (now : ℕ) (id finished_at : String) (p : RefreshProgress) (s : Service) (t : Task)
    → get_task id s.tasks ≡ some t
    → (t' : Task) × (get_task id (finish_refresh now finished_at id false p s).tasks ≡ some t')
      × (t'.status ≡ (if is_failed_refresh p then "failed" else "completed"))
      × (t'.payload ≡ final_progress finished_at p)
unfolding finish_refresh broadcast finished is_failed_refresh final_progress reported
finish_refresh_lem now id finished_at p s t h =
    let p' = final_progress finished_at p in
    let errors = join_refresh_errors p'.agent_results in
    elim (Bool-cases (is_failed_refresh p)) [
      | inl e ↦ (
        finished now "failed" p' errors t,
        rw (e, finish_refresh) (finish_lem now id "failed" p' errors s.tasks t h),
        rw e refl,
        refl,
      )
      | inr e ↦ (
        finished now "completed" p' "" t,
        rw (e, finish_refresh) (finish_lem now id "completed" p' "" s.tasks t h),
        rw e refl,
        refl,
      )
    ]

-- The task that a run over some results leaves: its state, and the counts of its progress.
pub record IsFinished (id : String) (agents : ℕ) (results : List SyncAgentResult)
    (tasks : List Task) : Type 0 where
  pub row : Task
  pub found : get_task id tasks ≡ some row
  pub status : row.status ≡ (
      if ltb 0 agents
        && eqb (count succeeded results) 0
        && ltb 0 (count (λ r. not (succeeded r)) results)
      then "failed"
      else "completed")
  pub total_agents : row.payload.total_agents ≡ agents
  pub synced_agents : row.payload.synced_agents ≡ count succeeded results
  pub failed_agents : row.payload.failed_agents ≡ count (λ r. not (succeeded r)) results

-- What the worker meets when nothing cuts the run short.
abbrev pub calm : String → String → ℕ → List SyncAgentResult → Surroundings
calm started_at finished_at agents results = record {
  started_at = started_at;
  finished_at = finished_at;
  agent_count = some agents;
  list_error = RefreshError.canceled;
  results = uninterrupted results;
  ended = false;
}

-- A run of a queued task that nothing cuts short, over any results: the task ends, with the number of
-- listed agents, each result counted once as synchronised or failed, and it has failed exactly when
-- there are agents, some result is an error, and none is not.
pub run_refresh_task_lem :
    (now : ℕ) (id started_at finished_at : String) (agents : ℕ) (results : List SyncAgentResult)
    (s : Service) (t : Task)
    → get_task id s.tasks ≡ some t
    → (t.status == "queued") ≡ true
    → IsFinished id agents results
        (run_refresh_task now id (calm started_at finished_at agents results) s).tasks
unfolding run_refresh_task refresh_agents refresh_listed broadcast listed_progress started_progress
    final_progress reported is_failed_refresh
run_refresh_task_lem now id started_at finished_at agents results s t h queued =
    let p = listed_progress started_at agents in
    let (claims, found) = claim_lem now id s.tasks t h queued in
    let s₁ : Service = record s { tasks = (claim_task now id s.tasks).1 } in
    let s₂ =
      broadcast "sync.started" (record s₁ { tasks = update_task_progress now id p "" s₁.tasks }) in
    let run = record_results now finished_at id (uninterrupted results) p s₂ in
    let (goes_on, counts, (t₂, found₂)) =
      through now finished_at id results p s₂ _ (update_lem now id p s₁.tasks _ found) in
    let (t₃, found₃, status, payload) =
      finish_refresh_lem now id finished_at run.1 run.2 t₂ found₂ in
    let (agents_kept, synced, failed) = run_total started_at agents results in
    record {
      row = t₃;
      found = rw (claims, run_refresh_task) (rw (goes_on, refresh_listed) found₃);
      status =
          status
          ∙ ap (λ q. if is_failed_refresh q then "failed" else "completed") counts
          ∙ rw (agents_kept, synced, failed) refl;
      total_agents =
          ap (λ q. q.total_agents) payload ∙ ap (λ q. q.total_agents) counts ∙ agents_kept;
      synced_agents = ap (λ q. q.synced_agents) payload ∙ ap (λ q. q.synced_agents) counts ∙ synced;
      failed_agents = ap (λ q. q.failed_agents) payload ∙ ap (λ q. q.failed_agents) counts ∙ failed;
    }

-- Several claims of one task, one after another, each with its time.
abbrev pub claims : String → List ℕ → List Task → List Bool
claims id [] tasks = []
claims id (now ∷ later) tasks =
    (claim_task now id tasks).0 ∷ claims id later (claim_task now id tasks).1

abbrev pub is_true : Bool → Bool
is_true b = b

claimed_none :
    (now : ℕ) (id : String) (tasks : List Task)
    → any (is_claimable id) (claim_task now id tasks).1 ≡ false
unfolding claim_task is_claimable claimed
claimed_none now id tasks =
    any-update_where_none (is_claimable id) (is_claimable id) (claimed now) (λ a h. ground arith)
      (λ a h. h) tasks

unclaimable :
    (id : String) (times : List ℕ) (tasks : List Task)
    → any (is_claimable id) tasks ≡ false
    → count is_true (claims id times tasks) ≡ 0
unfolding claim_task
unclaimable id [] tasks h = refl
unclaimable id (now ∷ later) tasks h =
    rw (h, count) (unclaimable id later (claim_task now id tasks).1 (claimed_none now id tasks))

-- However often a task is claimed, one claim succeeds if the task is queued, and none if it is not.
pub claim_task_once :
    (id : String) (now : ℕ) (later : List ℕ) (tasks : List Task)
    → count is_true (claims id (now ∷ later) tasks) ≡ (if any (is_claimable id) tasks then 1 else 0)
unfolding claim_task
claim_task_once id now later tasks = elim (Bool-cases (any (is_claimable id) tasks)) [
  | inl h ↦
      rw (h, unclaimable id later (claim_task now id tasks).1 (claimed_none now id tasks)) refl
  | inr h ↦
      rw (h, unclaimable id later (claim_task now id tasks).1 (claimed_none now id tasks)) refl
]
