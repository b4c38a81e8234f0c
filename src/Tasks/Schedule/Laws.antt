-- ===== src/Tasks/Schedule/Laws.antt =====
-- What the statements on tasks and a run of the worker leave: no task becomes active or waits in vain.
use kvm_manager.Base.{
  ℕ, ◌≤◌, String, ◌≡◌, refl, ◌∙◌, Bool, true, false, ◌&&◌, Option, none, some, List, [], ◌∷◌, arith,
  ◌==◌, eq_iff, Bool-cases, Option-cases, inl, inr, any, member, if◌then◌else◌,
}
use kvm_manager.Sql.Rows.{count, any-update_where, any-update_where_absent, count-update_where}
use kvm_manager.Tasks.{
  RefreshProgress, Task, has_task_id, is_active, is_claimable, claimed, claim_task, with_progress,
  update_task_progress, finished, finish_task,
}
use kvm_manager.Tasks.Worker.{
  Service, RefreshError, SyncAgentResult, Surroundings, broadcast, record_results, announced,
  result_progress, finish_refresh, final_progress, is_failed_refresh, refresh_agents,
  refresh_listed, listed_progress,
}

-- A task that waits in vain: queued, but not in the queue.
unfoldable pub is_lost : List String → Task → Bool
is_lost queue t = t.status == "queued" && (if member t.id queue then false else true)

abbrev active : String → List Task → ℕ
active type = count (is_active type)

-- The rows change so that no task becomes active or lost.
pub record Calms (before after : List Task) : Type 0 where
  pub active : (type : String) → count (is_active type) after ≤ count (is_active type) before
  pub lost :
      (queue : List String) → any (is_lost queue) before ≡ false → any (is_lost queue) after ≡ false

pub Calms-refl : (tasks : List Task) → Calms tasks tasks
Calms-refl tasks = record { active = λ type. omega arith; lost = λ queue h. h }

Calms-trans : (a b c : List Task) → Calms a b → Calms b c → Calms a c
Calms-trans a b c f g = record {
  active = λ type. ground (arith, f.active type, g.active type);
  lost = λ queue h. g.lost queue (f.lost queue h);
}

Calms-update_task_progress :
    (now : ℕ) (id : String) (p : RefreshProgress) (message : String) (tasks : List Task)
    → Calms tasks (update_task_progress now id p message tasks)
unfolding update_task_progress with_progress is_active is_lost
Calms-update_task_progress now id p message tasks = record {
  active = λ type.
      count-update_where (has_task_id id) (is_active type) (with_progress now p message)
        (λ t _ h. h) tasks;
  lost = λ queue h.
      any-update_where (has_task_id id) (is_lost queue) (with_progress now p message) (λ t _. refl)
        tasks
      ∙ h;
}

pub Calms-finish_task :
    (now : ℕ) (id status : String) (p : RefreshProgress) (message : String) (tasks : List Task)
    → (status == "queued") ≡ false
    → (status == "running") ≡ false
    → Calms tasks (finish_task now id status p message tasks)
unfolding finish_task finished is_active is_lost
Calms-finish_task now id status p message tasks not_queued not_running = record {
  active = λ type.
      count-update_where (has_task_id id) (is_active type) (finished now status p message)
        (λ t _ h. ground arith) tasks;
  lost = λ queue h.
      any-update_where_absent (has_task_id id) (is_lost queue) (finished now status p message)
        (λ t. ground arith) tasks h;
}

pub Calms-claim_task :
    (now : ℕ) (id : String) (tasks : List Task) (type : String)
    → count (is_active type) (claim_task now id tasks).1 ≤ count (is_active type) tasks
unfolding claim_task claimed is_claimable is_active
Calms-claim_task now id tasks type =
    count-update_where (is_claimable id) (is_active type) (claimed now) (λ t h k. ground arith)
      tasks

-- Claiming the first task of the queue takes it out of the tasks that wait there.
claimed_row :
    (now : ℕ) (id : String) (rest : List String) (t : Task)
    → is_lost (id ∷ rest) t ≡ false
    → is_lost rest (if is_claimable id t then claimed now t else t) ≡ false
unfolding claimed is_claimable is_lost
claimed_row now id rest t h = elim (Bool-cases (is_claimable id t)) [
  | inl e ↦ rw e refl
  | inr e ↦ rw (e, is_lost) (ground (arith, eq_iff t.id id, eq_iff id t.id))
]

pub claimed_not_lost :
    (now : ℕ) (id : String) (rest : List String) (tasks : List Task)
    → any (is_lost (id ∷ rest)) tasks ≡ false
    → any (is_lost rest) (claim_task now id tasks).1 ≡ false
unfolding claim_task
claimed_not_lost now id rest [] h = refl
claimed_not_lost now id rest (t ∷ tasks) h =
    ground (arith, claimed_not_lost now id rest tasks, claimed_row now id rest t)

Calms-record_results :
    (now : ℕ) (finished_at id : String) (results : List (Option RefreshError × SyncAgentResult))
    (p : RefreshProgress) (s : Service)
    → let s' = (record_results now finished_at id results p s).2 in
      Calms s.tasks s'.tasks × (s'.refresh_queue ≡ s.refresh_queue)
unfolding record_results broadcast
Calms-record_results now finished_at id [] p s = (Calms-refl s.tasks, refl)
Calms-record_results now finished_at id ((some error, r) ∷ rest) p s =
    (Calms-finish_task now id "failed" _ _ s.tasks refl refl, refl)
Calms-record_results now finished_at id ((none, r) ∷ rest) p s =
    let tasks₁ = update_task_progress now id (announced r p) "" s.tasks in
    let tasks₂ = update_task_progress now id (result_progress r p) "" tasks₁ in
    let (calms, same) = Calms-record_results now finished_at id rest (result_progress r p) _ in
    (
      Calms-trans s.tasks tasks₁ _ (Calms-update_task_progress now id (announced r p) "" s.tasks) (
          Calms-trans tasks₁ tasks₂ _
            (Calms-update_task_progress now id (result_progress r p) "" tasks₁) calms),
      same,
    )

Calms-finish_refresh :
    (now : ℕ) (finished_at id : String) (ended : Bool) (p : RefreshProgress) (s : Service)
    → let s' = finish_refresh now finished_at id ended p s in
      Calms s.tasks s'.tasks × (s'.refresh_queue ≡ s.refresh_queue)
unfolding finish_refresh broadcast
Calms-finish_refresh now finished_at id true p s = (Calms-refl s.tasks, refl)
Calms-finish_refresh now finished_at id false p s =
    let p' = final_progress finished_at p in
    elim (Bool-cases (is_failed_refresh p')) [
      | inl e ↦ rw e (Calms-finish_task now id "failed" p' _ s.tasks refl refl, refl)
      | inr e ↦ rw e (Calms-finish_task now id "completed" p' _ s.tasks refl refl, refl)
    ]

Calms-refresh_listed :
    (now : ℕ) (id : String) (e : Surroundings) (count : ℕ) (s : Service)
    → let s' = refresh_listed now id e count s in
      Calms s.tasks s'.tasks × (s'.refresh_queue ≡ s.refresh_queue)
unfolding refresh_listed broadcast
Calms-refresh_listed now id e count s =
    let p = listed_progress e.started_at count in
    let s₁ =
      broadcast "sync.started" (record s { tasks = update_task_progress now id p "" s.tasks }) in
    let run = record_results now e.finished_at id e.results p s₁ in
    let begun = Calms-update_task_progress now id p "" s.tasks in
    let (calms, same) = Calms-record_results now e.finished_at id e.results p s₁ in
    elim (Bool-cases run.0) [
      | inl stopped ↦
          rw (stopped, refresh_listed) (Calms-trans s.tasks s₁.tasks _ begun calms, same)
      | inr through ↦
          (let (calms', same') = Calms-finish_refresh now e.finished_at id e.ended run.1 run.2 in
            rw (through, refresh_listed)
              (
                Calms-trans s.tasks s₁.tasks _ begun
                    (Calms-trans s₁.tasks run.2.tasks _ calms calms'),
                same' ∙ same,
              ))
    ]

pub Calms-refresh_agents :
    (now : ℕ) (id : String) (e : Surroundings) (s : Service)
    → let s' = refresh_agents now id e s in
      Calms s.tasks s'.tasks × (s'.refresh_queue ≡ s.refresh_queue)
unfolding refresh_agents broadcast
Calms-refresh_agents now id e s = elim (Option-cases e.agent_count) [
  | inl h ↦ rw (h, refresh_agents) (Calms-finish_task now id "failed" _ _ s.tasks refl refl, refl)
  | inr (count, h) ↦ rw (h, refresh_agents) (Calms-refresh_listed now id e count s)
]
