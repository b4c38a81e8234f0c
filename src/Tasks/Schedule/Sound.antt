-- ===== src/Tasks/Schedule/Sound.antt =====
-- Tasks and the queue, through the statements of scheduler.go, of the handlers and of the worker.
use kvm_manager.Base.{
  ℕ, ◌≤◌, String, ◌≡◌, refl, sym, subst, Bool, true, false, List, [], ◌∷◌, ◌++◌, ◌⊎◌, arith, ◌==◌,
  eq_iff, eq_refl, not, Bool-cases, inl, inr, any, ltb, length, member, member-append,
  if◌then◌else◌,
}
use kvm_manager.Sql.Rows.{count, count-append, count_none, any-append}
use kvm_manager.Tasks.{
  RefreshProgress, Task, has_task_id, new_task, create_task, is_active, has_active_task, claim_task,
  finished, finish_task, new_queued_refresh_progress, refresh_all_task_type, refresh_fast_task_type,
}
use kvm_manager.Tasks.Worker.{
  Service, Surroundings, broadcast, enqueue_refresh_task, run_refresh_task, work,
}
use kvm_manager.Tasks.Schedule.{
  queue_new_task, enqueue_scheduled, enqueue_scheduled_refresh, enqueue_scheduled_deep_refresh,
  handle_refresh,
}
use kvm_manager.Tasks.Schedule.Laws.{
  is_lost, Calms-refresh_agents, Calms-claim_task, claimed_not_lost, Calms-finish_task,
}

-- At most one task of each type is queued or running, and every queued task stands in the queue.
pub record IsSound (s : Service) : Type 0 where
  pub single : (type : String) → count (is_active type) s.tasks ≤ 1
  pub waiting : any (is_lost s.refresh_queue) s.tasks ≡ false

-- More identifiers in the queue lose no task.
lost_mono :
    (queue queue' : List String) (tasks : List Task)
    → ((id : String) → member id queue ≡ true → member id queue' ≡ true)
    → any (is_lost queue) tasks ≡ false
    → any (is_lost queue') tasks ≡ false
unfolding is_lost
lost_mono queue queue' [] more h = refl
lost_mono queue queue' (t ∷ tasks) more h = ground (arith, more t.id, lost_mono queue queue' tasks)

finished_row :
    (now : ℕ) (id : String) (p : RefreshProgress) (message : String) (rest : List String) (t : Task)
    → is_lost (id ∷ rest) t ≡ false
    → is_lost rest (if has_task_id id t then finished now "failed" p message t else t) ≡ false
unfolding finished has_task_id is_lost
finished_row now id p message rest t h = elim (Bool-cases (has_task_id id t)) [
  | inl e ↦ rw e refl
  | inr e ↦ rw (e, is_lost) (ground (arith, eq_iff t.id id, eq_iff id t.id))
]

finished_not_lost :
    (now : ℕ) (id : String) (p : RefreshProgress) (message : String) (rest : List String)
    (tasks : List Task)
    → any (is_lost (id ∷ rest)) tasks ≡ false
    → any (is_lost rest) (finish_task now id "failed" p message tasks) ≡ false
unfolding finish_task
finished_not_lost now id p message rest [] h = refl
finished_not_lost now id p message rest (t ∷ tasks) h =
    ground
      (arith, finished_not_lost now id p message rest tasks, finished_row now id p message rest t)

abbrev queued_task : ℕ → String → String → String → Task
queued_task now id type created_by =
    new_task now id type "queued" "runtime" "" new_queued_refresh_progress created_by ""

-- A new queued task of a type that has no active one.
created_single :
    (now : ℕ) (id type created_by : String) (tasks : List Task)
    → ((type' : String) → count (is_active type') tasks ≤ 1)
    → has_active_task type tasks ≡ false
    → (type' : String)
    → count (is_active type') (
        create_task now id type "queued" "runtime" "" new_queued_refresh_progress created_by ""
          tasks)
      ≤ 1
unfolding create_task new_task has_active_task is_active
created_single now id type created_by tasks single none_active type' =
    let row = queued_task now id type created_by in
    elim (Bool-cases (type == type')) [
      | inl e ↦
          (let none_active' : any (is_active type') tasks ≡ false =
              subst (λ t. any (is_active t) tasks ≡ false) ((eq_iff type type').0 e) none_active in
            ground (
              arith,
              count-append (is_active type') tasks (row ∷ []),
              count_none (is_active type') tasks,
            ))
      | inr e ↦ ground (arith, single type', count-append (is_active type') tasks (row ∷ []))
    ]

created_not_lost :
    (now : ℕ) (id type created_by : String) (queue : List String) (tasks : List Task)
    → member id queue ≡ true
    → any (is_lost queue) tasks ≡ false
    → any (is_lost queue) (
        create_task now id type "queued" "runtime" "" new_queued_refresh_progress created_by ""
          tasks)
      ≡ false
unfolding create_task new_task is_lost
created_not_lost now id type created_by queue tasks here h =
    ground (arith, any-append (is_lost queue) tasks (queued_task now id type created_by ∷ []))

queue_new_task-IsSound :
    (now : ℕ) (id type created_by busy : String) (s : Service)
    → IsSound s
    → has_active_task type s.tasks ≡ false
    → IsSound (queue_new_task now id type created_by busy s).1
unfolding queue_new_task enqueue_refresh_task broadcast
queue_new_task-IsSound now id type created_by busy s sound none_active =
    let row = queued_task now id type created_by in
    let single = created_single now id type created_by s.tasks sound.single none_active in
    elim (Bool-cases (ltb (length s.refresh_queue) 32)) [
      | inl room ↦
          rw (room, queue_new_task)
            (record {
              single = single;
              waiting =
                  created_not_lost now id type created_by (s.refresh_queue ++ id ∷ []) s.tasks
                    (ground (arith, member-append id s.refresh_queue (id ∷ []), eq_refl id))
                    (lost_mono s.refresh_queue _ s.tasks
                      (λ j h. ground (arith, member-append j s.refresh_queue (id ∷ [])))
                      sound.waiting);
            })
      | inr full ↦
          rw (full, queue_new_task)
            (let created =
                create_task now id type "queued" "runtime" "" new_queued_refresh_progress created_by
                  "" s.tasks in
              let calms =
                Calms-finish_task now id "failed" new_queued_refresh_progress busy created refl
                  refl in
              record {
                single = λ type'. ground (arith, calms.active type', single type');
                waiting =
                    finished_not_lost now id new_queued_refresh_progress busy s.refresh_queue
                      created
                      (created_not_lost now id type created_by (id ∷ s.refresh_queue) s.tasks
                        (ground (arith, eq_refl id))
                        (lost_mono s.refresh_queue (id ∷ s.refresh_queue) s.tasks
                          (λ j h. ground (arith, h)) sound.waiting));
              })
    ]

enqueue_scheduled-IsSound :
    (type : String) (now : ℕ) (id : String) (has_agents : Bool) (s : Service)
    → (type ≡ refresh_all_task_type) ⊎ (type ≡ refresh_fast_task_type)
    → IsSound s
    → IsSound (enqueue_scheduled type now id has_agents s)
unfolding enqueue_scheduled
enqueue_scheduled-IsSound type now id has_agents s kind sound =
    elim (Bool-cases (has_active_task refresh_all_task_type s.tasks)) [
      | inl e ↦ rw e sound
      | inr e ↦ rw e (elim (Bool-cases (has_active_task refresh_fast_task_type s.tasks)) [
        | inl f ↦ rw f sound
        | inr f ↦ rw f (elim (Bool-cases (not has_agents)) [
          | inl g ↦ rw g sound
          | inr g ↦ rw g (
              queue_new_task-IsSound now id type "" "刷新队列已满" s sound (elim kind [
                | inl k ↦ subst (λ t. has_active_task t s.tasks ≡ false) (sym k) e
                | inr k ↦ subst (λ t. has_active_task t s.tasks ≡ false) (sym k) f
              ]))
        ])
      ])
    ]

handle_refresh-IsSound :
    (now : ℕ) (id user_id : String) (permitted : Bool) (s : Service)
    → IsSound s
    → IsSound (handle_refresh now id user_id permitted s).1
unfolding handle_refresh
handle_refresh-IsSound now id user_id false s sound = sound
handle_refresh-IsSound now id user_id true s sound =
    elim (Bool-cases (has_active_task refresh_all_task_type s.tasks)) [
      | inl e ↦ rw e sound
      | inr e ↦
          (let busy : String = "刷新队列繁忙，请稍后重试" in
            let after =
              queue_new_task-IsSound now id refresh_all_task_type user_id busy s sound e in
            elim (Bool-cases (queue_new_task now id refresh_all_task_type user_id busy s).0) [
              | inl f ↦ rw (e, f, handle_refresh) after
              | inr f ↦ rw (e, f, handle_refresh) after
            ])
    ]

run_refresh_task-IsSound :
    (now : ℕ) (id : String) (e : Surroundings) (s : Service)
    → ((type : String) → count (is_active type) s.tasks ≤ 1)
    → any (is_lost (id ∷ s.refresh_queue)) s.tasks ≡ false
    → IsSound (run_refresh_task now id e s)
unfolding run_refresh_task
run_refresh_task-IsSound now id e s single waiting =
    let s' : Service = record s { tasks = (claim_task now id s.tasks).1 } in
    let single' : (type : String) → count (is_active type) s'.tasks ≤ 1 =
      λ type. ground (arith, Calms-claim_task now id s.tasks type, single type) in
    let waiting' = claimed_not_lost now id s.refresh_queue s.tasks waiting in
    let (calms, same) = Calms-refresh_agents now id e s' in
    elim (Bool-cases (claim_task now id s.tasks).0) [
      | inl h ↦
          rw (h, run_refresh_task)
            (record {
              single = λ type. ground (arith, calms.active type, single' type);
              waiting =
                  calms.lost _ (subst (λ q. any (is_lost q) s'.tasks ≡ false) (sym same) waiting');
            })
      | inr h ↦ rw (h, run_refresh_task) (record { single = single'; waiting = waiting' })
    ]

work-IsSound : (now : ℕ) (e : Surroundings) (s : Service) → IsSound s → IsSound (work now e s)
unfolding work
work-IsSound now e s sound =
    elim s.refresh_queue
        as (λ q.
          any (is_lost q) s.tasks ≡ false
          → IsSound (elim q [
            | [] ↦ s
            | id ∷ rest ↦ run_refresh_task now id e (record s { refresh_queue = rest })
          ])) [
            | [] ↦ λ _. sound
            | id ∷ rest ↦ λ h.
                run_refresh_task-IsSound now id e (record s { refresh_queue = rest }) sound.single h
          ]
      sound.waiting

-- What may happen to the service: a schedule's tick, a request, a turn of the worker.
pub data Step : Service → Service → Type 0 where
  refresh :
      (now : ℕ) (id : String) (has_agents : Bool) (s : Service)
      → Step s (enqueue_scheduled_refresh now id has_agents s)
  deep_refresh :
      (now : ℕ) (id : String) (has_agents : Bool) (s : Service)
      → Step s (enqueue_scheduled_deep_refresh now id has_agents s)
  request :
      (now : ℕ) (id user_id : String) (permitted : Bool) (s : Service)
      → Step s (handle_refresh now id user_id permitted s).1
  turn : (now : ℕ) (e : Surroundings) (s : Service) → Step s (work now e s)

-- Several steps, one after another.
pub data Steps : Service → Service → Type 0 where
  none_yet : (s : Service) → Steps s s
  then_one : (s t u : Service) → Steps s t → Step t u → Steps s u

Step-IsSound : (s t : Service) → Step s t → IsSound s → IsSound t
unfolding enqueue_scheduled_refresh enqueue_scheduled_deep_refresh
Step-IsSound _ _ (Step.refresh now id has_agents s) sound =
    enqueue_scheduled-IsSound _ now id has_agents s (inr refl) sound
Step-IsSound _ _ (Step.deep_refresh now id has_agents s) sound =
    enqueue_scheduled-IsSound _ now id has_agents s (inl refl) sound
Step-IsSound _ _ (Step.request now id user_id permitted s) sound =
    handle_refresh-IsSound now id user_id permitted s sound
Step-IsSound _ _ (Step.turn now e s) sound = work-IsSound now e s sound

-- Ticks of both schedules, requests and turns of the worker, each run as a whole and in any order and
-- number, keep at most one task of each type queued or running and every queued task in the queue,
-- whether or not the queue is full.
pub Steps-IsSound : (s t : Service) → Steps s t → IsSound s → IsSound t
Steps-IsSound _ _ (Steps.none_yet s) sound = sound
Steps-IsSound _ _ (Steps.then_one s m t before last) sound =
    Step-IsSound m t last (Steps-IsSound s m before sound)
