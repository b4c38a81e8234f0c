-- ===== src/Tests/Refresh.antt =====
-- A queued refresh of two agents, one of which fails.
use kvm_manager.Base.{◌≡◌, refl, true, none, List, [], ◌∷◌, arith, any, if◌then◌else◌}
use kvm_manager.Sql.Rows.{count}
use kvm_manager.Tasks.{
  Task, new_queued_refresh_progress, refresh_fast_task_type, get_task, has_task_id, is_claimable,
}
use kvm_manager.Tasks.Worker.{Service, SyncAgentResult, run_refresh_task, work}
use kvm_manager.Tasks.Worker.Laws.{
  IsFinished, calm, claims, is_true, run_refresh_task_lem, claim_task_once,
}
use kvm_manager.Tasks.Schedule.{enqueue_scheduled_refresh}
use kvm_manager.Tasks.Schedule.Sound.{IsSound, Step, Steps, Steps-IsSound}

abbrev task : Task
task = record {
  id = "t1";
  type = refresh_fast_task_type;
  status = "queued";
  target_type = "runtime";
  target_id = "";
  payload = new_queued_refresh_progress;
  error_message = "";
  created_by = "";
  created_at = 0;
  updated_at = 0;
  finished_at = none;
}

abbrev results : List SyncAgentResult
results =
    record { id = "a1"; name = "h1"; error = "" }
    ∷ record { id = "a2"; name = "h2"; error = "timeout" }
    ∷ []

abbrev idle : Service
idle = record { tasks = []; refresh_queue = []; events = [] }

abbrev waiting : Service
waiting = record { tasks = task ∷ []; refresh_queue = "t1" ∷ []; events = [] }

run_refresh_task_lem_example :
    IsFinished "t1" 2 results (run_refresh_task 10 "t1" (calm "s" "f" 2 results) waiting).tasks
unfolding get_task has_task_id
run_refresh_task_lem_example = run_refresh_task_lem 10 "t1" "s" "f" 2 results waiting task refl refl

claim_task_once_example :
    count is_true (claims "t1" (1 ∷ 2 ∷ 3 ∷ []) (task ∷ []))
    ≡ (if any (is_claimable "t1") (task ∷ []) then 1 else 0)
claim_task_once_example = claim_task_once "t1" 1 (2 ∷ 3 ∷ []) (task ∷ [])

abbrev ticked : Service
ticked = enqueue_scheduled_refresh 5 "t1" true idle

idle-IsSound : IsSound idle
idle-IsSound = record { single = λ type. omega arith; waiting = refl }

steps : Steps idle (work 6 (calm "s" "f" 2 results) ticked)
steps =
    Steps.then_one idle ticked _
      (Steps.then_one idle idle ticked (Steps.none_yet idle) (Step.refresh 5 "t1" true idle))
      (Step.turn 6 (calm "s" "f" 2 results) ticked)

Steps-IsSound_example : IsSound (work 6 (calm "s" "f" 2 results) ticked)
Steps-IsSound_example =
    Steps-IsSound idle (work 6 (calm "s" "f" 2 results) ticked) steps idle-IsSound
