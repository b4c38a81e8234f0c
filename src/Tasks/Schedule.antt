-- ===== src/Tasks/Schedule.antt =====
-- Who creates refresh tasks: the schedules of backend/internal/service/realtime/scheduler.go, and
-- handleRefresh of backend/api/router/events.go.
pub mod Laws
pub mod Sound
use kvm_manager.Base.{ℕ, String, Bool, true, false, ◌||◌, List, [], ◌∷◌, not, if◌then◌else◌}
use kvm_manager.Tasks.{
  Task, create_task, has_active_task, finish_task, new_queued_refresh_progress,
  refresh_all_task_type, refresh_fast_task_type,
}
use kvm_manager.Tasks.Worker.{Service, broadcast, enqueue_refresh_task}

-- A new queued task put into the queue; a task that does not fit is failed, with the given text.
unfoldable pub queue_new_task : ℕ → String → String → String → String → Service → Bool × Service
queue_new_task now id type created_by busy s =
    let created = record s {
      tasks =
          create_task now id type "queued" "runtime" "" new_queued_refresh_progress created_by ""
            s.tasks;
    } in
    let (ok, queued) = enqueue_refresh_task id created in
    if ok then (true, broadcast "sync.queued" queued) else (
      false,
      record queued {
        tasks = finish_task now id "failed" new_queued_refresh_progress busy queued.tasks;
      },
    )

-- The common part of both schedules.
unfoldable pub enqueue_scheduled : String → ℕ → String → Bool → Service → Service
enqueue_scheduled type now id has_registered_agents s =
    if has_active_task refresh_all_task_type s.tasks
    then s
    else if has_active_task refresh_fast_task_type s.tasks
    then s
    else if not has_registered_agents
    then s
    else (queue_new_task now id type "" "刷新队列已满" s).1

unfoldable pub enqueue_scheduled_refresh : ℕ → String → Bool → Service → Service
enqueue_scheduled_refresh = enqueue_scheduled refresh_fast_task_type

unfoldable pub enqueue_scheduled_deep_refresh : ℕ → String → Bool → Service → Service
enqueue_scheduled_deep_refresh = enqueue_scheduled refresh_all_task_type

-- The answer of handleRefresh: 403, 202 with the active task, 202 with a new one, 503.
pub data Response : Type 0 where
  forbidden : Response
  running : Response
  queued : Response
  busy : Response

-- The flag tells whether the user may manage agents; the audit's entry is left out.
unfoldable pub handle_refresh : ℕ → String → String → Bool → Service → Response × Service
handle_refresh now id user_id permitted s =
    if not permitted
    then (forbidden, s)
    else if has_active_task refresh_all_task_type s.tasks
    then (running, s)
    else (let (ok, s') = queue_new_task now id refresh_all_task_type user_id "刷新队列繁忙，请稍后重试" s in
        (if ok then (queued, s') else (busy, s')))
