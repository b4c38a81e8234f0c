-- ===== src/Tasks/Worker.antt =====
-- The queue of refresh tasks and the worker that runs them:
-- backend/internal/service/realtime/refresh_worker.go. The results of syncAgents are the worker's
-- input, in the order in which the agents end.
pub mod Laws
use kvm_manager.Base.{
  ℕ, suc, ◌+◌, String, Bool, true, false, ◌&&◌, Option, none, some, List, [], ◌∷◌, ◌++◌, ◌==◌, not,
  eqb, ltb, length, if◌then◌else◌,
}
use kvm_manager.Text.{◌<>◌, decimal}
use kvm_manager.Tasks.{
  RefreshAgentResult, RefreshProgress, Task, claim_task, get_task, update_task_progress,
  finish_task, fail_running_tasks_by_type, list_queued_tasks_by_type, refresh_all_task_type,
  refresh_fast_task_type,
}

pub record Service : Type 0 where
  pub tasks : List Task
  pub refresh_queue : List String
  pub events : List String

pub record SyncAgentResult : Type 0 where
  pub id : String
  pub name : String
  pub error : String

unfoldable pub broadcast : String → Service → Service
broadcast event s = record s { events = s.events ++ event ∷ [] }

-- EnqueueRefreshTask: the queue holds 32 identifiers; false is the error that it is full.
unfoldable pub enqueue_refresh_task : String → Service → Bool × Service
enqueue_refresh_task id s =
    if ltb (length s.refresh_queue) 32
    then (true, record s { refresh_queue = s.refresh_queue ++ id ∷ [] })
    else (false, s)

-- Why a run ends early.
pub data RefreshError : Type 0 where
  canceled : RefreshError
  deadline_exceeded : RefreshError
  other : String → RefreshError

unfoldable pub refresh_task_error_message : RefreshError → String
refresh_task_error_message RefreshError.canceled = "刷新任务已取消"
refresh_task_error_message RefreshError.deadline_exceeded = "刷新任务超时"
refresh_task_error_message (RefreshError.other message) = message

unfoldable pub refresh_progress_message : RefreshProgress → String
refresh_progress_message p =
    if eqb p.total_agents 0
    then "暂无可同步的 Agent"
    else "刷新已完成 "
      <> decimal p.synced_agents
      <> "/"
      <> decimal p.total_agents
      <> "，异常 "
      <> decimal p.failed_agents

-- The parts of joinRefreshErrors, and strings.Join with "; ".
error_texts : List RefreshAgentResult → List String
error_texts [] = []
error_texts (r ∷ rest) =
    let texts = error_texts rest in
    if r.error == "" then texts else (r.name <> ": " <> r.error) ∷ texts

join : List String → String
join [] = ""
join (t ∷ []) = t
join (t ∷ u ∷ rest) = t <> "; " <> join (u ∷ rest)

unfoldable pub join_refresh_errors : List RefreshAgentResult → String
unfolding error_texts join
join_refresh_errors results = join (error_texts results)

-- The progress before a result is counted, and after.
unfoldable pub announced : SyncAgentResult → RefreshProgress → RefreshProgress
announced r p = record p { current_agent = r.name; message = "已同步 Agent " <> r.name }

unfoldable pub counted : SyncAgentResult → RefreshProgress → RefreshProgress
counted r p =
    if r.error == ""
    then record p {
      synced_agents = p.synced_agents + 1;
      agent_results =
          p.agent_results
          ++ record { id = r.id; name = r.name; status = "completed"; error = "" } ∷ [];
    }
    else record p {
      failed_agents = p.failed_agents + 1;
      agent_results =
          p.agent_results
          ++ record { id = r.id; name = r.name; status = "failed"; error = r.error } ∷ [];
    }

unfoldable pub reported : RefreshProgress → RefreshProgress
reported p = record p { message = refresh_progress_message p }

unfoldable pub result_progress : SyncAgentResult → RefreshProgress → RefreshProgress
result_progress r p = reported (counted r (announced r p))

-- The loop over the results. Each stands with the error of the worker's context, if it has ended
-- when the result's turn comes; the task is then failed, and the flag tells it.
unfoldable pub record_results :
    ℕ
    → String
    → String
    → List (Option RefreshError × SyncAgentResult)
    → RefreshProgress
    → Service
    → Bool × RefreshProgress × Service
record_results now finished_at id [] p s = (false, p, s)
record_results now finished_at id ((some error, r) ∷ rest) p s = (
  true,
  p,
  record s {
    tasks =
        finish_task now id "failed" (record p { message = "刷新任务已停止"; finished_at = finished_at })
          (refresh_task_error_message error) s.tasks;
  },
)
record_results now finished_at id ((none, r) ∷ rest) p s =
    let s₁ =
      broadcast "sync.progress"
        (record s { tasks = update_task_progress now id (announced r p) "" s.tasks }) in
    let s₂ =
      broadcast "sync.progress"
        (record s₁ { tasks = update_task_progress now id (result_progress r p) "" s₁.tasks }) in
    record_results now finished_at id rest (result_progress r p) s₂

unfoldable pub started_progress : String → RefreshProgress
started_progress started_at = record {
  total_agents = 0;
  synced_agents = 0;
  failed_agents = 0;
  current_agent = "";
  message = "";
  started_at = started_at;
  finished_at = "";
  agent_results = [];
}

unfoldable pub is_failed_refresh : RefreshProgress → Bool
is_failed_refresh p = ltb 0 p.total_agents && eqb p.synced_agents 0 && ltb 0 p.failed_agents

unfoldable pub final_progress : String → RefreshProgress → RefreshProgress
final_progress finished_at p = reported (record p { current_agent = ""; finished_at = finished_at })

-- The end of a run; a context that has ended makes the last statement fail.
unfoldable pub finish_refresh : ℕ → String → String → Bool → RefreshProgress → Service → Service
finish_refresh now finished_at id ended p s =
    let p' = final_progress finished_at p in
    let tasks =
      if is_failed_refresh p'
      then finish_task now id "failed" p' (join_refresh_errors p'.agent_results) s.tasks
      else finish_task now id "completed" p' "" s.tasks in
    broadcast "sync.finished"
      (broadcast "runtime.updated" (record s { tasks = if ended then s.tasks else tasks }))

-- What the worker meets outside: the agents or the error of their list, the results, and whether its
-- context has ended when it writes the task's end.
pub record Surroundings : Type 0 where
  pub started_at : String
  pub finished_at : String
  pub agent_count : Option ℕ
  pub list_error : RefreshError
  pub results : List (Option RefreshError × SyncAgentResult)
  pub ended : Bool

unfoldable pub listed_progress : String → ℕ → RefreshProgress
listed_progress started_at count = record (started_progress started_at) {
  total_agents = count;
  message = "刷新任务运行中";
}

-- runRefreshTask once its agents are listed.
unfoldable pub refresh_listed : ℕ → String → Surroundings → ℕ → Service → Service
refresh_listed now id e count s =
    let p = listed_progress e.started_at count in
    let s₁ =
      broadcast "sync.started" (record s { tasks = update_task_progress now id p "" s.tasks }) in
    let (stopped, p', s₂) = record_results now e.finished_at id e.results p s₁ in
    if stopped then s₂ else finish_refresh now e.finished_at id e.ended p' s₂

-- runRefreshTask after the claim. The mode of synchronisation that the task's type gives shows in the
-- results only.
unfoldable pub refresh_agents : ℕ → String → Surroundings → Service → Service
refresh_agents now id e s = elim e.agent_count [
  | none ↦ broadcast "sync.failed" (record s {
    tasks =
        finish_task now id "failed"
          (record (started_progress e.started_at) { message = "读取 Agent 列表失败" })
          (refresh_task_error_message e.list_error) s.tasks;
  })
  | some count ↦ refresh_listed now id e count s
]

unfoldable pub run_refresh_task : ℕ → String → Surroundings → Service → Service
run_refresh_task now id e s =
    let (ok, tasks) = claim_task now id s.tasks in
    if ok then refresh_agents now id e (record s { tasks = tasks }) else record s { tasks = tasks }

-- One turn of runRefreshWorker.
unfoldable pub work : ℕ → Surroundings → Service → Service
work now e s = elim s.refresh_queue [
  | [] ↦ s
  | id ∷ rest ↦ run_refresh_task now id e (record s { refresh_queue = rest })
]

unfoldable pub enqueue_all : List Task → Service → Service
enqueue_all [] s = s
enqueue_all (t ∷ rest) s = enqueue_all rest (enqueue_refresh_task t.id s).1

unfoldable pub requeue_refresh_tasks : String → Service → Service
requeue_refresh_tasks type s = enqueue_all (list_queued_tasks_by_type type s.tasks) s

-- StartRefreshWorker, before the worker's first turn.
unfoldable pub start_refresh_worker : ℕ → Service → Service
start_refresh_worker now s =
    let s' = record s {
      tasks =
          fail_running_tasks_by_type now refresh_fast_task_type "后端重启，刷新任务未完成"
            (fail_running_tasks_by_type now refresh_all_task_type "后端重启，刷新任务未完成" s.tasks);
    } in
    requeue_refresh_tasks refresh_fast_task_type (requeue_refresh_tasks refresh_all_task_type s')
