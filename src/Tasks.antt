-- ===== src/Tasks.antt =====
-- Background tasks that refresh the cache: the statements on the table tasks in
-- backend/internal/repository/repository.go, the queue and its worker in
-- backend/internal/service/realtime/refresh_worker.go, the schedule of scheduler.go, and the request
-- POST /api/v1/refresh of backend/api/router/events.go. Statements reach the database, except that a
-- cancelled context makes the last one of a run fail. A task's payload is its refresh progress.
pub mod Worker
pub mod Schedule
use kvm_manager.Base.{
  ℕ, String, Bool, true, false, ◌&&◌, ◌||◌, Option, none, some, List, [], ◌∷◌, ◌++◌, ◌==◌, any,
  if◌then◌else◌,
}
use kvm_manager.Sql.{update_where, find_where}

pub record RefreshAgentResult : Type 0 where
  pub id : String
  pub name : String
  pub status : String
  pub error : String

pub record RefreshProgress : Type 0 where
  pub total_agents : ℕ
  pub synced_agents : ℕ
  pub failed_agents : ℕ
  pub current_agent : String
  pub message : String
  pub started_at : String
  pub finished_at : String
  pub agent_results : List RefreshAgentResult

unfoldable pub new_queued_refresh_progress : RefreshProgress
new_queued_refresh_progress = record {
  total_agents = 0;
  synced_agents = 0;
  failed_agents = 0;
  current_agent = "";
  message = "刷新任务已排队";
  started_at = "";
  finished_at = "";
  agent_results = [];
}

-- A row of tasks; NULL texts are empty.
pub record Task : Type 0 where
  pub id : String
  pub type : String
  pub status : String
  pub target_type : String
  pub target_id : String
  pub payload : RefreshProgress
  pub error_message : String
  pub created_by : String
  pub created_at : ℕ
  pub updated_at : ℕ
  pub finished_at : Option ℕ

abbrev pub refresh_all_task_type : String
refresh_all_task_type = "runtime.refresh.all"

abbrev pub refresh_fast_task_type : String
refresh_fast_task_type = "runtime.refresh.fast"

unfoldable pub has_task_id : String → Task → Bool
has_task_id id t = t.id == id

unfoldable pub new_task :
    ℕ → String → String → String → String → String → RefreshProgress → String → String → Task
new_task now id type status target_type target_id payload created_by error_message = record {
  id = id;
  type = type;
  status = status;
  target_type = target_type;
  target_id = target_id;
  payload = payload;
  error_message = error_message;
  created_by = created_by;
  created_at = now;
  updated_at = now;
  finished_at = if status == "completed" || status == "failed" then some now else none;
}

-- CreateTask; the database draws the identifier.
unfoldable pub create_task :
    ℕ
    → String
    → String
    → String
    → String
    → String
    → RefreshProgress
    → String
    → String
    → List Task
    → List Task
create_task now id type status target_type target_id payload created_by error_message tasks =
    tasks ++ new_task now id type status target_type target_id payload created_by error_message ∷ []

unfoldable pub get_task : String → List Task → Option Task
get_task id tasks = find_where (has_task_id id) tasks

unfoldable pub is_active : String → Task → Bool
is_active type t = t.type == type && (t.status == "queued" || t.status == "running")

-- FindActiveTaskByType, as the test whether it finds one.
unfoldable pub has_active_task : String → List Task → Bool
has_active_task type tasks = any (is_active type) tasks

unfoldable pub is_claimable : String → Task → Bool
is_claimable id t = t.id == id && t.status == "queued"

unfoldable pub claimed : ℕ → Task → Task
claimed now t = record t { status = "running"; updated_at = now }

-- ClaimTask: whether a row changed, and the rows.
unfoldable pub claim_task : ℕ → String → List Task → Bool × List Task
claim_task now id tasks =
    (any (is_claimable id) tasks, update_where (is_claimable id) (claimed now) tasks)

unfoldable pub with_progress : ℕ → RefreshProgress → String → Task → Task
with_progress now payload error_message t = record t {
  payload = payload;
  error_message = error_message;
  updated_at = now;
}

unfoldable pub update_task_progress : ℕ → String → RefreshProgress → String → List Task → List Task
update_task_progress now id payload error_message =
    update_where (has_task_id id) (with_progress now payload error_message)

unfoldable pub finished : ℕ → String → RefreshProgress → String → Task → Task
finished now status payload error_message t = record t {
  status = status;
  payload = payload;
  error_message = error_message;
  finished_at = some now;
  updated_at = now;
}

unfoldable pub finish_task : ℕ → String → String → RefreshProgress → String → List Task → List Task
finish_task now id status payload error_message =
    update_where (has_task_id id) (finished now status payload error_message)

unfoldable pub is_running : String → Task → Bool
is_running type t = t.type == type && t.status == "running"

unfoldable pub failed_by_restart : ℕ → String → Task → Task
failed_by_restart now message t = record t {
  status = "failed";
  error_message = message;
  finished_at = some now;
  updated_at = now;
}

unfoldable pub fail_running_tasks_by_type : ℕ → String → String → List Task → List Task
fail_running_tasks_by_type now type message =
    update_where (is_running type) (failed_by_restart now message)

-- ListQueuedTasksByType: rows stand in the order of their creation.
unfoldable pub list_queued_tasks_by_type : String → List Task → List Task
list_queued_tasks_by_type type [] = []
list_queued_tasks_by_type type (t ∷ rest) =
    let queued = list_queued_tasks_by_type type rest in
    if t.type == type && t.status == "queued" then t ∷ queued else queued
