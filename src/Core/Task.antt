-- ===== src/Core/Task.antt =====
-- src/enterprise_orchestrator/core/task.py: a task, the execution plan and their operations. A
-- Python task is an object that the plan refers to; a method of it is here an update of the plan
-- at the first task of that id, which is the object that `get_task` returns.
use enterprise_multi_agent_o.Base.{
  ℕ, String, Bool, true, false, ◌&&◌, Option, none, some, List, [], ◌∷◌, ltb, ◌==◌, if◌then◌else◌,
  contains, string_eq,
}
use enterprise_multi_agent_o.Base.Lists.{all, any, select}
use enterprise_multi_agent_o.Core.Types.{TaskStatus, TaskType, AgentRole, Payload, truthy}

pub record Task : Type 0 where
  pub id : String
  pub title : String
  pub description : String
  pub task_type : TaskType
  pub assigned_agent : Option AgentRole
  pub dependencies : List String
  pub status : TaskStatus
  pub input_data : Payload
  pub output_data : Option Payload
  pub error : Option String
  pub retry_count : ℕ
  pub max_retries : ℕ
  pub created_at : ℕ
  pub completed_at : Option ℕ

unfoldable pub mark_in_progress : Task → Task
mark_in_progress t = record t { status = TaskStatus.in_progress }

unfoldable pub mark_completed : ℕ → Payload → Task → Task
mark_completed now output t = record t {
  status = TaskStatus.completed;
  output_data = some output;
  completed_at = some now;
}

unfoldable pub mark_failed : ℕ → String → Task → Task
mark_failed now message t = record t {
  status = TaskStatus.failed;
  error = some message;
  completed_at = some now;
}

unfoldable pub can_retry : Task → Bool
can_retry t = ltb t.retry_count t.max_retries

abbrev pub is_pending : TaskStatus → Bool
is_pending TaskStatus.pending = true
is_pending _ = false

abbrev pub is_completed : TaskStatus → Bool
is_completed TaskStatus.completed = true
is_completed _ = false

abbrev pub is_failed : TaskStatus → Bool
is_failed TaskStatus.failed = true
is_failed _ = false

-- `status in (COMPLETED, SKIPPED)`
abbrev pub is_done : TaskStatus → Bool
is_done TaskStatus.completed = true
is_done TaskStatus.skipped = true
is_done _ = false

pub record ExecutionPlan : Type 0 where
  pub plan_id : String
  pub tasks : List Task
  pub current_task_id : Option String
  pub rationale : Option String
  pub created_at : ℕ

unfoldable pub find_task : String → List Task → Option Task
find_task task_id [] = none
find_task task_id (t ∷ ts) = if t.id == task_id then some t else find_task task_id ts

unfoldable pub get_task : String → ExecutionPlan → Option Task
unfolding find_task
get_task task_id p = find_task task_id p.tasks

-- A mutation of the task object that `get_task` returns.
unfoldable pub update_task : String → (Task → Task) → List Task → List Task
update_task task_id f [] = []
update_task task_id f (t ∷ ts) = if t.id == task_id then f t ∷ ts else t ∷ update_task task_id f ts

unfoldable pub ids : List Task → List String
ids [] = []
ids (t ∷ ts) = t.id ∷ ids ts

unfoldable pub completed_ids : List Task → List String
unfolding ids
completed_ids ts = ids (select (λ t. is_completed t.status) ts)

unfoldable pub is_ready : List String → Task → Bool
is_ready completed t = is_pending t.status && all (contains completed) t.dependencies

unfoldable pub get_ready_tasks : ExecutionPlan → List Task
unfolding completed_ids is_ready
get_ready_tasks p = select (is_ready (completed_ids p.tasks)) p.tasks

unfoldable pub all_completed : ExecutionPlan → Bool
all_completed p = truthy p.tasks && all (λ t. is_done t.status) p.tasks

unfoldable pub has_failed_tasks : ExecutionPlan → Bool
has_failed_tasks p = any (λ t. is_failed t.status) p.tasks
