-- ===== src/Api/Summaries.antt =====
-- api/schemas.py and the mappings at the top of api/routes/runs.py.
use enterprise_multi_agent_o.Base.{
  ℕ, String, Bool, true, Option, none, some, List, [], map, is_some,
}
use enterprise_multi_agent_o.Base.Lists.{length, select}
use enterprise_multi_agent_o.Core.Types.{TaskType, ExecutionStatus, HumanRequestStatus, Payload}
use enterprise_multi_agent_o.Core.Task.{Task, ExecutionPlan, is_completed}
use enterprise_multi_agent_o.Core.State.{OrchestrationState, HumanEscalationRequest}
use enterprise_multi_agent_o.Errors.{other, Result, ok, raises, ◌>>=◌}
use enterprise_multi_agent_o.Memory.{Checkpoint}
use enterprise_multi_agent_o.Orchestration.Endings.{status_value as task_status_value}
use enterprise_multi_agent_o.Execution.Models.{JobStatus, ExecutionJob}
use enterprise_multi_agent_o.Execution.Backend.Resumption.{status_value}

abbrev pub type_value : TaskType → String
type_value TaskType.planning = "planning"
type_value TaskType.retrieval = "retrieval"
type_value TaskType.tool_execution = "tool_execution"
type_value TaskType.validation = "validation"
type_value TaskType.synthesis = "synthesis"
type_value TaskType.custom = "custom"

abbrev pub request_value : HumanRequestStatus → String
request_value HumanRequestStatus.pending = "pending"
request_value HumanRequestStatus.approved = "approved"
request_value HumanRequestStatus.rejected = "rejected"
request_value HumanRequestStatus.modified = "modified"
request_value HumanRequestStatus.timeout = "timeout"

pub record TaskSummary : Type 0 where
  pub id : String
  pub title : String
  pub task_type : String
  pub status : String
  pub dependencies : List String
  pub retry_count : ℕ
  pub max_retries : ℕ
  pub output_data : Option Payload
  pub error : Option String

pub record PlanSummary : Type 0 where
  pub rationale : String
  pub tasks : List TaskSummary

pub record RunResponse : Type 0 where
  pub run_id : String
  pub request : String
  pub status : String
  pub current_step : ℕ
  pub plan : Option PlanSummary
  pub requires_human : Bool
  pub final_response : Option String
  pub errors : List Payload
  pub created_at : ℕ
  pub updated_at : ℕ

pub record RunStatusResponse : Type 0 where
  pub run_id : String
  pub status : String
  pub current_step : ℕ
  pub requires_human : Bool
  pub has_plan : Bool
  pub completed_tasks : ℕ
  pub total_tasks : ℕ

pub record CheckpointResponse : Type 0 where
  pub checkpoint_id : String
  pub run_id : String
  pub step : ℕ
  pub timestamp : ℕ
  pub status : String
  pub metadata : Payload

pub record HumanReviewResponse : Type 0 where
  pub request_id : String
  pub run_id : String
  pub task_id : Option String
  pub reason : String
  pub requested_action : String
  pub context : Payload
  pub status : String
  pub created_at : ℕ

pub record HumanDecisionResponse : Type 0 where
  pub run_id : String
  pub status : String
  pub resumed_successfully : Bool
  pub final_response : Option String

unfoldable pub summarize_task : Task → TaskSummary
summarize_task t = record {
  id = t.id;
  title = t.title;
  task_type = type_value t.task_type;
  status = task_status_value t.status;
  dependencies = t.dependencies;
  retry_count = t.retry_count;
  max_retries = t.max_retries;
  output_data = t.output_data;
  error = t.error;
}

-- `PlanSummary` requires a rationale, which a plan need not have: pydantic then raises.
unfoldable pub summarize_plan : Option ExecutionPlan → Result (Option PlanSummary)
unfolding summarize_task
summarize_plan none = ok none
summarize_plan (some plan) = elim plan.rationale [
  | none ↦ raises (other "rationale: Input should be a valid string")
  | some rationale ↦
      ok (some (record { rationale = rationale; tasks = map summarize_task plan.tasks }))
]

abbrev pub run_response : OrchestrationState → Option PlanSummary → RunResponse
run_response state plan = record {
  run_id = state.run_id;
  request = state.request;
  status = status_value state.metadata.status;
  current_step = state.current_step;
  plan = plan;
  requires_human = state.requires_human;
  final_response = state.final_response;
  errors = state.errors;
  created_at = state.metadata.created_at;
  updated_at = state.metadata.updated_at;
}

unfoldable pub state_to_run_response : OrchestrationState → Result RunResponse
unfolding summarize_plan
state_to_run_response state = do plan ← summarize_plan state.plan; ok (run_response state plan)

-- The tasks of a plan, which there may not be.
unfoldable pub tasks_of : Option ExecutionPlan → List Task
tasks_of none = []
tasks_of (some plan) = plan.tasks

-- An idle run whose job waits in the queue is queued.
unfoldable pub derived_status : ExecutionStatus → Option JobStatus → String
derived_status ExecutionStatus.idle (some JobStatus.queued) = "queued"
derived_status status _ = status_value status

unfoldable pub state_to_status_response :
    OrchestrationState → (live_job_status : Option JobStatus) → RunStatusResponse
unfolding tasks_of derived_status
state_to_status_response state live_job_status = record {
  run_id = state.run_id;
  status = derived_status state.metadata.status live_job_status;
  current_step = state.current_step;
  requires_human = state.requires_human;
  has_plan = is_some state.plan;
  completed_tasks = length (select (λ t. is_completed t.status) (tasks_of state.plan));
  total_tasks = length (tasks_of state.plan);
}

-- `job.status if job else None`
unfoldable pub live_status : Option ExecutionJob → Option JobStatus
live_status none = none
live_status (some job) = some job.status

unfoldable pub checkpoint_to_response : Checkpoint → CheckpointResponse
checkpoint_to_response cp = record {
  checkpoint_id = cp.checkpoint_id;
  run_id = cp.run_id;
  step = cp.step;
  timestamp = cp.timestamp;
  status = status_value cp.state.metadata.status;
  metadata = cp.metadata;
}

unfoldable pub review_response : HumanEscalationRequest → HumanReviewResponse
review_response r = record {
  request_id = r.request_id;
  run_id = r.run_id;
  task_id = r.task_id;
  reason = r.reason;
  requested_action = r.requested_action;
  context = r.context;
  status = request_value r.status;
  created_at = r.created_at;
}

unfoldable pub decision_response : OrchestrationState → HumanDecisionResponse
decision_response s = record {
  run_id = s.run_id;
  status = status_value s.metadata.status;
  resumed_successfully = true;
  final_response = s.final_response;
}
