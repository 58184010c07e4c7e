-- ===== src/Execution/Models.antt =====
-- execution/models.py and the attributes of the backend in execution/local_async.py.
use enterprise_multi_agent_o.Base.{ℕ, String, Bool, Option, List}
use enterprise_multi_agent_o.Base.Dict.{Dict}
use enterprise_multi_agent_o.Core.Types.{Payload}
use enterprise_multi_agent_o.Core.State.{OrchestrationState, HumanDecision}
use enterprise_multi_agent_o.Execution.Ledger.{Ledger}

pub data JobStatus : Type 0 where
  queued running waiting_for_human completed failed cancelled : JobStatus

pub record ExecutionJob : Type 0 where
  pub job_id : String
  pub run_id : String
  pub request : String
  pub status : JobStatus
  pub correlation_id : Option String
  pub session_id : Option String
  pub custom_context : Option Payload
  pub idempotency_key : Option String
  pub submitted_at : ℕ
  pub started_at : Option ℕ
  pub completed_at : Option ℕ
  pub is_cancelled : Bool
  pub cancellation_reason : Option String
  pub error : Option String
  pub result : Option OrchestrationState

-- What a worker is to do: the task type with its arguments.
pub data Work : Type 0 where
  run :
      (request : String) (correlation_id session_id : Option String)
      (custom_context : Option Payload)
      → Work
  resume : OrchestrationState → HumanDecision → Work

pub record WorkItem : Type 0 where
  pub run_id : String
  pub work : Work
  pub future : ℕ
  pub key_hash : Option String

-- The attributes of `LocalAsyncExecutionBackend`. `queue` has `none` for the sentinel,
-- `idle_workers` are those that wait in `queue.get()`, and `working` has the locals of the others.
-- A task in `active_tasks` is its worker's number, and `cancelling` are the tasks with a pending
-- `cancel()`. The ledger carries the heap of all futures, `store` is the state store, `events` are
-- the published ones by run and type, and `audits` the runs whose cancellation was recorded.
pub record Backend : Type 0 where
  pub max_concurrency : ℕ
  pub max_queue_size : ℕ
  pub queue : List (Option WorkItem)
  pub idle_workers : List ℕ
  pub working : Dict ℕ WorkItem
  pub active_tasks : Dict String ℕ
  pub cancelling : List ℕ
  pub jobs : Dict String ExecutionJob
  pub futures : Dict String ℕ
  pub cancelled_runs : List String
  pub ledger : Ledger OrchestrationState
  pub store : Dict String OrchestrationState
  pub is_started : Bool
  pub is_shutting_down : Bool
  pub events : List (String × String)
  pub audits : List String
  pub rejections : ℕ
  pub cancellations : ℕ
