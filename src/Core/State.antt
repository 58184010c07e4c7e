-- ===== src/Core/State.antt =====
-- src/enterprise_orchestrator/core/{state,human,metadata}.py: the state of a run. Each method
-- takes the time that `utc_now` reads in it, and the state that it mutates comes back.
use enterprise_multi_agent_o.Base.{
  ℕ, ◌+◌, String, Bool, true, false, Option, none, some, List, [], ◌∷◌, ◌++◌, ◌==◌, if◌then◌else◌,
  or_else, string_eq,
}
use enterprise_multi_agent_o.Base.Lists.{any}
use enterprise_multi_agent_o.Base.Dict.{insert}
use enterprise_multi_agent_o.Core.Types.{
  ExecutionStatus, HumanRequestStatus, ValidationStatus, Payload, Value,
}
use enterprise_multi_agent_o.Core.Task.{ExecutionPlan}

pub record HumanEscalationRequest : Type 0 where
  pub request_id : String
  pub run_id : String
  pub task_id : Option String
  pub reason : String
  pub requested_action : String
  pub context : Payload
  pub status : HumanRequestStatus
  pub created_at : ℕ
  pub resolved_at : Option ℕ

pub record HumanDecision : Type 0 where
  pub request_id : String
  pub status : HumanRequestStatus
  pub decision_note : Option String
  pub modified_payload : Option Payload
  pub reviewer_id : Option String
  pub resolved_at : ℕ

pub record ExecutionMetadata : Type 0 where
  pub run_id : String
  pub correlation_id : Option String
  pub session_id : Option String
  pub created_at : ℕ
  pub updated_at : ℕ
  pub current_agent : Option String
  pub current_step : ℕ
  pub retry_count : ℕ
  pub max_retries : ℕ
  pub status : ExecutionStatus

unfoldable pub touch : ℕ → ExecutionMetadata → ExecutionMetadata
touch now m = record m { updated_at = now }

-- src/enterprise_orchestrator/validation/models.py, less the score.
pub record ValidationResult : Type 0 where
  pub is_valid : Bool
  pub status : ValidationStatus
  pub feedback : Option String
  pub issues : List String
  pub needs_retry : Bool
  pub needs_human_review : Bool
  pub validator_name : String
  pub evaluated_task_id : Option String

pub record OrchestrationState : Type 0 where
  pub run_id : String
  pub request : String
  pub normalized_request : Option String
  pub plan : Option ExecutionPlan
  pub current_step : ℕ
  pub agent_outputs : Payload
  pub tool_results : Payload
  pub retrieved_context : List Payload
  pub validation_results : List ValidationResult
  pub errors : List Payload
  pub retry_count : ℕ
  pub max_retries : ℕ
  pub requires_human : Bool
  pub human_requests : List HumanEscalationRequest
  pub final_response : Option String
  pub metadata : ExecutionMetadata
  pub custom_context : Payload

-- `metadata.status = status`, then `metadata.touch()`.
unfoldable pub set_status : ℕ → ExecutionStatus → OrchestrationState → OrchestrationState
unfolding touch
set_status now status s = record s { metadata = touch now (record s.metadata { status = status }) }

-- The ids that `uuid4` draws are arguments.
unfoldable pub create_initial :
    (now : ℕ) (run_id request : String) (correlation_id session_id : Option String)
    (max_retries : ℕ) (custom_context : Option Payload)
    → OrchestrationState
create_initial now run_id request correlation_id session_id max_retries custom_context = record {
  run_id = run_id;
  request = request;
  normalized_request = none;
  plan = none;
  current_step = 0;
  agent_outputs = [];
  tool_results = [];
  retrieved_context = [];
  validation_results = [];
  errors = [];
  retry_count = 0;
  max_retries = max_retries;
  requires_human = false;
  human_requests = [];
  final_response = none;
  metadata = record {
    run_id = run_id;
    correlation_id = correlation_id;
    session_id = session_id;
    created_at = now;
    updated_at = now;
    current_agent = none;
    current_step = 0;
    retry_count = 0;
    max_retries = max_retries;
    status = ExecutionStatus.running;
  };
  custom_context = or_else custom_context [];
}

unfoldable pub add_agent_output : ℕ → String → Value → OrchestrationState → OrchestrationState
unfolding touch insert
add_agent_output now agent_name output s = record s {
  agent_outputs = insert agent_name output s.agent_outputs;
  metadata = touch now s.metadata;
}

unfoldable pub add_tool_result : ℕ → String → Value → OrchestrationState → OrchestrationState
unfolding touch insert
add_tool_result now tool_name result s = record s {
  tool_results = insert tool_name result s.tool_results;
  metadata = touch now s.metadata;
}

unfoldable pub add_retrieved_context : ℕ → Payload → OrchestrationState → OrchestrationState
unfolding touch
add_retrieved_context now item s = record s {
  retrieved_context = s.retrieved_context ++ item ∷ [];
  metadata = touch now s.metadata;
}

unfoldable pub add_validation_result :
    ℕ → ValidationResult → OrchestrationState → OrchestrationState
unfolding touch
add_validation_result now validation s = record s {
  validation_results = s.validation_results ++ validation ∷ [];
  metadata = touch now s.metadata;
}

unfoldable pub record_error : ℕ → Payload → OrchestrationState → OrchestrationState
unfolding touch
record_error now error_dict s = record s {
  errors = s.errors ++ error_dict ∷ [];
  metadata = touch now s.metadata;
}

unfoldable pub increment_step : ℕ → String → OrchestrationState → OrchestrationState
unfolding touch
increment_step now current_agent s = record s {
  current_step = s.current_step + 1;
  metadata =
      touch now (record s.metadata {
        current_step = s.current_step + 1;
        current_agent = some current_agent;
      });
}

unfoldable pub request_human_escalation :
    (now : ℕ) (request_id reason requested_action : String) (context : Payload)
    (task_id : Option String)
    → OrchestrationState
    → OrchestrationState
unfolding set_status
request_human_escalation now request_id reason requested_action context task_id s =
    set_status now ExecutionStatus.paused_for_human (record s {
      human_requests =
          s.human_requests
          ++ record {
            request_id = request_id;
            run_id = s.run_id;
            task_id = task_id;
            reason = reason;
            requested_action = requested_action;
            context = context;
            status = HumanRequestStatus.pending;
            created_at = now;
            resolved_at = none;
          }
            ∷ [];
      requires_human = true;
    })

abbrev pub is_open : HumanRequestStatus → Bool
is_open HumanRequestStatus.pending = true
is_open _ = false

-- The loop over the requests, with its `break` at the first of that id.
unfoldable pub resolve : HumanDecision → List HumanEscalationRequest → List HumanEscalationRequest
resolve d [] = []
resolve d (r ∷ rs) =
    if r.request_id == d.request_id
    then record r { status = d.status; resolved_at = some d.resolved_at } ∷ rs
    else r ∷ resolve d rs

unfoldable pub has_pending : List HumanEscalationRequest → Bool
has_pending = any (λ r. is_open r.status)

unfoldable pub apply_human_decision : ℕ → HumanDecision → OrchestrationState → OrchestrationState
unfolding touch resolve has_pending
apply_human_decision now d s =
    let requests = resolve d s.human_requests in
    let pending = has_pending requests in
    record s {
      human_requests = requests;
      requires_human = pending;
      metadata =
          touch now (
            if pending then s.metadata else record s.metadata { status = ExecutionStatus.running });
    }

unfoldable pub complete_run : ℕ → String → OrchestrationState → OrchestrationState
unfolding set_status
complete_run now final_response s =
    set_status now ExecutionStatus.completed (record s { final_response = some final_response })

unfoldable pub fail_run : ℕ → String → OrchestrationState → OrchestrationState
unfolding set_status record_error
fail_run now error_summary s =
    set_status now ExecutionStatus.failed
      (record_error now (("fatal_error", Value.str error_summary) ∷ []) s)

abbrev pub is_terminal : ExecutionStatus → Bool
is_terminal ExecutionStatus.completed = true
is_terminal ExecutionStatus.failed = true
is_terminal ExecutionStatus.cancelled = true
is_terminal _ = false
