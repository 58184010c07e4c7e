-- ===== src/Api/Human.antt =====
-- The handlers of api/routes/human.py. `str.lower` is a parameter.
use enterprise_multi_agent_o.Base.{
  ℕ, String, ◌<>◌, ◌==◌, ◌||◌, Bool, true, false, Option, none, some, if◌then◌else◌, string_eq,
}
use enterprise_multi_agent_o.Base.Dict.{lookup}
use enterprise_multi_agent_o.Base.Text.{strip_text}
use enterprise_multi_agent_o.Core.Types.{HumanRequestStatus, Payload}
use enterprise_multi_agent_o.Core.State.{OrchestrationState, HumanDecision}
use enterprise_multi_agent_o.Errors.{
  ErrorClass, orchestrator_error, Result, ok, raises, authorization_error,
}
use enterprise_multi_agent_o.Security.Roles.{
  Permission, AuthenticatedIdentity, permission_value, has_permission,
}
use enterprise_multi_agent_o.Execution.Models.{ExecutionJob, Backend}
use enterprise_multi_agent_o.Execution.Backend.{start}
use enterprise_multi_agent_o.Execution.Backend.Resumption.{submit_resume}
use enterprise_multi_agent_o.Services.Events.{get_pending_human_review}
use enterprise_multi_agent_o.Api.{Response, answers, http_exception, fails}
use enterprise_multi_agent_o.Api.Runs.{not_found}
use enterprise_multi_agent_o.Api.Summaries.{
  HumanReviewResponse, HumanDecisionResponse, request_value, review_response, decision_response,
}

unfoldable pub get_human_review : String → Backend → Response HumanReviewResponse × Backend
unfolding lookup get_pending_human_review review_response
get_human_review run_id b = elim (lookup run_id b.store) [
  | none ↦ (not_found run_id, b)
  | some state ↦ elim (get_pending_human_review (some state)) [
    | none ↦ (http_exception 404 ("No pending human review request for run '" <> run_id <> "'."), b)
    | some r ↦ (answers (review_response r), b)
  ]
]

-- The body of the request; the reviewer that it names is not read.
pub record HumanDecisionRequest : Type 0 where
  pub request_id : String
  pub status : String
  pub decision_note : Option String
  pub modified_payload : Option Payload
  pub reviewer_id : Option String

-- `HumanRequestStatus(status_str)`
unfoldable pub parse_status : String → Option HumanRequestStatus
parse_status s =
    if s == "pending"
    then some HumanRequestStatus.pending
    else if s == "approved"
    then some HumanRequestStatus.approved
    else if s == "rejected"
    then some HumanRequestStatus.rejected
    else if s == "modified"
    then some HumanRequestStatus.modified
    else if s == "timeout"
    then some HumanRequestStatus.timeout
    else none

unfoldable pub required_permission : HumanRequestStatus → Option Permission
required_permission HumanRequestStatus.approved = some Permission.hitl_approve
required_permission HumanRequestStatus.modified = some Permission.hitl_modify
required_permission HumanRequestStatus.rejected = some Permission.hitl_reject
required_permission HumanRequestStatus.pending = none
required_permission HumanRequestStatus.timeout = none

-- The decision, bound to the identity.
abbrev pub new_decision :
    (now : ℕ) → AuthenticatedIdentity → HumanDecisionRequest → HumanRequestStatus → HumanDecision
new_decision now identity payload status = record {
  request_id = payload.request_id;
  status = status;
  decision_note = payload.decision_note;
  modified_payload = payload.modified_payload;
  reviewer_id = some identity.subject_id;
  resolved_at = now;
}

-- The check of the permission, and the decision.
unfoldable pub check_decision :
    (now : ℕ)
    → AuthenticatedIdentity
    → HumanDecisionRequest
    → HumanRequestStatus
    → Response HumanDecision
unfolding required_permission has_permission
check_decision now identity payload status = elim (required_permission status) [
  | none ↦ answers (new_decision now identity payload status)
  | some p ↦
      if has_permission p identity
      then answers (new_decision now identity payload status)
      else fails (
          orchestrator_error (
            authorization_error (
              "Forbidden: Principal lacks required permission '"
              <> permission_value p
              <> "' for "
              <> request_value status
              <> " decision.")))
]

-- `except OrchestrationError as e`, which takes its subclasses too.
abbrev pub is_orchestration_error : ErrorClass → Bool
is_orchestration_error ErrorClass.orchestration = true
is_orchestration_error ErrorClass.task_dependency = true
is_orchestration_error ErrorClass.idempotency_conflict = true
is_orchestration_error _ = false

unfoldable pub on_resumed : {A : Type 0} → Result A → Response A
on_resumed (ok a) = answers a
on_resumed (raises (orchestrator_error e)) =
    if is_orchestration_error e.kind
    then (if e.code == "RUN_NOT_FOUND"
        then http_exception 404 e.message
        else if e.code == "NO_HUMAN_REVIEW_PENDING" || e.code == "RUN_TERMINAL"
        then http_exception 400 e.message
        else http_exception 500 e.message)
    else fails (orchestrator_error e)
on_resumed (raises e) = fails e

-- The service starts the backend and hands the decision on.
unfoldable pub resume_with :
    (now : ℕ) (job_id run_id : String)
    → Response HumanDecision
    → Backend
    → Response (ExecutionJob × ℕ) × Backend
unfolding start submit_resume on_resumed
resume_with now job_id run_id (answers d) b =
    let (result, b) = submit_resume now job_id run_id d (start b) in (on_resumed result, b)
resume_with now job_id run_id (http_exception status_code detail) b =
    (http_exception status_code detail, b)
resume_with now job_id run_id (fails e) b = (fails e, b)

module _ (lower : String → String) where
  -- The decision that the handler makes of the request.
  unfoldable pub read_decision :
      (now : ℕ) → AuthenticatedIdentity → HumanDecisionRequest → Response HumanDecision
  unfolding parse_status check_decision
  read_decision now identity payload = elim (parse_status (lower (strip_text payload.status))) [
    | none ↦ http_exception 422 (
        "Invalid decision status '" <> payload.status
        <> "'. Must be one of: APPROVED, REJECTED, MODIFIED.")
    | some status ↦ check_decision now identity payload status
  ]

  -- `submit_human_decision` until it awaits the run.
  unfoldable pub submit_human_decision :
      (now : ℕ) (job_id run_id : String)
      → AuthenticatedIdentity
      → HumanDecisionRequest
      → Backend
      → Response (ExecutionJob × ℕ) × Backend
  unfolding read_decision resume_with
  submit_human_decision now job_id run_id identity payload b =
      resume_with now job_id run_id (read_decision now identity payload) b

-- `submit_human_decision` once its future is done.
unfoldable pub finish_decision : Result OrchestrationState → Response HumanDecisionResponse
unfolding on_resumed decision_response
finish_decision (ok s) = answers (decision_response s)
finish_decision (raises e) = on_resumed (raises e)
