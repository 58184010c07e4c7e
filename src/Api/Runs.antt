-- ===== src/Api/Runs.antt =====
-- The handlers of api/routes/runs.py, with the methods of services/orchestration_service.py that
-- they call. A handler that awaits a run is two steps, before and after.
use enterprise_multi_agent_o.Base.{
  ℕ, String, ◌<>◌, ◌==◌, Option, none, some, List, [], false, map, if◌then◌else◌, string_eq, nat_eq,
  or_else,
}
use enterprise_multi_agent_o.Base.Dict.{lookup}
use enterprise_multi_agent_o.Base.Lists.{length}
use enterprise_multi_agent_o.Core.Types.{Payload, nonempty}
use enterprise_multi_agent_o.Core.State.{OrchestrationState, is_terminal}
use enterprise_multi_agent_o.Errors.{orchestrator_error, cancelled, Result, ok, raises}
use enterprise_multi_agent_o.Memory.{StateStore, get_state, list_checkpoints}
use enterprise_multi_agent_o.Security.Roles.{AuthenticatedIdentity}
use enterprise_multi_agent_o.Execution.Futures.{rejected}
use enterprise_multi_agent_o.Execution.Models.{ExecutionJob, Backend}
use enterprise_multi_agent_o.Execution.Backend.{start, settle_future}
use enterprise_multi_agent_o.Execution.Backend.Admission.{Uuids, Submission, submit_run}
use enterprise_multi_agent_o.Execution.Backend.Resumption.{status_value}
use enterprise_multi_agent_o.Execution.Backend.Workers.{cancel_run, get_job}
use enterprise_multi_agent_o.Api.{Response, answers, http_exception, fails}
use enterprise_multi_agent_o.Api.Summaries.{
  RunResponse, RunStatusResponse, CheckpointResponse, state_to_run_response,
  state_to_status_response, live_status, checkpoint_to_response,
}

abbrev pub not_found : {A : Type 0} → String → Response A
not_found run_id = http_exception 404 ("Run '" <> run_id <> "' not found.")

abbrev pub respond : {A : Type 0} → Result A → Response A
respond (ok a) = answers a
respond (raises e) = fails e

pub record CreateRunRequest : Type 0 where
  pub request : String
  pub correlation_id : Option String
  pub session_id : Option String
  pub custom_context : Option Payload
  pub idempotency_key : Option String

-- `idempotency_key_header or payload.idempotency_key`
unfoldable pub effective_key : Option String → Option String → Option String
unfolding nonempty
effective_key none key = key
effective_key (some header) key = if nonempty header then some header else key

-- The arguments that the service passes on, with the run id that it draws.
unfoldable pub submission :
    (run_id : String) (header : Option String)
    → AuthenticatedIdentity
    → CreateRunRequest
    → Submission
unfolding effective_key
submission run_id header identity payload = record {
  run_id = run_id;
  request = payload.request;
  correlation_id = payload.correlation_id;
  session_id = payload.session_id;
  custom_context = payload.custom_context;
  idempotency_key = effective_key header payload.idempotency_key;
  subject_id = some identity.subject_id;
}

-- `except OrchestrationError as err` around the submission. Only errors of that class carry the
-- code of a full queue.
unfoldable pub on_submitted : {A : Type 0} → Result A → Response A
on_submitted (ok a) = answers a
on_submitted (raises (orchestrator_error e)) =
    if e.code == "EXECUTION_QUEUE_FULL"
    then http_exception 429 e.message
    else fails (orchestrator_error e)
on_submitted (raises e) = fails e

-- The answer for a run that is not stored.
abbrev pub fallback : (request : String) → ExecutionJob → RunResponse
fallback request job = record {
  run_id = job.run_id;
  request = request;
  status = "queued";
  current_step = 0;
  plan = none;
  requires_human = false;
  final_response = none;
  errors = [];
  created_at = job.submitted_at;
  updated_at = job.submitted_at;
}

-- The answer of the asynchronous mode.
unfoldable pub accepted :
    (request : String) → ExecutionJob → Option OrchestrationState → Result RunResponse
unfolding state_to_run_response
accepted request job (some state) = state_to_run_response state
accepted request job none = ok (fallback request job)

module _ (hash : String → String) (dumps : String → Payload → String) where
  -- `create_run` until the submission is answered: the job and its future.
  unfoldable pub submit :
      (now max_retries : ℕ) (ids : Uuids) (run_id : String) (header : Option String)
      → AuthenticatedIdentity
      → CreateRunRequest
      → Backend
      → Response (ExecutionJob × ℕ) × Backend
  unfolding start submit_run submission on_submitted
  submit now max_retries ids run_id header identity payload b =
      let (result, b) =
        submit_run hash dumps now max_retries ids (submission run_id header identity payload)
          (start b) in
      (on_submitted result, b)

  unfoldable pub create_run_async :
      (now max_retries : ℕ) (ids : Uuids) (run_id : String) (header : Option String)
      → AuthenticatedIdentity
      → CreateRunRequest
      → Backend
      → Response RunResponse × Backend
  unfolding submit accepted lookup
  create_run_async now max_retries ids run_id header identity payload b =
      let (response, b) = submit now max_retries ids run_id header identity payload b in
      elim response [
        | answers (job, _) ↦ (respond (accepted payload.request job (lookup job.run_id b.store)), b)
        | http_exception status_code detail ↦ (http_exception status_code detail, b)
        | fails e ↦ (fails e, b)
      ]

-- `create_run` once its future is done, or has not been within the time: `wait_for` then cancels
-- the future.
unfoldable pub finish_run :
    (now : ℕ)
    → ExecutionJob × ℕ
    → Option (Result OrchestrationState)
    → Backend
    → Response RunResponse × Backend
unfolding state_to_run_response cancel_run settle_future
finish_run now _ (some (ok state)) b = (respond (state_to_run_response state), b)
finish_run now _ (some (raises e)) b = (fails e, b)
finish_run now (job, n) none b = (
  http_exception 504 "Workflow execution exceeded request deadline.",
  (cancel_run now job.run_id "Request deadline exceeded"
      (settle_future n (rejected cancelled) b)).1,
)

unfoldable pub get_run : String → Backend → Response RunResponse × Backend
unfolding lookup state_to_run_response
get_run run_id b = elim (lookup run_id b.store) [
  | none ↦ (not_found run_id, b)
  | some state ↦ (respond (state_to_run_response state), b)
]

unfoldable pub get_run_status : String → Backend → Response RunStatusResponse × Backend
unfolding lookup state_to_status_response live_status get_job
get_run_status run_id b = elim (lookup run_id b.store) [
  | none ↦ (not_found run_id, b)
  | some state ↦ (answers (state_to_status_response state (live_status (get_job run_id b))), b)
]

-- `cancel_run_endpoint` for the state found.
unfoldable pub cancel_found :
    (now : ℕ) (run_id : String)
    → AuthenticatedIdentity
    → OrchestrationState
    → Backend
    → Response RunResponse × Backend
unfolding lookup cancel_run state_to_run_response
cancel_found now run_id identity state b =
    if is_terminal state.metadata.status
    then (
      http_exception 400 (
          "Run '"
          <> run_id
          <> "' is in terminal status '"
          <> status_value state.metadata.status
          <> "' and cannot be cancelled."),
      b,
    )
    else let (_, b) =
        cancel_run now run_id ("Cancelled by user '" <> identity.subject_id <> "'") b in
      (respond (state_to_run_response (or_else (lookup run_id b.store) state)), b)

unfoldable pub cancel_run_endpoint :
    (now : ℕ) (run_id : String) → AuthenticatedIdentity → Backend → Response RunResponse × Backend
unfolding lookup cancel_found
cancel_run_endpoint now run_id identity b = elim (lookup run_id b.store) [
  | none ↦ (not_found run_id, b)
  | some state ↦ cancel_found now run_id identity state b
]

pub record CheckpointListResponse : Type 0 where
  pub run_id : String
  pub total_checkpoints : ℕ
  pub checkpoints : List CheckpointResponse

unfoldable pub get_run_checkpoints : String → StateStore → Response CheckpointListResponse
unfolding get_state list_checkpoints checkpoint_to_response
get_run_checkpoints run_id store = elim (get_state run_id store) [
  | none ↦ not_found run_id
  | some _ ↦
      let responses = map checkpoint_to_response (list_checkpoints run_id store) in
      answers
        (record { run_id = run_id; total_checkpoints = length responses; checkpoints = responses })
]
