-- ===== src/Api/Tests.antt =====
-- A backend with one run that waits for a reviewer, and the routes of an operator.
use enterprise_multi_agent_o.Base.{
  contains, String, ◌≡◌, refl, true, false, ◌&&◌, none, some, [], ◌∷◌, string_eq, nat_eq, or_else,
}
use enterprise_multi_agent_o.Base.Dict.{lookup}
use enterprise_multi_agent_o.Base.Text.{strip_text}
use enterprise_multi_agent_o.Core.Types.{ExecutionStatus, Payload, nonempty}
use enterprise_multi_agent_o.Core.State.{
  OrchestrationState, create_initial, request_human_escalation, set_status,
}
use enterprise_multi_agent_o.Security.Roles.{
  Role, Permission, AuthenticatedIdentity, has_permission,
}
use enterprise_multi_agent_o.Security.RateLimiter.{check_rate_limit}
use enterprise_multi_agent_o.Execution.Ledger.{compute_key_hash, compute_request_hash}
use enterprise_multi_agent_o.Execution.Ledger.Claims.{holder}
use enterprise_multi_agent_o.Execution.Models.{JobStatus, Backend}
use enterprise_multi_agent_o.Execution.Backend.Admission.{Uuids, bare_job}
use enterprise_multi_agent_o.Execution.Backend.Resumption.{submit_resume}
use enterprise_multi_agent_o.Api.{answers, Limits, route, require, require_rate_limit, run_handler}
use enterprise_multi_agent_o.Api.Summaries.{RunResponse, run_response}
use enterprise_multi_agent_o.Api.Runs.{
  CreateRunRequest, effective_key, create_run_async, cancel_run_endpoint, cancel_found,
}
use enterprise_multi_agent_o.Api.Human.{
  HumanDecisionRequest, read_decision, parse_status, submit_human_decision,
}
use enterprise_multi_agent_o.Api.Authorized.{
  IsPassedOn, verdicts, status_text, submit_human_decision-IsPassedOn,
}
use enterprise_multi_agent_o.Api.Submitted.{IsReadable, create_run_async-IsReadable}
use enterprise_multi_agent_o.Api.Duplicates.{IsUnknown, create_run_async-IsUnknown}

abbrev ann : AuthenticatedIdentity
ann = record {
  subject_id = "ann";
  username = "Ann";
  roles = Role.operator ∷ [];
  permissions = λ p. false;
  auth_method = "api_key";
  is_authenticated = true;
}

abbrev limits : Limits
limits = record {
  rate_limit_enabled = true;
  rate_limit_authenticated_per_minute = 2;
  max_keys = 100;
  now = 7000;
  show_seconds = λ t. "some";
}

-- A run that waits for a reviewer.
abbrev paused : OrchestrationState
unfolding create_initial request_human_escalation
paused =
    request_human_escalation 2 "q" "check" "review" [] none
      (create_initial 1 "r" "Do it" none none 3 none)

abbrev reviewing : Backend
reviewing = record {
  max_concurrency = 1;
  max_queue_size = 2;
  queue = [];
  idle_workers = 0 ∷ [];
  working = [];
  active_tasks = [];
  cancelling = [];
  jobs = [];
  futures = [];
  cancelled_runs = [];
  ledger = record { records = []; futures = record { cells = []; next = 0 } };
  store = ("r", paused) ∷ [];
  is_started = true;
  is_shutting_down = false;
  events = [];
  audits = [];
  rejections = 0;
  cancellations = 0;
}

abbrev same : String → String
same s = s

abbrev request_only : String → Payload → String
request_only request context = request

abbrev approval : HumanDecisionRequest
approval = record {
  request_id = "q";
  status = " approved";
  decision_note = none;
  modified_payload = none;
  reviewer_id = some "bob";
}

resumed :
    (route none limits ann (submit_human_decision same 6 "job" "r" ann approval) ([], reviewing)).0
    ≡ answers (bare_job 6 "job" "r" "Do it" JobStatus.queued none, 0)
unfolding route require require_rate_limit check_rate_limit run_handler submit_human_decision
    read_decision parse_status has_permission submit_resume paused create_initial
    request_human_escalation strip_text string_eq nat_eq
resumed = refl

abbrev cancelled_run : RunResponse
unfolding set_status paused
cancelled_run = run_response (set_status 6 ExecutionStatus.cancelled paused) none

cancelled :
    (route
      (some Permission.runs_cancel)
      limits
      ann
      (cancel_run_endpoint 6 "r" ann)
      ([], reviewing)).0
    ≡ answers cancelled_run
unfolding route require require_rate_limit check_rate_limit run_handler cancel_run_endpoint
    cancel_found has_permission paused create_initial request_human_escalation cancelled_run
    string_eq nat_eq
cancelled = refl

approved : contains verdicts (status_text same approval) ≡ true
unfolding strip_text string_eq nat_eq
approved = refl

idle : lookup "r" reviewing.active_tasks ≡ none
unfolding lookup
idle = refl

submit_human_decision-IsPassedOn_example :
    IsPassedOn "approved" "r" ann approval reviewing
      (route none limits ann
        (submit_human_decision same 6 "job" "r" ann approval)
        ([], reviewing)).1.1
unfolding strip_text string_eq nat_eq
submit_human_decision-IsPassedOn_example =
    submit_human_decision-IsPassedOn same limits 6 "job" "r" ann approval [] reviewing
      (bare_job 6 "job" "r" "Do it" JobStatus.queued none, 0) approved resumed

abbrev keyless : CreateRunRequest
keyless = record {
  request = "Do more";
  correlation_id = none;
  session_id = none;
  custom_context = none;
  idempotency_key = none;
}

abbrev uuids : Uuids
uuids = record { job_id = "job"; run_id = "u" }

-- The state that the submission stores.
abbrev new_state : OrchestrationState
unfolding create_initial
new_state =
    let s = create_initial 5 "u" "Do more" none none 3 none in
    record s { run_id = "s"; metadata = record s.metadata { status = ExecutionStatus.idle } }

abbrev created : RunResponse
unfolding new_state
created = run_response new_state none

created-answered :
    (create_run_async same request_only 5 3 uuids "s" none ann keyless reviewing).0
    ≡ answers created
unfolding create_run_async paused new_state created create_initial request_human_escalation
    string_eq
created-answered = refl

no_key : effective_key none keyless.idempotency_key ≡ none
unfolding effective_key
no_key = refl

create_run_async-IsReadable_example :
    IsReadable "s" created
      (create_run_async same request_only 5 3 uuids "s" none ann keyless reviewing).1
create_run_async-IsReadable_example =
    create_run_async-IsReadable same request_only 5 3 uuids "s" none ann keyless reviewing created
      no_key created-answered

-- The request with a key, and the backend that has taken it once.
abbrev keyed : CreateRunRequest
keyed = record keyless { idempotency_key = some "key" }

abbrev once : Backend
unfolding create_run_async
once = (create_run_async same request_only 5 3 uuids "s" none ann keyed reviewing).1

once-running : (once.is_shutting_down ≡ false) × (once.is_started ≡ true)
unfolding once create_run_async paused create_initial request_human_escalation string_eq
once-running = (refl, refl)

key_named :
    nonempty (or_else (effective_key none keyed.idempotency_key) "") && nonempty ann.subject_id
    ≡ true
unfolding effective_key nonempty string_eq
key_named = refl

once-holds :
    holder
      (compute_key_hash same "ann" (or_else (effective_key none keyed.idempotency_key) ""))
      once.ledger
    ≡ some (compute_request_hash same request_only "Do more" none, 0)
unfolding once create_run_async paused create_initial request_human_escalation string_eq holder
    compute_key_hash compute_request_hash effective_key
once-holds = refl

once-jobs : lookup "t" once.jobs ≡ none
unfolding once create_run_async paused create_initial request_human_escalation string_eq
once-jobs = refl

once-store : lookup "t" once.store ≡ none
unfolding once create_run_async paused create_initial request_human_escalation string_eq
once-store = refl

create_run_async-IsUnknown_example :
    IsUnknown "t" (create_run_async same request_only 9 3 uuids "t" none ann keyed once)
create_run_async-IsUnknown_example =
    create_run_async-IsUnknown same request_only 9 3 uuids "t" none ann keyed once 0 once-running
      key_named once-holds once-jobs once-store
