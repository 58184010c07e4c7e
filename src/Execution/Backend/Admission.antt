-- ===== src/Execution/Backend/Admission.antt =====
-- `submit_run` of execution/local_async.py.
use enterprise_multi_agent_o.Base.{
  ℕ, ◌+◌, String, true, false, ◌&&◌, Option, none, some, if◌then◌else◌, string_eq, nat_eq, or_else,
  is_some,
}
use enterprise_multi_agent_o.Base.Dict.{lookup, insert}
use enterprise_multi_agent_o.Core.Types.{ExecutionStatus, Payload, nonempty}
use enterprise_multi_agent_o.Core.State.{OrchestrationState, create_initial, set_status}
use enterprise_multi_agent_o.Errors.{Result, ok, raises}
use enterprise_multi_agent_o.Execution.Futures.{resolved, create_future}
use enterprise_multi_agent_o.Execution.Ledger.{
  Claim, acquire_or_join, compute_key_hash, compute_request_hash,
}
use enterprise_multi_agent_o.Execution.Models.{JobStatus, ExecutionJob, run, Backend}
use enterprise_multi_agent_o.Execution.Backend.{
  refuse, publish, settle_future, save_state, start, is_full, enqueue,
}

-- The UUIDs that a submission draws: of the job, and of the state that `create_initial` makes.
pub record Uuids : Type 0 where
  pub job_id : String
  pub run_id : String

-- The arguments of `submit_run`.
pub record Submission : Type 0 where
  pub run_id : String
  pub request : String
  pub correlation_id : Option String
  pub session_id : Option String
  pub custom_context : Option Payload
  pub idempotency_key : Option String
  pub subject_id : Option String

abbrev pub queue_full : {A : Type 0} → Result A
queue_full =
    refuse "Execution queue is at maximum capacity. Please retry later." "EXECUTION_QUEUE_FULL" true

-- A job as its class makes it.
abbrev pub new_job :
    (now : ℕ) (job_id : String)
    → Submission
    → (key : Option String) → JobStatus
    → Option OrchestrationState
    → ExecutionJob
new_job now job_id s key status result = record {
  job_id = job_id;
  run_id = s.run_id;
  request = s.request;
  status = status;
  correlation_id = s.correlation_id;
  session_id = s.session_id;
  custom_context = s.custom_context;
  idempotency_key = key;
  submitted_at = now;
  started_at = none;
  completed_at = none;
  is_cancelled = false;
  cancellation_reason = none;
  error = none;
  result = result;
}

-- A job that is made from a run's id and request alone.
abbrev pub bare_job :
    (now : ℕ) (job_id run_id request : String)
    → JobStatus
    → Option OrchestrationState
    → ExecutionJob
bare_job now job_id run_id request status result =
    new_job now job_id
      (record {
        run_id = run_id;
        request = request;
        correlation_id = none;
        session_id = none;
        custom_context = none;
        idempotency_key = none;
        subject_id = none;
      })
      none status result

-- The answer to a submission whose key another run holds.
unfoldable pub join :
    (now : ℕ) (job_id : String)
    → Submission
    → Claim OrchestrationState
    → Backend
    → (ExecutionJob × ℕ) × Backend
unfolding settle_future lookup
join now job_id s c b = (
  (
    or_else (lookup s.run_id b.jobs) (
        bare_job now job_id s.run_id s.request
          (if is_some c.cached_result then JobStatus.completed else JobStatus.running)
          c.cached_result),
    c.future,
  ),
  elim c.cached_result [ none ↦ b | some r ↦ settle_future c.future (resolved r) b ],
)

-- Steps 3 to 5 of `submit_run`, with the future and the key's hash of step 1.
unfoldable pub accept :
    (now max_retries : ℕ) (ids : Uuids)
    → Submission
    → (key_hash : Option String) (future : Option ℕ) → Backend
    → Result (ExecutionJob × ℕ) × Backend
unfolding create_initial set_status save_state insert create_future
accept now max_retries ids s key_hash future b =
    let initial_state =
      create_initial now ids.run_id s.request s.correlation_id s.session_id max_retries
        s.custom_context in
    let initial_state = record initial_state {
      run_id = s.run_id;
      metadata = record initial_state.metadata { status = ExecutionStatus.idle };
    } in
    let job = new_job now ids.job_id s s.idempotency_key JobStatus.queued none in
    let (heap, fresh) = create_future b.ledger.futures in
    let n = or_else future fresh in
    (
      ok (job, n),
      publish s.run_id "run_started" (
          enqueue
            (record {
              run_id = s.run_id;
              work = run s.request s.correlation_id s.session_id s.custom_context;
              future = n;
              key_hash = key_hash;
            })
            (record (save_state initial_state b) {
              jobs = insert s.run_id job b.jobs;
              futures = insert s.run_id n b.futures;
              ledger = record b.ledger {
                futures = if is_some future then b.ledger.futures else heap;
              };
            })),
    )

-- Steps 2 to 5.
unfoldable pub admit :
    (now max_retries : ℕ) (ids : Uuids)
    → Submission
    → (key_hash : Option String) (future : Option ℕ) → Backend
    → Result (ExecutionJob × ℕ) × Backend
unfolding is_full accept
admit now max_retries ids s key_hash future b =
    if is_full b
    then (queue_full, record b { rejections = b.rejections + 1 })
    else accept now max_retries ids s key_hash future b

-- What `submit_run` makes of the ledger's answer, once the ledger is in the backend.
unfoldable pub answer_claim :
    (now max_retries : ℕ) (ids : Uuids)
    → Submission
    → (key_hash : String) → Result (Claim OrchestrationState)
    → Backend
    → Result (ExecutionJob × ℕ) × Backend
unfolding join admit
answer_claim now max_retries ids s key_hash (raises e) b = (raises e, b)
answer_claim now max_retries ids s key_hash (ok c) b =
    if c.is_initiator
    then admit now max_retries ids s (some key_hash) (some c.future) b
    else (let (answer, b) = join now ids.job_id s c b in (ok answer, b))

-- SHA-256 and `json.dumps` are parameters.
module _ (hash : String → String) (dumps : String → Payload → String) where
  unfoldable pub claim_key :
      (now max_retries : ℕ) (ids : Uuids)
      → Submission
      → (key subject : String) → Backend
      → Result (ExecutionJob × ℕ) × Backend
  unfolding acquire_or_join answer_claim compute_key_hash compute_request_hash
  claim_key now max_retries ids s key subject b =
      let key_hash = compute_key_hash hash subject key in
      let (claim, ledger) =
        acquire_or_join now key_hash (compute_request_hash hash dumps s.request s.custom_context)
          s.run_id b.ledger in
      answer_claim now max_retries ids s key_hash claim (record b { ledger = ledger })

  -- Steps 1 to 5 of `submit_run`.
  unfoldable pub claim_and_admit :
      (now max_retries : ℕ) (ids : Uuids)
      → Submission
      → Backend
      → Result (ExecutionJob × ℕ) × Backend
  unfolding claim_key admit nonempty
  claim_and_admit now max_retries ids s b =
      let key = or_else s.idempotency_key "" in
      let subject = or_else s.subject_id "" in
      if nonempty key && nonempty subject
      then claim_key now max_retries ids s key subject b
      else admit now max_retries ids s none none b

  unfoldable pub submit_run :
      (now max_retries : ℕ) (ids : Uuids)
      → Submission
      → Backend
      → Result (ExecutionJob × ℕ) × Backend
  unfolding start claim_and_admit
  submit_run now max_retries ids s b =
      if b.is_shutting_down
      then (refuse "Execution backend is shutting down." "SERVICE_UNAVAILABLE" true, b)
      else claim_and_admit now max_retries ids s (start b)
