-- ===== src/Execution/Tests.antt =====
-- A ledger and a backend with one place in its queue, on which the theorems of this folder are
-- applied.
use enterprise_multi_agent_o.Base.{
  ℕ, String, ◌≡◌, refl, true, false, ◌&&◌, none, some, List, [], ◌∷◌, ◌==◌, string_eq, nat_eq,
  arith, inl,
}
use enterprise_multi_agent_o.Base.Dict.{lookup}
use enterprise_multi_agent_o.Core.Types.{HumanRequestStatus, Payload, nonempty}
use enterprise_multi_agent_o.Core.State.{
  OrchestrationState, HumanDecision, create_initial, request_human_escalation, is_terminal,
}
use enterprise_multi_agent_o.Errors.{other, ok, raises}
use enterprise_multi_agent_o.Execution.Futures.{Futures, waiting, resolved, settle, settle_once}
use enterprise_multi_agent_o.Execution.Ledger.{Ledger, Claim, acquire_or_join, compute_key_hash}
use enterprise_multi_agent_o.Execution.Ledger.Claims.{
  Call, acquiring, completing, Answers, perform_all, acquire_or_join-once,
}
use enterprise_multi_agent_o.Execution.Models.{JobStatus, ExecutionJob, run, WorkItem, Backend}
use enterprise_multi_agent_o.Execution.Backend.{is_full}
use enterprise_multi_agent_o.Execution.Backend.Admission.{
  Uuids, queue_full, bare_job, Submission, submit_run,
}
use enterprise_multi_agent_o.Execution.Backend.Resumption.{submit_resume}
use enterprise_multi_agent_o.Execution.Backend.Workers.{conclude}
use enterprise_multi_agent_o.Execution.Backend.Workers.{cancel_run, finish_item}
use enterprise_multi_agent_o.Execution.Backend.Broken.{IsFailedJob, finish_item-keeps_stored}
use enterprise_multi_agent_o.Execution.Backend.Events.{
  load, Event, submitting, taking, perform_all as perform_all_events,
}
use enterprise_multi_agent_o.Execution.Backend.Bounds.{IsBounded, perform_all-IsBounded}
use enterprise_multi_agent_o.Execution.Backend.Cancelled.{cancelled-never_active}
use enterprise_multi_agent_o.Execution.Backend.Outcomes.{cell, delivery, conclude-delivers}
use enterprise_multi_agent_o.Execution.Backend.Refusals.{
  submit_resume-accepts, submit_run-full_takes_key, IsJoined,
}

abbrev two_cells : Futures ℕ
two_cells = record { cells = (0, resolved 5) ∷ (1, waiting) ∷ []; next = 2 }

settle_once_example : lookup 0 (settle 0 (resolved 6) two_cells).cells ≡ some (resolved 5)
unfolding nat_eq lookup
settle_once_example =
    settle_once 0 0 (resolved 6) (resolved 5) two_cells refl (λ e. ground (arith, e))

abbrev no_claims : Ledger ℕ
no_claims = record { records = []; futures = record { cells = []; next = 0 } }

abbrev first_claim : Claim ℕ
first_claim = record { is_initiator = true; future = 0; cached_result = none }

acquired : (acquire_or_join 1 "k" "q" "run" no_claims).0 ≡ ok first_claim
unfolding acquire_or_join
acquired = refl

abbrev calls : List (Call ℕ)
calls = completing "k" 9 ∷ acquiring 2 "j" "p" "other" ∷ []

acquire_or_join-once_example :
    Answers "q" "q" 0
      (acquire_or_join 3 "k" "q" "late"
        (perform_all calls (acquire_or_join 1 "k" "q" "run" no_claims).1))
      (perform_all calls (acquire_or_join 1 "k" "q" "run" no_claims).1)
acquire_or_join-once_example =
    acquire_or_join-once 1 3 "k" "q" "run" "q" "late" no_claims first_claim calls acquired
      (tt, (tt, tt))

abbrev item : WorkItem
item = record { run_id = "r"; work = run "Do it" none none none; future = 0; key_hash = none }

-- A backend with one worker and a queue of one place, which is taken.
abbrev busy : Backend
busy = record {
  max_concurrency = 1;
  max_queue_size = 1;
  queue = some item ∷ [];
  idle_workers = 0 ∷ [];
  working = [];
  active_tasks = [];
  cancelling = [];
  jobs = [];
  futures = ("r", 0) ∷ [];
  cancelled_runs = [];
  ledger = record { records = []; futures = record { cells = (0, waiting) ∷ []; next = 1 } };
  store = [];
  is_started = true;
  is_shutting_down = false;
  events = [];
  audits = [];
  rejections = 0;
  cancellations = 0;
}

abbrev submission : Submission
submission = record {
  run_id = "s";
  request = "Do more";
  correlation_id = none;
  session_id = none;
  custom_context = none;
  idempotency_key = some "key";
  subject_id = some "ann";
}

abbrev uuids : String → Uuids
uuids job_id = record { job_id = job_id; run_id = "u" }

abbrev same : String → String
same s = s

abbrev request_only : String → Payload → String
request_only request context = request

-- The same backend, once its queue is empty again.
abbrev idle : Backend
idle = record busy { queue = [] }

not_active : lookup "r" busy.active_tasks ≡ none
unfolding lookup
not_active = refl

waits : cell 0 busy ≡ some waiting
unfolding lookup nat_eq
waits = refl

busy-full : is_full busy ≡ true
unfolding is_full
busy-full = refl

named : nonempty "key" && nonempty "ann" ≡ true
unfolding nonempty string_eq
named = refl

key-free : lookup (compute_key_hash same "ann" "key") busy.ledger.records ≡ none
unfolding lookup
key-free = refl

busy-IsBounded : IsBounded (load busy)
busy-IsBounded = (omega arith, omega arith, omega arith, inl refl)

abbrev events : List Event
events = taking 2 ∷ submitting 3 3 (uuids "job") submission ∷ []

perform_all-IsBounded_example : IsBounded (load (perform_all_events same request_only events busy))
perform_all-IsBounded_example = perform_all-IsBounded same request_only events busy busy-IsBounded

cancelled-never_active_example :
    lookup "r"
      (perform_all_events same request_only events (cancel_run 2 "r" "no need" busy).1).active_tasks
    ≡ none
cancelled-never_active_example =
    cancelled-never_active same request_only 2 "r" "no need" events busy not_active (tt, (tt, tt))

conclude-delivers_example :
    cell 0 (conclude 4 item (raises (other "boom")) busy)
    ≡ some (delivery 4 "r" (raises (other "boom")) (lookup "r" busy.store))
conclude-delivers_example = conclude-delivers 4 item (raises (other "boom")) busy waits

abbrev work_job : ExecutionJob
work_job = bare_job 2 "job" "r" "Do it" JobStatus.running none

-- A worker with the item, whose runtime saves the state under an id of its own.
abbrev at_work : Backend
at_work = record busy {
  queue = [];
  idle_workers = [];
  working = (0, item) ∷ [];
  active_tasks = ("r", 0) ∷ [];
  jobs = ("r", work_job) ∷ [];
}

own_state : OrchestrationState
own_state = create_initial 4 "inner" "Do it" none none 3 none

at_work-item : lookup 0 at_work.working ≡ some item
unfolding lookup nat_eq
at_work-item = refl

at_work-job : lookup "r" at_work.jobs ≡ some work_job
unfolding lookup string_eq
at_work-job = refl

own_state-other : ("r" == own_state.run_id) ≡ false
unfolding own_state create_initial string_eq
own_state-other = refl

finish_item-keeps_stored_example :
    (lookup "r" (finish_item 4 0 (own_state ∷ []) (raises (other "boom")) at_work).store
      ≡ lookup "r" at_work.store)
    × IsFailedJob "r" (finish_item 4 0 (own_state ∷ []) (raises (other "boom")) at_work)
finish_item-keeps_stored_example =
    finish_item-keeps_stored 4 0 (own_state ∷ []) (other "boom") item work_job at_work at_work-item
      at_work-job (λ e. ground (arith, e)) (own_state-other, tt)

submit_run-full_takes_key_example :
    ((submit_run same request_only 5 3 (uuids "job") submission busy).0 ≡ queue_full)
    × IsJoined same request_only 9 3
        (uuids "late")
        submission
        idle
        1
        (submit_run same request_only 5 3 (uuids "job") submission busy).1.ledger
submit_run-full_takes_key_example =
    submit_run-full_takes_key same request_only 5 9 3 (uuids "job") (uuids "late") submission busy
      idle (refl, refl) (refl, refl) busy-full named key-free

-- A run that waits for a reviewer.
abbrev paused : OrchestrationState
unfolding create_initial request_human_escalation
paused =
    request_human_escalation 2 "q" "check" "review" [] none
      (create_initial 1 "r" "Do it" none none 3 none)

abbrev reviewing : Backend
reviewing = record idle { store = ("r", paused) ∷ [] }

abbrev approval : HumanDecision
approval = record {
  request_id = "q";
  status = HumanRequestStatus.approved;
  decision_note = none;
  modified_payload = none;
  reviewer_id = none;
  resolved_at = 6;
}

abbrev resumed_job : ExecutionJob
resumed_job = bare_job 6 "job" "r" "Do it" JobStatus.queued none

resumed : (submit_resume 6 "job" "r" approval reviewing).0 ≡ ok (resumed_job, 1)
unfolding submit_resume paused create_initial request_human_escalation string_eq
resumed = refl

submit_resume-accepts_example :
    (reviewing.is_shutting_down ≡ false)
    × (is_full reviewing ≡ false)
    × (s : OrchestrationState) × (lookup "r" reviewing.store ≡ some s)
    × (s.requires_human ≡ true)
    × (is_terminal s.metadata.status ≡ false)
submit_resume-accepts_example =
    submit_resume-accepts 6 "job" "r" approval reviewing (resumed_job, 1) resumed
