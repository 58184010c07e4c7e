-- ===== src/Execution/Backend/Workers.antt =====
-- `cancel_run`, `_finalize_cancelled` and the workers of execution/local_async.py.
use enterprise_multi_agent_o.Base.{
  ℕ, ◌+◌, String, Bool, true, false, ◌||◌, Option, none, some, List, [], ◌∷◌, ◌++◌, ◌==◌, contains,
  if◌then◌else◌, string_eq, nat_eq,
}
use enterprise_multi_agent_o.Base.Dict.{lookup, insert, erase}
use enterprise_multi_agent_o.Core.Types.{ExecutionStatus}
use enterprise_multi_agent_o.Core.State.{OrchestrationState, set_status}
use enterprise_multi_agent_o.Errors.{cancelled, Result, ok, raises, text_of}
use enterprise_multi_agent_o.Execution.Futures.{resolved, rejected}
use enterprise_multi_agent_o.Execution.Models.{
  JobStatus, ExecutionJob, run, resume, WorkItem, Backend,
}
use enterprise_multi_agent_o.Execution.Backend.{
  publish, settle_future, complete_key, fail_key, change_job, save_state,
}

-- The part of `_finalize_cancelled` between the job and the metrics, for the state found.
unfoldable pub settle_cancelled :
    (now future : ℕ) (key_hash : Option String) → Option OrchestrationState → Backend → Backend
unfolding set_status save_state settle_future complete_key fail_key
settle_cancelled now future key_hash (some s) b =
    let s = set_status now ExecutionStatus.cancelled s in
    complete_key key_hash s (settle_future future (resolved s) (save_state s b))
settle_cancelled now future key_hash none b =
    fail_key key_hash cancelled (settle_future future (rejected cancelled) b)

-- `_finalize_cancelled`
unfoldable pub finalize_cancelled :
    (now : ℕ) (run_id : String) (future : ℕ) (key_hash : Option String) → Backend → Backend
unfolding change_job settle_cancelled lookup
finalize_cancelled now run_id future key_hash b =
    let b =
      change_job run_id
        (λ j. record j {
          status = JobStatus.cancelled;
          is_cancelled = true;
          completed_at = some now;
        })
        b in
    let b = settle_cancelled now future key_hash (lookup run_id b.store) b in
    publish run_id "run_cancelled"
      (record b { cancellations = b.cancellations + 1; audits = b.audits ++ run_id ∷ [] })

-- The statuses in which a run that is not on a worker is cancelled.
abbrev pub is_cancellable : ExecutionStatus → Bool
is_cancellable ExecutionStatus.idle = true
is_cancellable ExecutionStatus.paused_for_human = true
is_cancellable ExecutionStatus.running = true
is_cancellable _ = false

-- `cancel_run` once the run and its job are marked.
unfoldable pub cancel_marked : (now : ℕ) (run_id : String) → Backend → Bool × Backend
unfolding change_job set_status save_state settle_future lookup
cancel_marked now run_id b = elim (lookup run_id b.active_tasks) [
  | some w ↦ (true, record b { cancelling = w ∷ b.cancelling })
  | none ↦ elim (lookup run_id b.store) [
    | none ↦ (false, b)
    | some s ↦
        if is_cancellable s.metadata.status
        then (let s = set_status now ExecutionStatus.cancelled s in
            let b = save_state s b in
            let b : Backend = elim (lookup run_id b.futures) [
              | none ↦ b
              | some n ↦ settle_future n (resolved s) b
            ] in
            let b = change_job run_id (λ j. record j { status = JobStatus.cancelled }) b in
            (
              true,
              publish run_id "run_cancelled" (record b { cancellations = b.cancellations + 1 }),
            ))
        else (false, b)
  ]
]

unfoldable pub cancel_run : (now : ℕ) (run_id reason : String) → Backend → Bool × Backend
unfolding change_job cancel_marked
cancel_run now run_id reason b = cancel_marked now run_id (
    change_job run_id (λ j. record j { is_cancelled = true; cancellation_reason = some reason })
      (record b { cancelled_runs = run_id ∷ b.cancelled_runs }))

unfoldable pub get_job : String → Backend → Option ExecutionJob
unfolding lookup
get_job run_id b = lookup run_id b.jobs

-- The test before a worker starts an item.
unfoldable pub is_cancelled_run : String → Backend → Bool
unfolding lookup
is_cancelled_run run_id b =
    contains b.cancelled_runs run_id
    || elim (lookup run_id b.jobs) [ none ↦ false | some j ↦ j.is_cancelled ]

-- A worker registers an item and goes on until it awaits the runtime.
unfoldable pub begin : (now w : ℕ) → WorkItem → Backend → Backend
unfolding change_job insert save_state set_status
begin now w item b =
    let b =
      change_job item.run_id (λ j. record j { status = JobStatus.running; started_at = some now })
        (record b {
          active_tasks = insert item.run_id w b.active_tasks;
          working = insert w item b.working;
        }) in
    elim item.work [
      | run _ _ _ _ ↦ b
      | resume s _ ↦ save_state (set_status now ExecutionStatus.running s) b
    ]

-- A worker with an item: it goes back to wait if the item was cancelled.
unfoldable pub handle_item : (now w : ℕ) → WorkItem → Backend → Backend
unfolding finalize_cancelled is_cancelled_run begin
handle_item now w i b =
    if is_cancelled_run i.run_id b
    then (let b = finalize_cancelled now i.run_id i.future i.key_hash b in
        record b { idle_workers = b.idle_workers ++ w ∷ [] })
    else begin now w i b

-- The pass of the worker's loop that the first waiting worker makes with the first item. It ends
-- at a sentinel.
unfoldable pub take_first : (now : ℕ) → List (Option WorkItem) → (idle : List ℕ) → Backend → Backend
unfolding handle_item
take_first now [] idle b = b
take_first now (item ∷ queue) [] b = b
take_first now (none ∷ queue) (w ∷ idle) b = record b { queue = queue; idle_workers = idle }
take_first now (some i ∷ queue) (w ∷ idle) b =
    handle_item now w i (record b { queue = queue; idle_workers = idle })

unfoldable pub take_item : (now : ℕ) → Backend → Backend
unfolding take_first
take_item now b = take_first now b.queue b.idle_workers b

-- The state that the runtime returned, under the id of the job. The checkpoints and spans that go
-- with it are not modelled.
unfoldable pub rename_run : String → OrchestrationState → Backend → OrchestrationState × Backend
unfolding save_state
rename_run run_id s b =
    if s.run_id == run_id
    then (s, b)
    else (record s { run_id = run_id }, save_state (record s { run_id = run_id }) b)

abbrev pub job_status : ExecutionStatus → JobStatus
job_status ExecutionStatus.paused_for_human = JobStatus.waiting_for_human
job_status ExecutionStatus.completed = JobStatus.completed
job_status _ = JobStatus.failed

abbrev pub result_event : ExecutionStatus → String
result_event ExecutionStatus.paused_for_human = "human_review_required"
result_event ExecutionStatus.completed = "run_completed"
result_event _ = "run_failed"

abbrev pub is_paused : ExecutionStatus → Bool
is_paused ExecutionStatus.paused_for_human = true
is_paused _ = false

-- The outcome of an item: what the runtime returned or raised.
unfoldable pub conclude : (now : ℕ) → WorkItem → Result OrchestrationState → Backend → Backend
unfolding rename_run change_job settle_future complete_key fail_key finalize_cancelled
conclude now item (ok state) b =
    let (s, b) = rename_run item.run_id state b in
    let status = s.metadata.status in
    let b =
      change_job item.run_id
        (λ j. record j {
          status = job_status status;
          result = some s;
          completed_at = if is_paused status then j.completed_at else some now;
        })
        b in
    publish item.run_id (result_event status)
      (complete_key item.key_hash s (settle_future item.future (resolved s) b))
conclude now item (raises cancelled) b =
    finalize_cancelled now item.run_id item.future item.key_hash b
conclude now item (raises e) b =
    let b =
      change_job item.run_id
        (λ j. record j {
          status = JobStatus.failed;
          error = some (text_of e);
          completed_at = some now;
        })
        b in
    publish item.run_id "run_failed"
      (fail_key item.key_hash e (settle_future item.future (rejected e) b))

abbrev pub save_all : List OrchestrationState → Backend → Backend
save_all [] b = b
save_all (s ∷ ss) b = save_all ss (save_state s b)

-- A worker comes back from the runtime, which has saved some states meanwhile.
unfoldable pub finish_item :
    (now w : ℕ) → (saved : List OrchestrationState) → Result OrchestrationState → Backend → Backend
unfolding conclude lookup erase save_state
finish_item now w saved outcome b = elim (lookup w b.working) [
  | none ↦ b
  | some item ↦
      let b = conclude now item outcome (save_all saved b) in
      record b {
        active_tasks = erase item.run_id b.active_tasks;
        working = erase w b.working;
        idle_workers = b.idle_workers ++ w ∷ [];
      }
]
