-- ===== src/Execution/Backend/Events.antt =====
-- The events of the backend of execution/local_async.py, in any order, and what each leaves alone.
use enterprise_multi_agent_o.Base.{
  ℕ, String, ◌≡◌, refl, Bool, Option, none, some, List, [], ◌∷◌, string_eq, nat_eq, ◌∙◌, inl, inr,
  Option-cases, arith,
}
use enterprise_multi_agent_o.Base.Dict.{Dict}
use enterprise_multi_agent_o.Core.Types.{ExecutionStatus, Payload}
use enterprise_multi_agent_o.Core.State.{OrchestrationState, HumanDecision, set_status}
use enterprise_multi_agent_o.Errors.{
  Exception, orchestrator_error, other, cancelled, Result, ok, raises,
}
use enterprise_multi_agent_o.Execution.Futures.{FutureState, resolved, rejected}
use enterprise_multi_agent_o.Execution.Models.{ExecutionJob, WorkItem, Backend}
use enterprise_multi_agent_o.Execution.Backend.{
  settle_future, complete_key, fail_key, change_job, save_state,
}
use enterprise_multi_agent_o.Execution.Backend.Admission.{Uuids, Submission, submit_run}
use enterprise_multi_agent_o.Execution.Backend.Resumption.{submit_resume}
use enterprise_multi_agent_o.Execution.Backend.Workers.{
  settle_cancelled, finalize_cancelled, cancel_run, take_item, rename_run, conclude, save_all,
  finish_item,
}

pub data Event : Type 0 where
  submitting : (now max_retries : ℕ) (ids : Uuids) → Submission → Event
  resuming : (now : ℕ) (job_id run_id : String) → HumanDecision → Event
  stopping : (now : ℕ) (run_id reason : String) → Event
  taking : (now : ℕ) → Event
  finishing : (now w : ℕ) → (saved : List OrchestrationState) → Result OrchestrationState → Event

module _ (hash : String → String) (dumps : String → Payload → String) where
  unfoldable pub perform : Event → Backend → Backend
  unfolding submit_run submit_resume cancel_run take_item finish_item
  perform (submitting now max_retries ids s) b = (submit_run hash dumps now max_retries ids s b).1
  perform (resuming now job_id run_id d) b = (submit_resume now job_id run_id d b).1
  perform (stopping now run_id reason) b = (cancel_run now run_id reason b).1
  perform (taking now) b = take_item now b
  perform (finishing now w saved outcome) b = finish_item now w saved outcome b

  unfoldable pub perform_all : List Event → Backend → Backend
  unfolding perform
  perform_all [] b = b
  perform_all (e ∷ events) b = perform_all events (perform e b)

-- The queue, the workers and the marks of cancellation, which most helpers leave alone.
pub record Load : Type 0 where
  pub max_concurrency : ℕ
  pub max_queue_size : ℕ
  pub queue : List (Option WorkItem)
  pub idle_workers : List ℕ
  pub working : Dict ℕ WorkItem
  pub active_tasks : Dict String ℕ
  pub cancelled_runs : List String
  pub is_started : Bool

abbrev pub load : Backend → Load
load b = record {
  max_concurrency = b.max_concurrency;
  max_queue_size = b.max_queue_size;
  queue = b.queue;
  idle_workers = b.idle_workers;
  working = b.working;
  active_tasks = b.active_tasks;
  cancelled_runs = b.cancelled_runs;
  is_started = b.is_started;
}

pub load-change_job :
    (r : String) (f : ExecutionJob → ExecutionJob) (b : Backend) → load (change_job r f b) ≡ load b
unfolding change_job
load-change_job r f b = ground arith

pub load-settle_future :
    (n : ℕ) (s : FutureState OrchestrationState) (b : Backend) → load (settle_future n s b) ≡ load b
unfolding settle_future
load-settle_future n s b = ground arith

pub load-complete_key :
    (k : Option String) (s : OrchestrationState) (b : Backend) → load (complete_key k s b) ≡ load b
unfolding complete_key
load-complete_key none s b = refl
load-complete_key (some k) s b = refl

pub load-fail_key :
    (k : Option String) (x : Exception) (b : Backend) → load (fail_key k x b) ≡ load b
unfolding fail_key
load-fail_key none x b = refl
load-fail_key (some k) x b = refl

pub load-save_all : (ss : List OrchestrationState) (b : Backend) → load (save_all ss b) ≡ load b
unfolding save_state
load-save_all [] b = refl
load-save_all (s ∷ ss) b = load-save_all ss (save_state s b)

load-settle_cancelled :
    (now n : ℕ) (k : Option String) (s : Option OrchestrationState) (b : Backend)
    → load (settle_cancelled now n k s b) ≡ load b
unfolding settle_cancelled save_state
load-settle_cancelled now n k (some s) b =
    let s' = set_status now ExecutionStatus.cancelled s in
    load-complete_key k s' (settle_future n (resolved s') (save_state s' b))
    ∙ load-settle_future n (resolved s') (save_state s' b)
load-settle_cancelled now n k none b =
    load-fail_key k cancelled (settle_future n (rejected cancelled) b)
    ∙ load-settle_future n (rejected cancelled) b

pub load-finalize_cancelled :
    (now : ℕ) (r : String) (n : ℕ) (k : Option String) (b : Backend)
    → load (finalize_cancelled now r n k b) ≡ load b
unfolding finalize_cancelled
load-finalize_cancelled now r n k b = load-settle_cancelled now n k _ _ ∙ load-change_job r _ b

pub load-conclude :
    (now : ℕ) (i : WorkItem) (o : Result OrchestrationState) (b : Backend)
    → load (conclude now i o b) ≡ load b
unfolding conclude rename_run save_state change_job settle_future complete_key fail_key
load-conclude now i (ok s) b = elim (Option-cases i.key_hash) [
  | inl e ↦ ground (arith, e)
  | inr (k, e) ↦ ground (arith, e)
]
load-conclude now i (raises cancelled) b =
    load-finalize_cancelled now i.run_id i.future i.key_hash b
load-conclude now i (raises (other x)) b = ground arith
load-conclude now i (raises (orchestrator_error x)) b = ground arith
