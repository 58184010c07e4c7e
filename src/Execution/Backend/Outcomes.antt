-- ===== src/Execution/Backend/Outcomes.antt =====
-- The futures of execution/local_async.py when an item is concluded.
use enterprise_multi_agent_o.Base.{
  ℕ, String, ◌≡◌, Option, none, some, ◌==◌, if◌then◌else◌, string_eq, nat_eq, ap, ◌∙◌, ◌≢◌, inl,
  inr, Option-cases, arith,
}
use enterprise_multi_agent_o.Base.Dict.{lookup}
use enterprise_multi_agent_o.Core.Types.{ExecutionStatus}
use enterprise_multi_agent_o.Core.State.{OrchestrationState, set_status}
use enterprise_multi_agent_o.Errors.{
  Exception, orchestrator_error, other, cancelled, Result, ok, raises,
}
use enterprise_multi_agent_o.Execution.Futures.{FutureState, waiting, resolved, rejected}
use enterprise_multi_agent_o.Execution.Ledger.{Ledger, complete, fail}
use enterprise_multi_agent_o.Execution.Models.{ExecutionJob, WorkItem, Backend}
use enterprise_multi_agent_o.Execution.Backend.{
  settle_future, complete_key, fail_key, change_job, save_state,
}
use enterprise_multi_agent_o.Execution.Backend.Workers.{
  settle_cancelled, finalize_cancelled, rename_run, conclude,
}
use enterprise_multi_agent_o.Execution.Futures.{settle_once, settle-resolves}

-- The cell of a future.
abbrev pub cell : ℕ → Backend → Option (FutureState OrchestrationState)
cell n b = lookup n b.ledger.futures.cells

cell-settle_future :
    (n : ℕ) (s : FutureState OrchestrationState) (b : Backend)
    → cell n b ≡ some waiting
    → cell n (settle_future n s b) ≡ some s
unfolding settle_future
cell-settle_future n s b e = settle-resolves n s b.ledger.futures e

complete_key-cell :
    (n : ℕ) (t : FutureState OrchestrationState) (k : Option String) (s : OrchestrationState)
    (b : Backend)
    → t ≢ waiting
    → cell n b ≡ some t
    → cell n (complete_key k s b) ≡ some t
unfolding complete_key complete
complete_key-cell n t none s b d e = e
complete_key-cell n t (some k) s b d e = elim (Option-cases (lookup k b.ledger.records)) [
  | inl g ↦ ground (arith, e, g)
  | inr (r, g) ↦ ground (arith, g, settle_once r.future n (resolved s) t b.ledger.futures e d)
]

fail_key-cell :
    (n : ℕ) (t : FutureState OrchestrationState) (k : Option String) (x : Exception) (b : Backend)
    → t ≢ waiting
    → cell n b ≡ some t
    → cell n (fail_key k x b) ≡ some t
unfolding fail_key fail
fail_key-cell n t none x b d e = e
fail_key-cell n t (some k) x b d e = elim (Option-cases (lookup k b.ledger.records)) [
  | inl g ↦ ground (arith, e, g)
  | inr (r, g) ↦ ground (arith, g, settle_once r.future n (rejected x) t b.ledger.futures e d)
]

-- What an item's future is to deliver, by the outcome and the state stored for the run.
abbrev pub delivery :
    (now : ℕ) (run_id : String)
    → Result OrchestrationState
    → Option OrchestrationState
    → FutureState OrchestrationState
delivery now run_id (ok s) stored =
    resolved (if s.run_id == run_id then s else record s { run_id = run_id })
delivery now run_id (raises cancelled) none = rejected cancelled
delivery now run_id (raises cancelled) (some s) =
    resolved (set_status now ExecutionStatus.cancelled s)
delivery now run_id (raises e) stored = rejected e

change_job-ledger :
    (r : String) (f : ExecutionJob → ExecutionJob) (b : Backend)
    → (change_job r f b).ledger ≡ b.ledger
unfolding change_job
change_job-ledger r f b = ground arith

rename_run-ledger :
    (r : String) (s : OrchestrationState) (b : Backend) → (rename_run r s b).1.ledger ≡ b.ledger
unfolding rename_run save_state
rename_run-ledger r s b = ground arith

rename_run-state :
    (r : String) (s : OrchestrationState) (b : Backend)
    → (rename_run r s b).0 ≡ (if s.run_id == r then s else record s { run_id = r })
unfolding rename_run
rename_run-state r s b = ground arith

resolved-done : (s : OrchestrationState) → resolved s ≢ waiting
resolved-done s e = ground (arith, e)

rejected-done : (x : Exception) → ◌≢◌ {A = FutureState OrchestrationState} (rejected x) waiting
rejected-done x e = ground (arith, e)

-- The cells of a ledger, to carry a fact along an equation of ledgers.
HasCell : ℕ → FutureState OrchestrationState → Ledger OrchestrationState → Type 0
HasCell n s l = lookup n l.futures.cells ≡ some s

conclude_ok-cell :
    (now : ℕ) (i : WorkItem) (s : OrchestrationState) (stored : Option OrchestrationState)
    (b : Backend)
    → cell i.future b ≡ some waiting
    → cell i.future (conclude now i (ok s) b) ≡ some (delivery now i.run_id (ok s) stored)
unfolding conclude
conclude_ok-cell now i s stored b e =
    let t = (rename_run i.run_id s b).0 in
    let c = (rename_run i.run_id s b).1 in
    complete_key-cell i.future (resolved t) i.key_hash t _ (resolved-done t) (
      cell-settle_future i.future (resolved t) (change_job i.run_id _ c) (
        ap (λ l. lookup i.future l.futures.cells)
          (change_job-ledger i.run_id _ c ∙ rename_run-ledger i.run_id s b)
        ∙ e))
    ∙ ap (λ u. some (resolved u)) (rename_run-state i.run_id s b)

fail-cell :
    (x : Exception) (i : WorkItem) (f : ExecutionJob → ExecutionJob) (b : Backend)
    → cell i.future b ≡ some waiting
    → cell i.future
        (fail_key i.key_hash x (settle_future i.future (rejected x) (change_job i.run_id f b)))
      ≡ some (rejected x)
fail-cell x i f b e = fail_key-cell i.future (rejected x) i.key_hash x _ (rejected-done x) (
    cell-settle_future i.future (rejected x) (change_job i.run_id f b)
      (ap (λ l. lookup i.future l.futures.cells) (change_job-ledger i.run_id f b) ∙ e))

change_job-store :
    (r : String) (f : ExecutionJob → ExecutionJob) (b : Backend)
    → (change_job r f b).store ≡ b.store
unfolding change_job
change_job-store r f b = ground arith

settle_cancelled-cell :
    (now n : ℕ) (k : Option String) (r : String) (stored : Option OrchestrationState) (b : Backend)
    → cell n b ≡ some waiting
    → cell n (settle_cancelled now n k stored b) ≡ some (delivery now r (raises cancelled) stored)
unfolding settle_cancelled save_state
settle_cancelled-cell now n k r (some s) b e =
    complete_key-cell n _ k _ _ (resolved-done _)
      (cell-settle_future n _ (save_state (set_status now ExecutionStatus.cancelled s) b) e)
settle_cancelled-cell now n k r none b e =
    fail_key-cell n _ k cancelled _ (rejected-done cancelled) (cell-settle_future n _ b e)

pub finalize_cancelled-delivers :
    (now : ℕ) (r : String) (n : ℕ) (k : Option String) (b : Backend)
    → cell n b ≡ some waiting
    → cell n (finalize_cancelled now r n k b)
      ≡ some (delivery now r (raises cancelled) (lookup r b.store))
unfolding finalize_cancelled
finalize_cancelled-delivers now r n k b e =
    settle_cancelled-cell now n k r _ (change_job r _ b)
      (ap (λ l. lookup n l.futures.cells) (change_job-ledger r _ b) ∙ e)
    ∙ ap (λ st. some (delivery now r (raises cancelled) (lookup r st))) (change_job-store r _ b)

-- When the runtime has returned or raised, the future of the item, if it still waits, gets the
-- returned state under the run's id, or the exception. After a cancellation it gets the stored
-- state of the run, now CANCELLED, or where there is none the cancellation as an exception.
pub conclude-delivers :
    (now : ℕ) (i : WorkItem) (o : Result OrchestrationState) (b : Backend)
    → cell i.future b ≡ some waiting
    → cell i.future (conclude now i o b) ≡ some (delivery now i.run_id o (lookup i.run_id b.store))
unfolding conclude
conclude-delivers now i (ok s) b e = conclude_ok-cell now i s (lookup i.run_id b.store) b e
conclude-delivers now i (raises cancelled) b e =
    finalize_cancelled-delivers now i.run_id i.future i.key_hash b e
conclude-delivers now i (raises (other x)) b e = fail-cell (other x) i _ b e
conclude-delivers now i (raises (orchestrator_error x)) b e =
    fail-cell (orchestrator_error x) i _ b e
