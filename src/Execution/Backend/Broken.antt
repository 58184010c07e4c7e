-- ===== src/Execution/Backend/Broken.antt =====
-- execution/local_async.py, `_worker_loop`: what the store has after an item whose runtime raised.
use enterprise_multi_agent_o.Base.{
  ℕ, String, ◌≡◌, ◌≢◌, refl, false, Option, some, List, [], ◌∷◌, ◌==◌, ◌∙◌, ap, string_eq, nat_eq,
  arith, ==-self,
}
use enterprise_multi_agent_o.Base.Lists.{All}
use enterprise_multi_agent_o.Base.Dict.{lookup, lookup-insert}
use enterprise_multi_agent_o.Core.State.{OrchestrationState}
use enterprise_multi_agent_o.Errors.{Exception, orchestrator_error, other, cancelled, raises}
use enterprise_multi_agent_o.Execution.Futures.{rejected}
use enterprise_multi_agent_o.Execution.Models.{JobStatus, ExecutionJob, WorkItem, Backend}
use enterprise_multi_agent_o.Execution.Backend.{settle_future, fail_key, change_job, save_state}
use enterprise_multi_agent_o.Execution.Backend.Workers.{conclude, save_all, finish_item}

save_all-store :
    (r : String) (saved : List OrchestrationState) (b : Backend)
    → All (λ s. (r == s.run_id) ≡ false) saved
    → lookup r (save_all saved b).store ≡ lookup r b.store
unfolding save_state
save_all-store r [] b h = refl
save_all-store r (s ∷ saved) b h =
    ground
      (arith, save_all-store r saved (save_state s b) h.1, lookup-insert r s.run_id s b.store, h.0)

save_all-load :
    (saved : List OrchestrationState) (b : Backend)
    → ((save_all saved b).jobs ≡ b.jobs) × ((save_all saved b).working ≡ b.working)
unfolding save_state
save_all-load [] b = (refl, refl)
save_all-load (s ∷ saved) b =
    let (jobs, working) = save_all-load saved (save_state s b) in (jobs, working)

fail_key-rest :
    (k : Option String) (x : Exception) (b : Backend)
    → ((fail_key k x b).store ≡ b.store) × ((fail_key k x b).jobs ≡ b.jobs)
unfolding fail_key
fail_key-rest k x b = ground arith

-- The job is marked as failed.
pub record IsFailedJob (run_id : String) (b : Backend) : Type 0 where
  pub job : ExecutionJob
  pub found : lookup run_id b.jobs ≡ some job
  pub failed : job.status ≡ JobStatus.failed

change_job-job :
    (r : String) (f : ExecutionJob → ExecutionJob) (job : ExecutionJob) (b : Backend)
    → lookup r b.jobs ≡ some job
    → (lookup r (change_job r f b).jobs ≡ some (f job)) × ((change_job r f b).store ≡ b.store)
unfolding change_job
change_job-job r f job b found = ground (arith, found, lookup-insert r r (f job) b.jobs, ==-self r)

failed_job : (now : ℕ) (text : String) → ExecutionJob → ExecutionJob
failed_job now text j = record j {
  status = JobStatus.failed;
  error = some text;
  completed_at = some now;
}

settled-rest :
    (now : ℕ) (i : WorkItem) (text : String) (x : Exception) (job : ExecutionJob) (b : Backend)
    → lookup i.run_id b.jobs ≡ some job
    → let c =
        fail_key i.key_hash x
          (settle_future i.future (rejected x) (change_job i.run_id (failed_job now text) b)) in
      (c.store ≡ b.store) × IsFailedJob i.run_id c
unfolding settle_future failed_job
settled-rest now i text x job b found =
    let d = settle_future i.future (rejected x) (change_job i.run_id (failed_job now text) b) in
    let (store, jobs) = fail_key-rest i.key_hash x d in
    let (changed, kept) = change_job-job i.run_id (failed_job now text) job b found in
    (
      store ∙ kept,
      record {
        job = failed_job now text job;
        found = ap (λ js. lookup i.run_id js) jobs ∙ changed;
        failed = refl;
      },
    )

conclude_raised :
    (now : ℕ) (i : WorkItem) (x : Exception) (job : ExecutionJob) (b : Backend)
    → x ≢ cancelled
    → lookup i.run_id b.jobs ≡ some job
    → ((conclude now i (raises x) b).store ≡ b.store)
      × IsFailedJob i.run_id (conclude now i (raises x) b)
unfolding conclude failed_job
conclude_raised now i (orchestrator_error e) job b h found =
    let (store, j) = settled-rest now i e.message (orchestrator_error e) job b found in
    (store, record { job = j.job; found = j.found; failed = j.failed })
conclude_raised now i (other t) job b h found =
    let (store, j) = settled-rest now i t (other t) job b found in
    (store, record { job = j.job; found = j.found; failed = j.failed })
conclude_raised now i cancelled job b h found = absurd (h refl)

-- When the runtime of an item has raised, other than by a cancellation, and has saved states of
-- other runs only, the item's job is failed, and the store has of its run what it had before.
pub finish_item-keeps_stored :
    (now w : ℕ) (saved : List OrchestrationState) (x : Exception) (i : WorkItem)
    (job : ExecutionJob) (b : Backend)
    → lookup w b.working ≡ some i
    → lookup i.run_id b.jobs ≡ some job
    → x ≢ cancelled
    → All (λ s. (i.run_id == s.run_id) ≡ false) saved
    → let after = finish_item now w saved (raises x) b in
      (lookup i.run_id after.store ≡ lookup i.run_id b.store) × IsFailedJob i.run_id after
unfolding finish_item
finish_item-keeps_stored now w saved x i job b at found live others =
    let c = save_all saved b in
    let (jobs, working) = save_all-load saved b in
    let (store, j) =
      conclude_raised now i x job c live (ap (λ js. lookup i.run_id js) jobs ∙ found) in
    (
      ground (arith, at, store, save_all-store i.run_id saved b others),
      record { job = j.job; found = ground (arith, at, j.found); failed = j.failed },
    )
