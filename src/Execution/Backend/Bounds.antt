-- ===== src/Execution/Backend/Bounds.antt =====
-- The bounds on the queue and on the workers of execution/local_async.py.
use enterprise_multi_agent_o.Base.{
  ℕ, zero, suc, ◌+◌, String, ◌≡◌, Bool, true, false, Option, none, some, List, [], ◌∷◌, ◌++◌,
  if◌then◌else◌, string_eq, nat_eq, or_else, sym, ap, subst, ◌≤◌, ◌<◌, ◌⊎◌, inl, inr, Option-cases,
  arith,
}
use enterprise_multi_agent_o.Base.Dict.{Dict, lookup, insert, erase}
use enterprise_multi_agent_o.Base.Lists.{length, length-append}
use enterprise_multi_agent_o.Core.Types.{Payload}
use enterprise_multi_agent_o.Core.State.{OrchestrationState, HumanDecision}
use enterprise_multi_agent_o.Errors.{Result, ok, raises}
use enterprise_multi_agent_o.Execution.Ledger.{Claim}
use enterprise_multi_agent_o.Execution.Models.{run, resume, WorkItem, Backend}
use enterprise_multi_agent_o.Execution.Backend.{
  worker_ids, settle_future, change_job, save_state, start, is_full,
}
use enterprise_multi_agent_o.Execution.Backend.Admission.{
  Uuids, Submission, join, accept, admit, answer_claim, claim_key, claim_and_admit, submit_run,
}
use enterprise_multi_agent_o.Execution.Backend.Resumption.{requeue, submit_resume}
use enterprise_multi_agent_o.Execution.Backend.Workers.{
  finalize_cancelled, cancel_marked, cancel_run, is_cancelled_run, begin, handle_item, take_first,
  save_all, finish_item,
}
use enterprise_multi_agent_o.Execution.Backend.Events.{
  Event, submitting, resuming, stopping, taking, finishing, perform, perform_all, Load, load,
  load-save_all, load-finalize_cancelled, load-conclude,
}

-- The queue keeps to its size, and the workers, waiting or not, to their number. No worker has an
-- item before the backend starts.
abbrev pub IsBounded : Load → Type 0
IsBounded l =
    (0 < l.max_queue_size)
    × (length l.queue ≤ l.max_queue_size)
    × (length l.idle_workers + length l.working ≤ l.max_concurrency)
    × ((l.is_started ≡ true) ⊎ ((l.idle_workers ≡ []) × (l.working ≡ [])))

length-worker_ids : (n : ℕ) (ws : List ℕ) → length (worker_ids n ws) ≡ n + length ws
length-worker_ids zero ws = omega arith
length-worker_ids (suc n) ws = omega (arith, length-worker_ids n (n ∷ ws))

length-insert :
    (w : ℕ) (i : WorkItem) (d : Dict ℕ WorkItem) → length (insert w i d) ≤ suc (length d)
unfolding insert
length-insert w i [] = omega arith
length-insert w i ((v, j) ∷ d) = ground (arith, length-insert w i d)

length-erase-le : (w : ℕ) (d : Dict ℕ WorkItem) → length (erase w d) ≤ length d
unfolding erase
length-erase-le w [] = omega arith
length-erase-le w ((v, j) ∷ d) = ground (arith, length-erase-le w d)

length-erase :
    (w : ℕ) (i : WorkItem) (d : Dict ℕ WorkItem)
    → lookup w d ≡ some i
    → length (erase w d) < length d
unfolding erase lookup
length-erase w i [] e = absurd (ground (arith, e))
length-erase w i ((v, j) ∷ d) e = ground (arith, e, length-erase w i d, length-erase-le w d)

start-IsBounded : (b : Backend) → IsBounded (load b) → IsBounded (load (start b))
unfolding start
start-IsBounded b h = ground (arith, h, length-worker_ids b.max_concurrency [])

admit-IsBounded :
    (now m : ℕ) (j : Uuids) (s : Submission) (k : Option String) (n : Option ℕ) (b : Backend)
    → IsBounded (load b)
    → IsBounded (load (admit now m j s k n b).1)
unfolding admit accept is_full save_state
admit-IsBounded now m j s k n b h = ground (
  arith,
  h,
  length-append b.queue (
      some (record {
        run_id = s.run_id;
        work = run s.request s.correlation_id s.session_id s.custom_context;
        future = or_else n b.ledger.futures.next;
        key_hash = k;
      })
      ∷ []),
)

-- An operation that leaves the load alone keeps the bounds.
same-IsBounded : (l m : Load) → m ≡ l → IsBounded l → IsBounded m
same-IsBounded l m e h = subst IsBounded (sym e) h

join-load :
    (now : ℕ) (j : String) (s : Submission) (c : Claim OrchestrationState) (b : Backend)
    → load (join now j s c b).1 ≡ load b
unfolding join settle_future
join-load now j s c b = ground arith

requeue-IsBounded :
    (now : ℕ) (j r : String) (d : HumanDecision) (s : OrchestrationState) (b : Backend)
    → IsBounded (load b)
    → IsBounded (load (requeue now j r d s b).1)
unfolding requeue is_full
requeue-IsBounded now j r d s b h = ground (
  arith,
  h,
  length-append b.queue (
      some
        (record { run_id = r; work = resume s d; future = b.ledger.futures.next; key_hash = none })
      ∷ []),
)

submit_resume-IsBounded :
    (now : ℕ) (j r : String) (d : HumanDecision) (b : Backend)
    → IsBounded (load b)
    → IsBounded (load (submit_resume now j r d b).1)
unfolding submit_resume
submit_resume-IsBounded now j r d b h = elim (Option-cases (lookup r (start b).store)) [
  | inl e ↦ ground (arith, e, h, start-IsBounded b h)
  | inr (s, e) ↦ ground (
    arith,
    e,
    h,
    start-IsBounded b h,
    requeue-IsBounded now j r d s (start b) (start-IsBounded b h),
  )
]

pub cancel_run-load :
    (now : ℕ) (r reason : String) (b : Backend)
    → load (cancel_run now r reason b).1 ≡ record (load b) { cancelled_runs = r ∷ b.cancelled_runs }
unfolding cancel_run cancel_marked change_job save_state settle_future
cancel_run-load now r reason b = ground arith

begin-load :
    (now w : ℕ) (i : WorkItem) (b : Backend)
    → load (begin now w i b) ≡ record (load b) {
      active_tasks = insert i.run_id w b.active_tasks;
      working = insert w i b.working;
    }
unfolding begin change_job save_state
begin-load now w i b = ground arith

-- What handling an item makes of the load.
abbrev pub handled : (cancelled_ : Bool) (w : ℕ) → WorkItem → Load → Load
handled true w i l = record l { idle_workers = l.idle_workers ++ w ∷ [] }
handled false w i l = record l {
  active_tasks = insert i.run_id w l.active_tasks;
  working = insert w i l.working;
}

pub handle_item-load :
    (now w : ℕ) (i : WorkItem) (b : Backend)
    → load (handle_item now w i b) ≡ handled (is_cancelled_run i.run_id b) w i (load b)
unfolding handle_item
handle_item-load now w i b =
    let c = finalize_cancelled now i.run_id i.future i.key_hash b in
    elim (is_cancelled_run i.run_id b)
      as (λ t.
        load (if t then record c { idle_workers = c.idle_workers ++ w ∷ [] } else begin now w i b)
        ≡ handled t w i (load b)) [
          | true ↦
              ap (handled true w i) (load-finalize_cancelled now i.run_id i.future i.key_hash b)
          | false ↦ begin-load now w i b
        ]

handled-IsBounded :
    (t : Bool) (w : ℕ) (i : WorkItem) (l : Load)
    → IsBounded (record l { idle_workers = w ∷ l.idle_workers })
    → IsBounded (handled t w i l)
handled-IsBounded true w i l h = ground (arith, h, length-append l.idle_workers (w ∷ []))
handled-IsBounded false w i l h = ground (arith, h, length-insert w i l.working)

take_first-IsBounded :
    (now : ℕ) (queue : List (Option WorkItem)) (idle : List ℕ) (b : Backend)
    → IsBounded (load b)
    → IsBounded (record (load b) { queue = queue; idle_workers = idle })
    → IsBounded (load (take_first now queue idle b))
unfolding take_first
take_first-IsBounded now [] idle b g h = g
take_first-IsBounded now (x ∷ queue) [] b g h = g
take_first-IsBounded now (none ∷ queue) (w ∷ idle) b g h = ground (arith, h)
take_first-IsBounded now (some i ∷ queue) (w ∷ idle) b g h =
    let c : Backend = record b { queue = queue; idle_workers = idle } in
    subst IsBounded (sym (handle_item-load now w i c))
      (handled-IsBounded (is_cancelled_run i.run_id c) w i (load c) (ground (arith, h)))

finish_item-IsBounded :
    (now w : ℕ) (saved : List OrchestrationState) (o : Result OrchestrationState) (b : Backend)
    → IsBounded (load b)
    → IsBounded (load (finish_item now w saved o b))
unfolding finish_item
finish_item-IsBounded now w saved o b h = elim (Option-cases (lookup w b.working)) [
  | inl e ↦ ground (arith, e, h)
  | inr (i, e) ↦ ground (
    arith,
    e,
    h,
    length-erase w i b.working e,
    load-conclude now i o (save_all saved b),
    load-save_all saved b,
    length-append b.idle_workers (w ∷ []),
  )
]

answer_claim-IsBounded :
    (now m : ℕ) (j : Uuids) (s : Submission) (k : String) (c : Result (Claim OrchestrationState))
    (b : Backend)
    → IsBounded (load b)
    → IsBounded (load (answer_claim now m j s k c b).1)
unfolding answer_claim
answer_claim-IsBounded now m j s k (raises e) b h = h
answer_claim-IsBounded now m j s k (ok c) b h =
    ground (
      arith,
      h,
      admit-IsBounded now m j s (some k) (some c.future) b h,
      join-load now j.job_id s c b,
    )

module _ (hash : String → String) (dumps : String → Payload → String) where
  claim_key-IsBounded :
      (now m : ℕ) (j : Uuids) (s : Submission) (key subject : String) (b : Backend)
      → IsBounded (load b)
      → IsBounded (load (claim_key hash dumps now m j s key subject b).1)
  unfolding claim_key
  claim_key-IsBounded now m j s key subject b h =
      answer_claim-IsBounded now m j s _ _ (record b { ledger = _ }) h

  claim_and_admit-IsBounded :
      (now m : ℕ) (j : Uuids) (s : Submission) (b : Backend)
      → IsBounded (load b)
      → IsBounded (load (claim_and_admit hash dumps now m j s b).1)
  unfolding claim_and_admit
  claim_and_admit-IsBounded now m j s b h = ground (
    arith,
    h,
    admit-IsBounded now m j s none none b h,
    claim_key-IsBounded now m j s (or_else s.idempotency_key "") (or_else s.subject_id "") b h,
  )

  submit_run-IsBounded :
      (now m : ℕ) (j : Uuids) (s : Submission) (b : Backend)
      → IsBounded (load b)
      → IsBounded (load (submit_run hash dumps now m j s b).1)
  unfolding submit_run
  submit_run-IsBounded now m j s b h =
      ground (arith, h, claim_and_admit-IsBounded now m j s (start b) (start-IsBounded b h))

  perform-IsBounded :
      (e : Event) (b : Backend) → IsBounded (load b) → IsBounded (load (perform hash dumps e b))
  unfolding perform
  perform-IsBounded (submitting now m j s) b h = submit_run-IsBounded now m j s b h
  perform-IsBounded (resuming now j r d) b h = submit_resume-IsBounded now j r d b h
  perform-IsBounded (stopping now r reason) b h = ground (arith, h, cancel_run-load now r reason b)
  perform-IsBounded (taking now) b h = take_first-IsBounded now b.queue b.idle_workers b h h
  perform-IsBounded (finishing now w saved o) b h = finish_item-IsBounded now w saved o b h

  -- Submissions, resumptions, cancellations and the workers' steps, in any order, keep the queue
  -- within a size that is not 0 and the workers, those with an item and those without, within the
  -- number that the backend was made with.
  pub perform_all-IsBounded :
      (events : List Event) (b : Backend)
      → IsBounded (load b)
      → IsBounded (load (perform_all hash dumps events b))
  unfolding perform_all
  perform_all-IsBounded [] b h = h
  perform_all-IsBounded (e ∷ events) b h =
      perform_all-IsBounded events (perform hash dumps e b) (perform-IsBounded e b h)
