-- ===== src/Execution/Backend/Cancelled.antt =====
-- Cancelled runs in execution/local_async.py, over events in any order.
use enterprise_multi_agent_o.Base.{
  ℕ, String, ◌≡◌, Bool, true, false, not, Option, none, some, List, [], ◌∷◌, ◌==◌, contains,
  string_eq, nat_eq, or_else, sym, ap, subst, ◌≢◌, inl, inr, Option-cases, arith,
}
use enterprise_multi_agent_o.Base.Dict.{lookup, lookup-insert, lookup-erase}
use enterprise_multi_agent_o.Base.Lists.{select}
use enterprise_multi_agent_o.Core.Types.{Payload}
use enterprise_multi_agent_o.Core.State.{OrchestrationState, HumanDecision}
use enterprise_multi_agent_o.Errors.{Result, ok, raises}
use enterprise_multi_agent_o.Execution.Ledger.{
  Claim, acquire_or_join, compute_key_hash, compute_request_hash,
}
use enterprise_multi_agent_o.Execution.Models.{WorkItem, Backend}
use enterprise_multi_agent_o.Execution.Backend.{settle_future, save_state, start}
use enterprise_multi_agent_o.Execution.Backend.Admission.{
  Uuids, Submission, join, accept, admit, answer_claim, claim_key, claim_and_admit, submit_run,
}
use enterprise_multi_agent_o.Execution.Backend.Resumption.{requeue, submit_resume}
use enterprise_multi_agent_o.Execution.Backend.Workers.{
  cancel_run, is_cancelled_run, take_first, take_item, save_all, finish_item,
}
use enterprise_multi_agent_o.Execution.Backend.Events.{
  Event, submitting, resuming, stopping, taking, finishing, perform, perform_all, Load, load,
  load-save_all, load-conclude,
}
use enterprise_multi_agent_o.Execution.Backend.Bounds.{handled, handle_item-load, cancel_run-load}

-- The run is marked as cancelled and no worker has it.
abbrev pub IsStopped : String → Load → Type 0
IsStopped r l = (contains l.cancelled_runs r ≡ true) × (lookup r l.active_tasks ≡ none)

-- The event is not a resumption of the run.
abbrev pub IsNoResume : String → Event → Type 0
IsNoResume r (submitting now m j s) = Unit
IsNoResume r (resuming now j run_id d) = r ≢ run_id
IsNoResume r (stopping now run_id reason) = Unit
IsNoResume r (taking now) = Unit
IsNoResume r (finishing now w saved o) = Unit

abbrev pub NoResumes : String → List Event → Type 0
NoResumes r [] = Unit
NoResumes r (e ∷ events) = IsNoResume r e × NoResumes r events

admit-IsStopped :
    (r : String) (now m : ℕ) (j : Uuids) (s : Submission) (k : Option String) (n : Option ℕ)
    (b : Backend)
    → IsStopped r (load b)
    → IsStopped r (load (admit now m j s k n b).1)
unfolding admit accept save_state
admit-IsStopped r now m j s k n b h = ground (arith, h)

join-IsStopped :
    (r : String) (now : ℕ) (j : String) (s : Submission) (c : Claim OrchestrationState)
    (b : Backend)
    → IsStopped r (load b)
    → IsStopped r (load (join now j s c b).1)
unfolding join settle_future
join-IsStopped r now j s c b h = ground (arith, h)

answer_claim-IsStopped :
    (r : String) (now m : ℕ) (j : Uuids) (s : Submission) (k : String)
    (c : Result (Claim OrchestrationState)) (b : Backend)
    → IsStopped r (load b)
    → IsStopped r (load (answer_claim now m j s k c b).1)
unfolding answer_claim
answer_claim-IsStopped r now m j s k (raises e) b h = h
answer_claim-IsStopped r now m j s k (ok c) b h = ground (
  arith,
  h,
  admit-IsStopped r now m j s (some k) (some c.future) b h,
  join-IsStopped r now j.job_id s c b h,
)

start-IsStopped : (r : String) (b : Backend) → IsStopped r (load b) → IsStopped r (load (start b))
unfolding start
start-IsStopped r b h = ground (arith, h)

contains-discard :
    (r s : String) (rs : List String)
    → r ≢ s
    → contains rs r ≡ true
    → contains (select (λ x. not (x == s)) rs) r ≡ true
contains-discard r s [] d h = h
contains-discard r s (x ∷ rs) d h = ground (arith, d, h, contains-discard r s rs d)

requeue-IsStopped :
    (r : String) (now : ℕ) (j run_id : String) (d : HumanDecision) (s : OrchestrationState)
    (b : Backend)
    → r ≢ run_id
    → IsStopped r (load b)
    → IsStopped r (load (requeue now j run_id d s b).1)
unfolding requeue
requeue-IsStopped r now j run_id d s b n h =
    ground (arith, h, contains-discard r run_id b.cancelled_runs n)

submit_resume-IsStopped :
    (r : String) (now : ℕ) (j run_id : String) (d : HumanDecision) (b : Backend)
    → r ≢ run_id
    → IsStopped r (load b)
    → IsStopped r (load (submit_resume now j run_id d b).1)
unfolding submit_resume
submit_resume-IsStopped r now j run_id d b n h =
    elim (Option-cases (lookup run_id (start b).store)) [
      | inl e ↦ ground (arith, e, h, start-IsStopped r b h)
      | inr (s, e) ↦ ground (
        arith,
        e,
        h,
        start-IsStopped r b h,
        requeue-IsStopped r now j run_id d s (start b) n (start-IsStopped r b h),
      )
    ]

stopped-is_cancelled_run :
    (r i : String) (b : Backend) → IsStopped r (load b) → i ≡ r → is_cancelled_run i b ≡ true
unfolding is_cancelled_run
stopped-is_cancelled_run r i b h e = ground (arith, h, ap (contains b.cancelled_runs) e)

handled-IsStopped :
    (r : String) (t : Bool) (w : ℕ) (i : WorkItem) (l : Load)
    → IsStopped r l
    → (i.run_id ≡ r → t ≡ true)
    → IsStopped r (handled t w i l)
handled-IsStopped r true w i l h f = h
handled-IsStopped r false w i l h f =
    ground (arith, h, f, lookup-insert r i.run_id w l.active_tasks)

take_first-IsStopped :
    (r : String) (now : ℕ) (queue : List (Option WorkItem)) (idle : List ℕ) (b : Backend)
    → IsStopped r (load b)
    → IsStopped r (load (take_first now queue idle b))
unfolding take_first
take_first-IsStopped r now [] idle b h = h
take_first-IsStopped r now (x ∷ queue) [] b h = h
take_first-IsStopped r now (none ∷ queue) (w ∷ idle) b h = h
take_first-IsStopped r now (some i ∷ queue) (w ∷ idle) b h =
    let c : Backend = record b { queue = queue; idle_workers = idle } in
    subst (IsStopped r) (sym (handle_item-load now w i c)) (
      handled-IsStopped r (is_cancelled_run i.run_id c) w i (load c) h
        (stopped-is_cancelled_run r i.run_id c h))

finish_item-IsStopped :
    (r : String) (now w : ℕ) (saved : List OrchestrationState) (o : Result OrchestrationState)
    (b : Backend)
    → IsStopped r (load b)
    → IsStopped r (load (finish_item now w saved o b))
unfolding finish_item
finish_item-IsStopped r now w saved o b h = elim (Option-cases (lookup w b.working)) [
  | inl e ↦ ground (arith, e, h)
  | inr (i, e) ↦ ground (
    arith,
    e,
    h,
    lookup-erase r i.run_id b.active_tasks,
    load-conclude now i o (save_all saved b),
    load-save_all saved b,
  )
]

module _ (hash : String → String) (dumps : String → Payload → String) where
  submit_run-IsStopped :
      (r : String) (now m : ℕ) (j : Uuids) (s : Submission) (b : Backend)
      → IsStopped r (load b)
      → IsStopped r (load (submit_run hash dumps now m j s b).1)
  unfolding submit_run claim_and_admit claim_key
  submit_run-IsStopped r now m j s b h =
      let c = start b in
      let k = compute_key_hash hash (or_else s.subject_id "") (or_else s.idempotency_key "") in
      let claim =
        acquire_or_join now k (compute_request_hash hash dumps s.request s.custom_context) s.run_id
          c.ledger in
      ground (
        arith,
        h,
        admit-IsStopped r now m j s none none c (start-IsStopped r b h),
        answer_claim-IsStopped r now m j s k claim.0 (record c { ledger = claim.1 })
            (start-IsStopped r b h),
      )

  perform-IsStopped :
      (r : String) (e : Event) (b : Backend)
      → IsNoResume r e
      → IsStopped r (load b)
      → IsStopped r (load (perform hash dumps e b))
  unfolding perform take_item
  perform-IsStopped r (submitting now m j s) b n h = submit_run-IsStopped r now m j s b h
  perform-IsStopped r (resuming now j run_id d) b n h =
      submit_resume-IsStopped r now j run_id d b n h
  perform-IsStopped r (stopping now run_id reason) b n h =
      ground (arith, h, cancel_run-load now run_id reason b)
  perform-IsStopped r (taking now) b n h = take_first-IsStopped r now b.queue b.idle_workers b h
  perform-IsStopped r (finishing now w saved o) b n h = finish_item-IsStopped r now w saved o b h

  perform_all-IsStopped :
      (r : String) (events : List Event) (b : Backend)
      → NoResumes r events
      → IsStopped r (load b)
      → IsStopped r (load (perform_all hash dumps events b))
  unfolding perform_all
  perform_all-IsStopped r [] b n h = h
  perform_all-IsStopped r (e ∷ events) b (n, ns) h =
      perform_all-IsStopped r events (perform hash dumps e b) ns (perform-IsStopped r e b n h)

  -- A run that no worker has when it is cancelled, be it queued, paused or yet to come, is on no
  -- worker after any events that do not resume it.
  pub cancelled-never_active :
      (now : ℕ) (r reason : String) (events : List Event) (b : Backend)
      → lookup r b.active_tasks ≡ none
      → NoResumes r events
      → lookup r (perform_all hash dumps events (cancel_run now r reason b).1).active_tasks ≡ none
  cancelled-never_active now r reason events b e n =
      (perform_all-IsStopped r events (cancel_run now r reason b).1 n
        (ground (arith, e, cancel_run-load now r reason b))).1
