-- ===== src/Execution/Backend/Refusals.antt =====
-- The refusals of execution/local_async.py: resumptions, and submissions to a full queue.
use enterprise_multi_agent_o.Base.{
  ℕ, ◌+◌, String, ◌≡◌, true, false, ◌&&◌, Option, none, some, if◌then◌else◌, string_eq, nat_eq,
  or_else, sym, ap, subst, ◌∙◌, inl, inr, Option-cases, arith,
}
use enterprise_multi_agent_o.Base.Dict.{lookup, lookup-insert}
use enterprise_multi_agent_o.Core.Types.{Payload, nonempty}
use enterprise_multi_agent_o.Core.State.{OrchestrationState, HumanDecision, is_terminal}
use enterprise_multi_agent_o.Errors.{ok}
use enterprise_multi_agent_o.Execution.Futures.{waiting, create_future}
use enterprise_multi_agent_o.Execution.Ledger.{Ledger, compute_key_hash, compute_request_hash}
use enterprise_multi_agent_o.Execution.Models.{JobStatus, ExecutionJob, Backend}
use enterprise_multi_agent_o.Execution.Backend.{start, is_full}
use enterprise_multi_agent_o.Execution.Backend.Admission.{
  Uuids, Submission, join, accept, admit, answer_claim, claim_key, claim_and_admit, submit_run,
}
use enterprise_multi_agent_o.Execution.Backend.Resumption.{requeue, resume_error, submit_resume}
use enterprise_multi_agent_o.Execution.Backend.Admission.{Uuids, queue_full, bare_job}
use enterprise_multi_agent_o.Execution.Ledger.Claims.{
  opened, acquire_or_join-free, acquire_or_join-opened,
}

admit-full :
    (now m : ℕ) (j : Uuids) (s : Submission) (k : Option String) (n : Option ℕ) (b : Backend)
    → is_full b ≡ true
    → admit now m j s k n b ≡ (queue_full, record b { rejections = b.rejections + 1 })
unfolding admit
admit-full now m j s k n b e =
    ap
      (λ t.
        if t
        then (queue_full, record b { rejections = b.rejections + 1 })
        else accept now m j s k n b)
      e

-- A resumption is accepted only while the backend is not shutting down, for a stored run that
-- waits for a human and is not in a terminal status, and when the queue has room.
pub submit_resume-accepts :
    (now : ℕ) (j r : String) (d : HumanDecision) (b : Backend) (a : ExecutionJob × ℕ)
    → (submit_resume now j r d b).0 ≡ ok a
    → (b.is_shutting_down ≡ false)
      × (is_full b ≡ false)
      × (s : OrchestrationState) × (lookup r b.store ≡ some s)
      × (s.requires_human ≡ true)
      × (is_terminal s.metadata.status ≡ false)
unfolding submit_resume requeue resume_error start is_full
submit_resume-accepts now j r d b a e = elim (Option-cases (lookup r b.store)) [
  | inl g ↦ absurd (ground (arith, e, g))
  | inr (s, g) ↦
      (ground (arith, e, g), ground (arith, e, g), s, g, ground (arith, e, g), ground (arith, e, g))
]

-- The backend is at work.
abbrev pub IsRunning : Backend → Type 0
IsRunning b = (b.is_shutting_down ≡ false) × (b.is_started ≡ true)

module _ (hash : String → String) (dumps : String → Payload → String) where
  claim_key-full :
      (now m : ℕ) (j : Uuids) (s : Submission) (key subject : String) (b : Backend)
      → is_full b ≡ true
      → lookup (compute_key_hash hash subject key) b.ledger.records ≡ none
      → claim_key hash dumps now m j s key subject b ≡ (
        queue_full,
        record b {
          ledger =
              opened now
                (compute_key_hash hash subject key)
                (compute_request_hash hash dumps s.request s.custom_context)
                s.run_id
                b.ledger;
          rejections = b.rejections + 1;
        },
      )
  unfolding claim_key answer_claim
  claim_key-full now m j s key subject b full free =
      let k = compute_key_hash hash subject key in
      let q = compute_request_hash hash dumps s.request s.custom_context in
      ap (λ a. answer_claim now m j s k a.0 (record b { ledger = a.1 }))
        (acquire_or_join-free now k q s.run_id b.ledger free)
      ∙ admit-full now m j s (some k) (some b.ledger.futures.next)
          (record b { ledger = opened now k q s.run_id b.ledger }) full

  claim_key-opened :
      (now later m : ℕ) (j : Uuids) (s : Submission) (key subject : String) (b : Backend)
      (l : Ledger OrchestrationState)
      → let c : Backend = record b {
        ledger =
            opened now
              (compute_key_hash hash subject key)
              (compute_request_hash hash dumps s.request s.custom_context)
              s.run_id
              l;
      } in
        claim_key hash dumps later m j s key subject c ≡ (
          ok (
            or_else
                (lookup s.run_id b.jobs)
                (bare_job later j.job_id s.run_id s.request JobStatus.running none),
            l.futures.next,
          ),
          c,
        )
  unfolding claim_key answer_claim join
  claim_key-opened now later m j s key subject b l =
      let k = compute_key_hash hash subject key in
      let q = compute_request_hash hash dumps s.request s.custom_context in
      ap (λ a. answer_claim later m j s k a.0 (record b { ledger = a.1 }))
        (acquire_or_join-opened now later k q s.run_id s.run_id l)

  pub submit_run-key :
      (now m : ℕ) (j : Uuids) (s : Submission) (b : Backend)
      → IsRunning b
      → nonempty (or_else s.idempotency_key "") && nonempty (or_else s.subject_id "") ≡ true
      → submit_run hash dumps now m j s b
        ≡ claim_key hash dumps now m j s (or_else s.idempotency_key "") (or_else s.subject_id "") b
  unfolding submit_run claim_and_admit start
  submit_run-key now m j s b (up, started) named = ground (arith, up, started, named)

  -- With the ledger in place of its own, the backend answers the submission as a duplicate, changes
  -- nothing, and gives out a future that waits.
  abbrev pub IsJoined :
      (later m : ℕ) (j : Uuids) → Submission → Backend → ℕ → Ledger OrchestrationState → Type 0
  IsJoined later m j s c n l =
      (submit_run hash dumps later m j s (record c { ledger = l }) ≡ (
        ok (
          or_else (lookup s.run_id c.jobs)
              (bare_job later j.job_id s.run_id s.request JobStatus.running none),
          n,
        ),
        record c { ledger = l },
      ))
      × (lookup n l.futures.cells ≡ some waiting)

  opened-waits :
      (now : ℕ) (k q r : String) (l : Ledger OrchestrationState)
      → lookup l.futures.next (opened now k q r l).futures.cells ≡ some waiting
  unfolding create_future
  opened-waits now k q r l =
      ground (arith, lookup-insert l.futures.next l.futures.next waiting l.futures.cells)

  -- A submission with a free idempotency key to a full queue is refused and leaves the key taken:
  -- the same submission to a running backend with that ledger, however much room its queue has, is
  -- answered as a duplicate, with a future that waits and with nothing queued for it.
  pub submit_run-full_takes_key :
      (now later m : ℕ) (i j : Uuids) (s : Submission) (b c : Backend)
      → IsRunning b
      → IsRunning c
      → is_full b ≡ true
      → nonempty (or_else s.idempotency_key "") && nonempty (or_else s.subject_id "") ≡ true
      → lookup
          (compute_key_hash hash (or_else s.subject_id "") (or_else s.idempotency_key ""))
          b.ledger.records
        ≡ none
      → let refused = submit_run hash dumps now m i s b in
        (refused.0 ≡ queue_full) × IsJoined later m j s c b.ledger.futures.next refused.1.ledger
  submit_run-full_takes_key now later m i j s b c up up' full named free =
      let key = or_else s.idempotency_key "" in
      let subject = or_else s.subject_id "" in
      let k = compute_key_hash hash subject key in
      let q = compute_request_hash hash dumps s.request s.custom_context in
      let l = opened now k q s.run_id b.ledger in
      let e =
        submit_run-key now m i s b up named ∙ claim_key-full now m i s key subject b full free in
      (
        ap (λ r. r.0) e,
        subst (IsJoined later m j s c b.ledger.futures.next) (sym (ap (λ r. r.1.ledger) e)) (
          submit_run-key later m j s (record c { ledger = l }) up' named
              ∙ claim_key-opened now later m j s key subject c b.ledger,
          opened-waits now k q s.run_id b.ledger,
        ),
      )
