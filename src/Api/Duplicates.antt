-- ===== src/Api/Duplicates.antt =====
-- What `create_run` answers in its asynchronous mode to a request that repeats an idempotency key.
use enterprise_multi_agent_o.Base.{
  ℕ, String, ◌≡◌, inl, inr, some, refl, true, false, ◌&&◌, Option, none, string_eq, nat_eq, or_else,
  is_some, arith, if◌then◌else◌, ap, ◌∙◌,
}
use enterprise_multi_agent_o.Base.Dict.{lookup}
use enterprise_multi_agent_o.Core.Types.{Payload, nonempty}
use enterprise_multi_agent_o.Core.State.{OrchestrationState}
use enterprise_multi_agent_o.Errors.{ok}
use enterprise_multi_agent_o.Security.Roles.{AuthenticatedIdentity}
use enterprise_multi_agent_o.Execution.Ledger.{
  Ledger, Claim, acquire_or_join, compute_key_hash, compute_request_hash,
}
use enterprise_multi_agent_o.Execution.Ledger.Claims.{holder, held-Answers}
use enterprise_multi_agent_o.Execution.Backend.Refusals.{IsRunning, submit_run-key}
use enterprise_multi_agent_o.Execution.Models.{JobStatus, ExecutionJob, Backend}
use enterprise_multi_agent_o.Execution.Backend.{start, settle_future}
use enterprise_multi_agent_o.Execution.Backend.Admission.{
  Uuids, Submission, join, answer_claim, claim_key, submit_run, bare_job,
}
use enterprise_multi_agent_o.Api.{Response, answers}
use enterprise_multi_agent_o.Api.Summaries.{RunResponse}
use enterprise_multi_agent_o.Api.Runs.{
  CreateRunRequest, effective_key, submission, on_submitted, accepted, fallback, submit,
  create_run_async, get_run, not_found,
}

-- The answer names a run that the API does not know.
abbrev pub IsUnknown : String → Response RunResponse × Backend → Type 0
IsUnknown run_id (response, b) =
    (x : RunResponse) × (response ≡ answers x)
    × (x.run_id ≡ run_id)
    × (x.status ≡ "queued")
    × ((get_run run_id b).0 ≡ not_found run_id)

-- A claim with the request hash that holds the key joins its future.
held-joins :
    (now : ℕ) (k q r : String) (n : ℕ) (l : Ledger OrchestrationState)
    → holder k l ≡ some (q, n)
    → (x : Option OrchestrationState) × ((acquire_or_join now k q r l).0
        ≡ ok (record { is_initiator = false; future = n; cached_result = x }))
held-joins now k q r n l held = elim (held-Answers now k q r q n l held) [
  | inl (_, x, answer) ↦ (x, ap (λ a. a.0) answer)
  | inr (differ, _) ↦ absurd (differ refl)
]

module _ (hash : String → String) (dumps : String → Payload → String) where
  answer_claim-joined :
      (now m : ℕ) (ids : Uuids) (s : Submission) (k : String) (c : Claim OrchestrationState)
      (b : Backend)
      → c.is_initiator ≡ false
      → lookup s.run_id b.jobs ≡ none
      → (job : ExecutionJob) × (job.run_id ≡ s.run_id)
        × ((answer_claim now m ids s k (ok c) b).0 ≡ ok (job, c.future))
        × ((answer_claim now m ids s k (ok c) b).1.store ≡ b.store)
  unfolding answer_claim join settle_future
  answer_claim-joined now m ids s k c b later fresh = (
    bare_job now ids.job_id s.run_id s.request
        (if is_some c.cached_result then JobStatus.completed else JobStatus.running)
        c.cached_result,
    refl,
    ground (arith, later, fresh),
    ground (arith, later),
  )

  start-running : (b : Backend) → IsRunning b → start b ≡ b
  unfolding start
  start-running b (up, started) = ground (arith, started)

  claim_key-joined :
      (now m : ℕ) (ids : Uuids) (s : Submission) (key subject : String) (b : Backend)
      (c : Claim OrchestrationState)
      → (acquire_or_join now
          (compute_key_hash hash subject key)
          (compute_request_hash hash dumps s.request s.custom_context)
          s.run_id
          b.ledger).0
        ≡ ok c
      → c.is_initiator ≡ false
      → lookup s.run_id b.jobs ≡ none
      → (job : ExecutionJob) × (job.run_id ≡ s.run_id)
        × ((claim_key hash dumps now m ids s key subject b).0 ≡ ok (job, c.future))
        × ((claim_key hash dumps now m ids s key subject b).1.store ≡ b.store)
  unfolding claim_key
  claim_key-joined now m ids s key subject b c claimed later fresh =
      let k = compute_key_hash hash subject key in
      let r =
        acquire_or_join now k (compute_request_hash hash dumps s.request s.custom_context) s.run_id
          b.ledger in
      let (job, named, joined, kept) =
        answer_claim-joined now m ids s k c (record b { ledger = r.1 }) later fresh in
      (job, named, ground (arith, claimed, joined), ground (arith, claimed, kept))

  -- If the asynchronous mode of a running backend is asked for a run under a new id, by a caller
  -- whose subject id is not empty, with an idempotency key that is not empty and that the ledger
  -- holds for this subject and a request of the same hash, then its answer names the new id as
  -- queued, and no run of that id is found.
  pub create_run_async-IsUnknown :
      (now m : ℕ) (ids : Uuids) (run_id : String) (header : Option String)
      (identity : AuthenticatedIdentity) (payload : CreateRunRequest) (b : Backend) (n : ℕ)
      → let key = or_else (effective_key header payload.idempotency_key) "" in
        IsRunning b
        → nonempty key && nonempty identity.subject_id ≡ true
        → holder (compute_key_hash hash identity.subject_id key) b.ledger
          ≡ some (compute_request_hash hash dumps payload.request payload.custom_context, n)
        → lookup run_id b.jobs ≡ none
        → lookup run_id b.store ≡ none
        → IsUnknown run_id (create_run_async hash dumps now m ids run_id header identity payload b)
  unfolding create_run_async submit on_submitted submission accepted get_run
  create_run_async-IsUnknown now m ids run_id header identity payload b n up key held fresh
        none_stored =
      let s = submission run_id header identity payload in
      let (x, claimed) =
        held-joins now (compute_key_hash hash identity.subject_id (or_else s.idempotency_key ""))
          (compute_request_hash hash dumps payload.request payload.custom_context) run_id n b.ledger
          held in
      let c : Claim OrchestrationState = record {
        is_initiator = false;
        future = n;
        cached_result = x;
      } in
      let (job, named, joined, kept) =
        claim_key-joined now m ids s (or_else s.idempotency_key "") identity.subject_id b c claimed
          refl fresh in
      let same : submit_run hash dumps now m ids s (start b)
          ≡ claim_key hash dumps now m ids s (or_else s.idempotency_key "") identity.subject_id b =
        ap (submit_run hash dumps now m ids s) (start-running b up)
        ∙ submit_run-key hash dumps now m ids s b up key in
      (
        fallback payload.request job,
        ground (arith, same, joined, kept, named, none_stored),
        named,
        refl,
        ground (arith, same, joined, kept, none_stored),
      )
