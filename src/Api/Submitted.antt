-- ===== src/Api/Submitted.antt =====
-- What the API knows of a run after `create_run` has answered in its asynchronous mode.
use enterprise_multi_agent_o.Base.{
  ℕ, String, ◌≡◌, refl, false, Option, none, some, string_eq, nat_eq, inl, inr, Bool-cases, or_else,
  arith, ap, ◌∙◌, sym, subst,
}
use enterprise_multi_agent_o.Base.Dict.{lookup, lookup-insert}
use enterprise_multi_agent_o.Core.Types.{ExecutionStatus, Payload, nonempty}
use enterprise_multi_agent_o.Core.State.{OrchestrationState, create_initial}
use enterprise_multi_agent_o.Errors.{Result, ok, raises, Result-cases}
use enterprise_multi_agent_o.Security.Roles.{AuthenticatedIdentity}
use enterprise_multi_agent_o.Execution.Models.{JobStatus, ExecutionJob, Backend}
use enterprise_multi_agent_o.Execution.Backend.{start, is_full, save_state}
use enterprise_multi_agent_o.Execution.Backend.Admission.{
  Uuids, Submission, accept, admit, claim_and_admit, submit_run,
}
use enterprise_multi_agent_o.Execution.Backend.Workers.{get_job}
use enterprise_multi_agent_o.Api.{answers}
use enterprise_multi_agent_o.Api.Summaries.{
  RunResponse, RunStatusResponse, state_to_run_response, state_to_status_response, live_status,
  derived_status, summarize_plan,
}
use enterprise_multi_agent_o.Api.Runs.{
  CreateRunRequest, effective_key, submission, on_submitted, accepted, respond, submit,
  create_run_async, get_run, get_run_status,
}

-- A new run that waits in the queue, by its job and its state.
abbrev IsQueued : String → ExecutionJob → Backend → Type 0
IsQueued run_id job b =
    (job.run_id ≡ run_id)
    × (lookup run_id b.jobs ≡ some job)
    × (job.status ≡ JobStatus.queued)
    × (s : OrchestrationState) × (lookup run_id b.store ≡ some s)
    × (s.run_id ≡ run_id)
    × (s.metadata.status ≡ ExecutionStatus.idle)

accept-IsQueued :
    (now m : ℕ) (ids : Uuids) (s : Submission) (k : Option String) (n : Option ℕ) (b : Backend)
    (job : ExecutionJob) (f : ℕ)
    → (accept now m ids s k n b).0 ≡ ok (job, f)
    → IsQueued s.run_id job (accept now m ids s k n b).1
unfolding accept save_state create_initial
accept-IsQueued now m ids s k n b job f e =
    let initial =
      create_initial now ids.run_id s.request s.correlation_id s.session_id m s.custom_context in
    let state : OrchestrationState = record initial {
      run_id = s.run_id;
      metadata = record initial.metadata { status = ExecutionStatus.idle };
    } in
    (
      ground (arith, e),
      ground (arith, e, lookup-insert s.run_id s.run_id job b.jobs),
      ground (arith, e),
      state,
      ground (arith, lookup-insert s.run_id s.run_id state b.store),
      refl,
      refl,
    )

admit-IsQueued :
    (now m : ℕ) (ids : Uuids) (s : Submission) (k : Option String) (n : Option ℕ) (b : Backend)
    (job : ExecutionJob) (f : ℕ)
    → (admit now m ids s k n b).0 ≡ ok (job, f)
    → IsQueued s.run_id job (admit now m ids s k n b).1
unfolding admit
admit-IsQueued now m ids s k n b job f e = elim (Bool-cases (is_full b)) [
  | inl full ↦ absurd (ground (arith, e, full))
  | inr room ↦
      let queued = accept-IsQueued now m ids s k n b job f (ground (arith, e, room)) in
      ground (arith, room, queued)
]

-- What the reading routes then answer.
abbrev pub IsReadable : String → RunResponse → Backend → Type 0
IsReadable run_id x b =
    (x.run_id ≡ run_id)
    × ((get_run run_id b).0 ≡ answers x)
    × (y : RunStatusResponse) × ((get_run_status run_id b).0 ≡ answers y)
    × (y.status ≡ "queued")

respond-answers : (r : Result RunResponse) (x : RunResponse) → respond r ≡ answers x → r ≡ ok x
respond-answers (ok y) x e = ground (arith, e)
respond-answers (raises y) x e = absurd (ground (arith, e))

module _ (hash : String → String) (dumps : String → Payload → String) where
  nonempty-none : (key : Option String) → key ≡ none → nonempty (or_else key "") ≡ false
  unfolding nonempty string_eq
  nonempty-none key keyless = ap (λ k. nonempty (or_else k "")) keyless

  submit_run-keyless :
      (now m : ℕ) (ids : Uuids) (s : Submission) (b : Backend)
      → s.idempotency_key ≡ none
      → b.is_shutting_down ≡ false
      → submit_run hash dumps now m ids s b ≡ admit now m ids s none none (start b)
  unfolding submit_run claim_and_admit
  submit_run-keyless now m ids s b keyless up =
      ground (arith, up, nonempty-none s.idempotency_key keyless)

  submit_run-IsQueued :
      (now m : ℕ) (ids : Uuids) (s : Submission) (b : Backend) (job : ExecutionJob) (f : ℕ)
      → s.idempotency_key ≡ none
      → (submit_run hash dumps now m ids s b).0 ≡ ok (job, f)
      → IsQueued s.run_id job (submit_run hash dumps now m ids s b).1
  unfolding submit_run
  submit_run-IsQueued now m ids s b job f keyless e = elim (Bool-cases b.is_shutting_down) [
    | inl down ↦ absurd (ground (arith, e, down))
    | inr up ↦
        let same = submit_run-keyless now m ids s b keyless up in
        subst (λ r. IsQueued s.run_id job r.1) (sym same)
          (admit-IsQueued now m ids s none none (start b) job f (sym (ap (λ r. r.0) same) ∙ e))
  ]

  queued-IsReadable :
      (run_id request : String) (job : ExecutionJob) (b : Backend) (x : RunResponse)
      → IsQueued run_id job b
      → accepted request job (lookup job.run_id b.store) ≡ ok x
      → IsReadable run_id x b
  unfolding get_run get_run_status accepted state_to_run_response state_to_status_response
      summarize_plan live_status derived_status get_job
  queued-IsReadable run_id request job b x (named, kept, waits, s, stored, own, idle) e =
      let shown : state_to_run_response s ≡ ok x = ground (arith, e, named, stored) in
      (
        elim (Result-cases (summarize_plan s.plan)) [
          | inl (plan, summarized) ↦ ground (arith, shown, summarized, own)
          | inr (y, failed) ↦ absurd (ground (arith, shown, failed))
        ],
        ground (arith, stored, shown),
        state_to_status_response s (some job.status),
        ground (arith, stored, kept),
        ground (arith, idle, waits),
      )

  -- If the asynchronous mode answers a request without an idempotency key, then the run that the
  -- answer names is under the id drawn for it, reading the run gives the same answer again, and its
  -- status is read as queued.
  pub create_run_async-IsReadable :
      (now m : ℕ) (ids : Uuids) (run_id : String) (header : Option String)
      (identity : AuthenticatedIdentity) (payload : CreateRunRequest) (b : Backend)
      (x : RunResponse)
      → effective_key header payload.idempotency_key ≡ none
      → (create_run_async hash dumps now m ids run_id header identity payload b).0 ≡ answers x
      → IsReadable run_id x
          (create_run_async hash dumps now m ids run_id header identity payload b).1
  unfolding create_run_async submit on_submitted submission
  create_run_async-IsReadable now m ids run_id header identity payload b x keyless e =
      let s = submission run_id header identity payload in
      let r = submit_run hash dumps now m ids s (start b) in
      elim (Result-cases r.0) [
        | inr (y, refused) ↦ absurd (ground (arith, e, refused))
        | inl ((job, f), taken) ↦
            let queued = submit_run-IsQueued now m ids s (start b) job f keyless taken in
            let after : r.1
                ≡ (create_run_async hash dumps now m ids run_id header identity payload b).1 =
              ground (arith, taken) in
            let answer = accepted payload.request job (lookup job.run_id r.1.store) in
            let same : respond answer ≡ answers x = ground (arith, e, taken) in
            subst (IsReadable run_id x) after (
              queued-IsReadable run_id payload.request job r.1 x queued
                (respond-answers answer x same))
      ]
