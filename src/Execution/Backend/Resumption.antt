-- ===== src/Execution/Backend/Resumption.antt =====
-- `submit_resume` of execution/local_async.py.
use enterprise_multi_agent_o.Base.{
  ℕ, ◌+◌, String, ◌<>◌, true, false, not, Option, none, some, ◌==◌, if◌then◌else◌, string_eq,
  nat_eq, or_else,
}
use enterprise_multi_agent_o.Base.Dict.{lookup, insert}
use enterprise_multi_agent_o.Base.Lists.{select}
use enterprise_multi_agent_o.Core.Types.{ExecutionStatus}
use enterprise_multi_agent_o.Core.State.{OrchestrationState, HumanDecision, is_terminal}
use enterprise_multi_agent_o.Errors.{
  Exception, orchestrator_error, Result, ok, raises, orchestration_error,
}
use enterprise_multi_agent_o.Execution.Futures.{create_future}
use enterprise_multi_agent_o.Execution.Models.{JobStatus, ExecutionJob, resume, Backend}
use enterprise_multi_agent_o.Execution.Backend.{refuse, publish, start, is_full, enqueue}
use enterprise_multi_agent_o.Execution.Backend.Admission.{queue_full, bare_job}

-- `status.value`
abbrev pub status_value : ExecutionStatus → String
status_value ExecutionStatus.idle = "idle"
status_value ExecutionStatus.running = "running"
status_value ExecutionStatus.paused_for_human = "paused_for_human"
status_value ExecutionStatus.completed = "completed"
status_value ExecutionStatus.failed = "failed"
status_value ExecutionStatus.cancelled = "cancelled"

-- What `submit_resume` raises before it looks at the queue.
unfoldable pub resume_error : String → OrchestrationState → Option Exception
resume_error run_id s =
    if not s.requires_human
    then some (
        orchestrator_error (
          orchestration_error
            ("Run '"
              <> run_id
              <> "' is not awaiting human review (status: "
              <> status_value s.metadata.status
              <> ").")
            "NO_HUMAN_REVIEW_PENDING" false))
    else if is_terminal s.metadata.status
    then some (
        orchestrator_error (
          orchestration_error
            ("Run '"
              <> run_id
              <> "' is in terminal status '"
              <> status_value s.metadata.status
              <> "' and cannot be resumed.")
            "RUN_TERMINAL" false))
    else none

-- The rest of `submit_resume` for the state found.
unfoldable pub requeue :
    (now : ℕ) (job_id run_id : String)
    → HumanDecision
    → OrchestrationState
    → Backend
    → Result (ExecutionJob × ℕ) × Backend
unfolding is_full lookup insert create_future
requeue now job_id run_id d s b =
    if is_full b
    then (queue_full, record b { rejections = b.rejections + 1 })
    else let job =
        or_else (lookup run_id b.jobs)
          (bare_job now job_id run_id s.request JobStatus.queued none) in
      let job = record job { status = JobStatus.queued; is_cancelled = false } in
      let (heap, n) = create_future b.ledger.futures in
      (
        ok (job, n),
        enqueue (record { run_id = run_id; work = resume s d; future = n; key_hash = none })
            (publish run_id "human_decision_submitted" (record b {
              jobs = insert run_id job b.jobs;
              cancelled_runs = select (λ r. not (r == run_id)) b.cancelled_runs;
              futures = insert run_id n b.futures;
              ledger = record b.ledger { futures = heap };
            })),
      )

unfoldable pub submit_resume :
    (now : ℕ) (job_id run_id : String)
    → HumanDecision
    → Backend
    → Result (ExecutionJob × ℕ) × Backend
unfolding start resume_error requeue lookup
submit_resume now job_id run_id d b =
    if b.is_shutting_down
    then (refuse "Execution backend is shutting down." "SERVICE_UNAVAILABLE" true, b)
    else let b = start b in
      elim (lookup run_id b.store) [
        | none ↦ (
          raises (
              orchestrator_error
                (orchestration_error ("Run '" <> run_id <> "' not found.") "RUN_NOT_FOUND" false)),
          b,
        )
        | some s ↦ elim (resume_error run_id s) [
          | some e ↦ (raises e, b)
          | none ↦ requeue now job_id run_id d s b
        ]
      ]
