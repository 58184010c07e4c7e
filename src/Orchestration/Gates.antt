-- ===== src/Orchestration/Gates.antt =====
-- orchestration/nodes.py: the validator node.
use enterprise_multi_agent_o.Base.{
  ℕ, ◌+◌, String, ◌<>◌, Bool, true, false, ◌&&◌, ◌||◌, Option, none, some, [], ◌∷◌, if◌then◌else◌,
  string_eq,
}
use enterprise_multi_agent_o.Core.Types.{
  TaskStatus, ValidationStatus, Payload, Value, show_option, text_or, to_value, payload_or,
}
use enterprise_multi_agent_o.Core.Task.{Task, mark_completed, mark_failed, can_retry}
use enterprise_multi_agent_o.Core.State.{
  ValidationResult, increment_step, record_error, request_human_escalation,
}
use enterprise_multi_agent_o.Errors.{Result}
use enterprise_multi_agent_o.Agents.Result.{AgentResult, is_success, is_escalation}
use enterprise_multi_agent_o.Orchestration.Graph.{
  NextAction, Effect, AuditEventType, Run, NodeResult, Env, Agents, ValidatorOutput, with_state,
  emit, go_to, active_task, change_task, task_error, returns,
}

-- `val_data`, the dict under "validation", with `get` of a missing key as None or false.
pub record Verdict : Type 0 where
  pub status : Option ValidationStatus
  pub is_valid : Bool
  pub needs_retry : Bool
  pub feedback : Option String

abbrev pub verdict_of : Option ValidatorOutput → Verdict
verdict_of o =
    let validation : Option ValidationResult = elim o [ none ↦ none | some out ↦ out.validation ] in
    elim validation [
      | none ↦ record { status = none; is_valid = false; needs_retry = false; feedback = none }
      | some v ↦ record {
        status = some v.status;
        is_valid = v.is_valid;
        needs_retry = v.needs_retry;
        feedback = v.feedback;
      }
    ]

abbrev pub says_valid : Option ValidationStatus → Bool
says_valid (some ValidationStatus.valid) = true
says_valid _ = false

abbrev pub says_retry : Option ValidationStatus → Bool
says_retry (some ValidationStatus.needs_retry) = true
says_retry _ = false

-- `task.mark_completed(task.output_data or {})`
unfoldable pub complete_task : ℕ → Task → Task
unfolding mark_completed
complete_task now t = mark_completed now (payload_or t.output_data []) t

-- `task.retry_count += 1`
abbrev pub count_retry : Task → Task
count_retry t = record t { retry_count = t.retry_count + 1 }

-- `task.status = TaskStatus.PENDING`
abbrev pub set_pending : Task → Task
set_pending t = record t { status = TaskStatus.pending }

-- What the verdict does to the task: it completes, waits for a retry, or fails.
pub data Ruling : Type 0 where
  accept retry exhaust reject : Ruling

unfoldable pub ruling : AgentResult ValidatorOutput → Task → Ruling
unfolding can_retry
ruling a task =
    let v = verdict_of a.output in
    if says_valid v.status || is_success a.status && v.is_valid
    then Ruling.accept
    else if says_retry v.status || v.needs_retry
    then (if can_retry (count_retry task) then Ruling.retry else Ruling.exhaust)
    else Ruling.reject

abbrev exhausted : String
exhausted = "Retry budget exhausted after validation failure."

unfoldable pub apply_ruling : Env → Task → Option String → Ruling → Run → NodeResult
unfolding change_task complete_task mark_failed record_error
apply_ruling env task feedback Ruling.accept r = returns (
    emit (Effect.audit AuditEventType.validation_verdict "verify_task_output" "SUCCESS" ∷ [])
      (record r {
        graph = record r.graph {
          state = change_task task.id (complete_task env.now) r.graph.state;
          current_task_id = none;
          next_action = some NextAction.supervisor;
        };
      }))
apply_ruling env task feedback Ruling.retry r = go_to NextAction.supervisor (
    emit
      (Effect.counter_inc "validator_retries_total"
        ∷ Effect.audit AuditEventType.retry_triggered "retry_task" "RETRY"
        ∷ [])
      (with_state (change_task task.id set_pending (change_task task.id count_retry r.graph.state))
        r))
apply_ruling env task feedback Ruling.exhaust r = go_to NextAction.supervisor (
    emit (Effect.counter_inc "validator_retries_total" ∷ []) (
      with_state
        (record_error env.now (task_error task.id (some exhausted)) (
          change_task task.id (mark_failed env.now exhausted)
            (change_task task.id count_retry r.graph.state)))
        r))
apply_ruling env task feedback Ruling.reject r = go_to NextAction.supervisor (
    with_state
      (change_task task.id
        (mark_failed env.now ("Task output rejected by critic: " <> show_option feedback))
        r.graph.state)
      r)

-- The task's output under "output" of the escalation's context.
abbrev escalation_context : Task → Payload
escalation_context task =
    ("task_id", Value.str task.id) ∷ ("output", to_value task.output_data) ∷ []

unfoldable pub validator_node : Agents → Env → Run → NodeResult
unfolding active_task increment_step request_human_escalation ruling apply_ruling text_or
validator_node agents env r₀ = elim (active_task r₀.graph.state r₀.graph.current_task_id) [
  | none ↦ go_to NextAction.supervisor r₀
  | some task ↦
      let (result, s) =
        agents.validator (increment_step env.now "validator_agent" r₀.graph.state) task in
      let r = with_state s r₀ in
      elim result [
        | Result.raises e ↦ NodeResult.raises e r
        | Result.ok a ↦
            let r₁ = emit (Effect.observe "validator_duration_seconds" ∷ []) r in
            if is_escalation a.status || a.requires_human
            then go_to NextAction.human_gate (
                emit
                  (Effect.counter_inc "human_escalations_total"
                    ∷ Effect.audit AuditEventType.human_escalated "escalate_to_human" "ESCALATED"
                    ∷ [])
                  (with_state
                    (request_human_escalation env.now env.fresh_id
                      (text_or a.error "Validation critic requested human review.")
                      "Review and approve task output or provide guidance."
                      (escalation_context task) (some task.id) s)
                    r₁))
            else apply_ruling env task (verdict_of a.output).feedback (ruling a task) r₁
      ]
]
