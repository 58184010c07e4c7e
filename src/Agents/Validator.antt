-- ===== src/Agents/Validator.antt =====
-- agents/validator.py: the critic that judges a task's output. The model that it asks, through the
-- router, and Python's `str` are parameters.
pub mod Review
use enterprise_multi_agent_o.Base.{
  ℕ, String, ◌<>◌, Bool, true, false, ◌||◌, Option, none, some, List, [], ◌∷◌, if◌then◌else◌,
  is_some, string_eq,
}
use enterprise_multi_agent_o.Base.Dict.{lookup}
use enterprise_multi_agent_o.Core.Types.{
  ValidationStatus, Payload, Value, to_value, truthy, nonempty,
}
use enterprise_multi_agent_o.Core.Task.{Task}
use enterprise_multi_agent_o.Core.State.{
  OrchestrationState, ValidationResult, add_validation_result,
}
use enterprise_multi_agent_o.Errors.{
  Exception, orchestrator_error, other, cancelled, Result, ok, raises,
}
use enterprise_multi_agent_o.Agents.Result.{
  AgentResult, success_result, failure_result, escalate_result,
}
use enterprise_multi_agent_o.Orchestration.Graph.{ValidatorOutput, optional_value}

-- CriticEvaluationSchema, less the score.
pub record CriticEvaluation : Type 0 where
  pub is_valid : Bool
  pub status : ValidationStatus
  pub feedback : String
  pub issues : List String
  pub needs_retry : Bool
  pub needs_human_review : Bool

-- `router.generate_structured` for the prompt about a request, the criteria and the output to
-- judge: the parsed critique and the text of the response.
abbrev pub Critic : Type 0
Critic = (request criteria : String) (target_output : Value) → Result (CriticEvaluation × String)

abbrev pub validator_agent : String
validator_agent = "validator_agent"

abbrev pub is_filled : Option Payload → Bool
is_filled none = false
is_filled (some d) = truthy d

-- `validate_input`, for a task.
unfoldable pub validate_input : OrchestrationState → Task → Bool
unfolding lookup nonempty
validate_input s t =
    is_some (lookup "target_output" t.input_data)
    || truthy s.agent_outputs
    || (elim s.final_response [ none ↦ false | some r ↦ nonempty r ])
    || is_filled t.output_data

abbrev is_none : Value → Bool
is_none Value.null = true
is_none _ = false

-- `task.input_data.get("target_output")`, and what stands in for None.
unfoldable pub target_output : OrchestrationState → Task → Value
unfolding lookup
target_output s t =
    let given = elim (lookup "target_output" t.input_data) as (λ _. Value) [
      | none ↦ Value.null
      | some v ↦ v
    ] in
    let fallback =
      if is_filled t.output_data
      then to_value t.output_data
      else if truthy s.agent_outputs
      then to_value (some s.agent_outputs)
      else optional_value s.final_response in
    if is_none given then fallback else given

abbrev pub default_criteria : String
default_criteria =
    "Must be accurate, factual, well-structured, and directly address the user objective."

-- The id of the task is noted only where the task has input data.
abbrev pub verdict : CriticEvaluation → Task → ValidationResult
verdict c t = record {
  is_valid = c.is_valid;
  status = c.status;
  feedback = some c.feedback;
  issues = c.issues;
  needs_retry = c.needs_retry;
  needs_human_review = c.needs_human_review;
  validator_name = validator_agent;
  evaluated_task_id = if truthy t.input_data then some t.id else none;
}

-- What follows the answer of the critic.
unfoldable pub on_critique :
    (now : ℕ)
    → OrchestrationState
    → Task
    → Result (CriticEvaluation × String)
    → Result (AgentResult ValidatorOutput) × OrchestrationState
unfolding add_validation_result success_result failure_result escalate_result
on_critique now s t (ok (c, content)) =
    let v = verdict c t in
    let output : ValidatorOutput = record { validation = some v } in
    (
      ok (
          if c.needs_human_review
          then escalate_result validator_agent
              ("Validation escalated to human review: " <> c.feedback) (some output)
          else success_result validator_agent output (some content)),
      add_validation_result now v s,
    )
on_critique now s t (raises (orchestrator_error e)) = (
  ok (
      failure_result validator_agent ("Critic evaluation provider error: " <> e.message)
        e.retryable),
  s,
)
on_critique now s t (raises (other x)) =
    (ok (failure_result validator_agent ("Unexpected error in ValidatorAgent: " <> x) false), s)
on_critique now s t (raises cancelled) = (raises cancelled, s)

-- `ValidatorAgent.execute` for a task, the only way in which the workflow calls it.
unfoldable pub validate :
    (str : Value → String)
    → Critic
    → (now : ℕ) → OrchestrationState
    → Task
    → Result (AgentResult ValidatorOutput) × OrchestrationState
unfolding validate_input target_output on_critique failure_result lookup
validate str critic now s t =
    let criteria : String = elim (lookup "acceptance_criteria" t.input_data) [
      | none ↦ default_criteria
      | some v ↦ str v
    ] in
    if validate_input s t
    then on_critique now s t (critic s.request criteria (target_output s t))
    else (ok (failure_result validator_agent "No target output found to validate." false), s)
