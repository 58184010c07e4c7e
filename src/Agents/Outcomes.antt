-- ===== src/Agents/Outcomes.antt =====
-- agents/tool_execution.py, `ToolExecutionAgent.execute`: what it returns, and when it raises.
use enterprise_multi_agent_o.Base.{
  ℕ, String, ◌<>◌, Bool, if◌then◌else◌, subst, ◌≡◌, refl, ◌⊎◌, inl, inr, true, false, some,
  string_eq, nat_eq, arith, Bool-cases, Option-cases, ==-self,
}
use enterprise_multi_agent_o.Base.Dict.{lookup, lookup-insert}
use enterprise_multi_agent_o.Base.Text.{strip_text}
use enterprise_multi_agent_o.Core.Types.{Payload, Value, to_fields}
use enterprise_multi_agent_o.Core.Task.{Task}
use enterprise_multi_agent_o.Core.State.{OrchestrationState, add_tool_result}
use enterprise_multi_agent_o.Errors.{
  ErrorClass, OrchestratorError, orchestrator_error, other, cancelled, Result, ok, raises,
  Result-cases, text_of, tool_not_found_error, validation_error,
}
use enterprise_multi_agent_o.Agents.Result.{is_success, success_result, failure_result}
use enterprise_multi_agent_o.Agents.ToolExecution.{
  execute_tool_task, on_tool_result, on_tool_error, names_tool, parameters, tool_name_of, get_value,
  is_truthy,
}
use enterprise_multi_agent_o.Tools.{
  Tool, ToolRegistry, ToolOutcome, returned, timed_out, raised, get_tool, execute_tool,
  validate_tool_input, tool_result,
}
use enterprise_multi_agent_o.Agents.Answers.{IsGiven, IsCalled, IsBroken, ToolOutcomes}

parameters-IsGiven :
    (input_data params : Payload) → parameters input_data ≡ some params → IsGiven input_data params
unfolding parameters get_value
parameters-IsGiven input_data params h = elim (Option-cases (lookup "parameters" input_data)) [
  | inl nothing ↦ inr (inl nothing, ground (arith, h, nothing))
  | inr (v, found) ↦ of_value v found
]
  where
    of_value : (v : Value) → lookup "parameters" input_data ≡ some v → IsGiven input_data params
    of_value Value.null found = inr (inr found, ground (arith, h, found))
    of_value (Value.obj fields) found = inl (fields, found, ground (arith, h, found))
    of_value (Value.bool b) found = absurd (ground (arith, h, found))
    of_value (Value.num n) found = absurd (ground (arith, h, found))
    of_value (Value.str q) found = absurd (ground (arith, h, found))

on_tool_error-retry :
    (tool_name : String) (e : OrchestratorError) (k : ErrorClass)
    → (is_success (on_tool_error tool_name e k).status ≡ false)
      × (((on_tool_error tool_name e k).retryable ≡ false)
          ⊎ (k ≡ ErrorClass.timeout)
          ⊎ (k ≡ ErrorClass.tool_execution))
unfolding on_tool_error failure_result
on_tool_error-retry tool_name e k = ground arith

module _ (str : Value → String) where
  tool_name-named :
      (t : Task)
      → names_tool str t ≡ true
      → (v : Value) × (lookup "tool_name" t.input_data ≡ some v)
        × (strip_text (str v) ≡ tool_name_of str t)
  unfolding names_tool tool_name_of get_value is_truthy
  tool_name-named t h = elim (Option-cases (lookup "tool_name" t.input_data)) [
    | inl nothing ↦ absurd (ground (arith, h, nothing))
    | inr (v, found) ↦ (v, found, ground (arith, found))
  ]

  module _ (tools : ToolRegistry) (t : Task) (params : Payload) (named : names_tool str t ≡ true)
      (given : parameters t.input_data ≡ some params) where
    abbrev Called : ToolOutcome → Type 0
    Called = IsCalled str tools t (tool_name_of str t)

    -- What the registry answers tells what it called.
    abbrev Tells : Result Payload → Type 0
    Tells (ok output) = Called (returned output)
    Tells (raises (orchestrator_error e)) =
        (e.kind ≡ ErrorClass.timeout) ⊎ (e.kind ≡ ErrorClass.tool_execution)
        → (o : ToolOutcome) × Called o × IsBroken o
    Tells (raises (other _)) = Unit
    Tells (raises cancelled) = Called (raised cancelled)

    either-Tells :
        (b : Bool) (d e : OrchestratorError)
        → (o : ToolOutcome) × Called o × IsBroken o
        → Tells (if b then raises (orchestrator_error d) else raises (orchestrator_error e))
    either-Tells true d e broken = λ k. broken
    either-Tells false d e broken = λ k. broken

    tool_result-Tells :
        (tool : Tool) (o : ToolOutcome) → Called o → Tells (tool_result (tool_name_of str t) tool o)
    unfolding tool_result
    tool_result-Tells tool (returned output) called = called
    tool_result-Tells tool timed_out called = λ k. (timed_out, called, tt)
    tool_result-Tells tool (raised (orchestrator_error e)) called =
        either-Tells _ e _ (raised (orchestrator_error e), called, λ h. cc)
    tool_result-Tells tool (raised (other x)) called = λ k. (raised (other x), called, λ h. cc)
    tool_result-Tells tool (raised cancelled) called = called

    execute_tool-Tells : Tells (execute_tool tools (tool_name_of str t) params)
    unfolding execute_tool get_tool tool_not_found_error validate_tool_input validation_error
    execute_tool-Tells =
        let (v, found_name, name) = tool_name-named t named in
        let name_of = tool_name_of str t in
        elim (Option-cases (lookup name_of tools)) [
          | inl nothing ↦
              let same : raises (orchestrator_error (tool_not_found_error name_of))
                  ≡ execute_tool tools name_of params =
                ground (arith, nothing) in
              subst Tells same (λ k. absurd (ground (arith, k)))
          | inr (tool, found) ↦ elim (Result-cases (tool.model_validate params)) [
            | inr (x, e) ↦
                let invalid =
                  validation_error
                    ("Validation failed for tool '" <> tool.name <> "' input: " <> text_of x)
                    "VALIDATION_ERROR" in
                let same : raises (orchestrator_error invalid) ≡ execute_tool tools name_of params =
                  ground (arith, found, e) in
                subst Tells same (λ k. absurd (ground (arith, k)))
            | inl (validated, e) ↦
                let same : tool_result name_of tool (tool.execute validated)
                    ≡ execute_tool tools name_of params =
                  ground (arith, found, e) in
                subst Tells same (
                  tool_result-Tells tool (tool.execute validated) (record {
                    value = v;
                    named = found_name;
                    name = name;
                    params = params;
                    given = parameters-IsGiven t.input_data params given;
                    tool = tool;
                    registered = found;
                    validated = validated;
                    valid = e;
                    run = refl;
                  }))
          ]
        ]

    on_tool_result-Outcomes :
        (now : ℕ) (s : OrchestrationState) (x : Result Payload)
        → Tells x
        → ToolOutcomes str tools t s (on_tool_result now (tool_name_of str t) s x)
    unfolding on_tool_result success_result failure_result add_tool_result
    on_tool_result-Outcomes now s (ok output) called =
        let name = tool_name_of str t in
        inl (
          name,
          output,
          called,
          (
            _,
            refl,
            refl,
            refl,
            ground (
              arith,
              lookup-insert name name (Value.obj (to_fields output)) s.tool_results,
              ==-self name,
            ),
          ),
        )
    on_tool_result-Outcomes now s (raises (orchestrator_error e)) tells =
        let name = tool_name_of str t in
        let (failed, retry) = on_tool_error-retry name e e.kind in
        inr (
          inl (
            on_tool_error name e e.kind,
            refl,
            failed,
            refl,
            elim retry [
              | inl no_retry ↦ inl no_retry
              | inr kinds ↦ let (o, called, broken) = tells kinds in inr (name, o, called, broken)
            ],
          ))
    on_tool_result-Outcomes now s (raises (other x)) tells =
        inr (inl (_, refl, refl, refl, inl refl))
    on_tool_result-Outcomes now s (raises cancelled) called =
        inr (inr (refl, refl, (tool_name_of str t, called)))

-- The tool agent ends in one of three ways. It succeeds, after the tool that the task names has
-- returned for the task's parameters, as its schema validates them: the result and the state have
-- the tool's output. Or it fails and leaves the state as it was, and the failure may be retried
-- only if that tool has timed out or raised. Or that tool was cancelled, which the agent passes on
-- with the state as it was.
pub execute_tool_task-Outcomes :
    (str type_name : Value → String) (tools : ToolRegistry) (now : ℕ) (s : OrchestrationState)
    (t : Task)
    → ToolOutcomes str tools t s (execute_tool_task str type_name tools now s t)
unfolding execute_tool_task failure_result
execute_tool_task-Outcomes str type_name tools now s t =
    let name = tool_name_of str t in
    elim (Bool-cases (names_tool str t)) [
      | inr unnamed ↦ rw unnamed (inr (inl (_, refl, refl, refl, inl refl)))
      | inl named ↦ elim (Option-cases (parameters t.input_data)) [
        | inl none_given ↦ rw (named, none_given) (inr (inl (_, refl, refl, refl, inl refl)))
        | inr (params, given) ↦
            rw (named, given)
              (on_tool_result-Outcomes str tools t params named given now s
                (execute_tool tools name params)
                (execute_tool-Tells str tools t params named given))
      ]
    ]
