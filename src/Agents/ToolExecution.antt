-- ===== src/Agents/ToolExecution.antt =====
-- agents/tool_execution.py: the agent that calls a registered tool for a task. Python's `str` and
-- `type(_).__name__` are parameters.
use enterprise_multi_agent_o.Base.{
  ℕ, String, ◌<>◌, Bool, true, false, not, ◌&&◌, Option, none, some, [], ◌∷◌, ◌==◌, if◌then◌else◌,
  string_eq, nat_eq,
}
use enterprise_multi_agent_o.Base.Dict.{lookup, erase}
use enterprise_multi_agent_o.Base.Text.{strip_text}
use enterprise_multi_agent_o.Core.Types.{Payload, Value, entries, to_fields, nonempty}
use enterprise_multi_agent_o.Core.Task.{Task}
use enterprise_multi_agent_o.Core.State.{OrchestrationState, add_tool_result}
use enterprise_multi_agent_o.Errors.{
  ErrorClass, orchestrator_error, other, cancelled, Result, ok, raises, OrchestratorError,
}
use enterprise_multi_agent_o.Agents.Result.{AgentResult, success_result, failure_result}
use enterprise_multi_agent_o.Tools.{ToolRegistry, execute_tool}

abbrev pub tool_execution_agent : String
tool_execution_agent = "tool_execution_agent"

-- `bool(value)`
unfoldable pub is_truthy : Value → Bool
unfolding nonempty
is_truthy Value.null = false
is_truthy (Value.bool b) = b
is_truthy (Value.num n) = not (n == 0)
is_truthy (Value.str s) = nonempty s
is_truthy (Value.obj fields) = elim (entries fields) [ [] ↦ false | _ ∷ _ ↦ true ]

-- `input_data.get(key)`, where a missing key is None.
unfoldable pub get_value : String → Payload → Value
unfolding lookup
get_value key d = elim (lookup key d) as (λ _. Value) [ none ↦ Value.null | some v ↦ v ]

-- The parameters: those nested under "parameters", or all other entries. None where they are no
-- dict.
unfoldable pub parameters : Payload → Option Payload
unfolding get_value erase
parameters input_data = elim (get_value "parameters" input_data) [
  | Value.null ↦ some (erase "tool_name" input_data)
  | Value.obj fields ↦ some (entries fields)
  | _ ↦ none
]

abbrev failed : (error : String) (retryable : Bool) → AgentResult Payload
unfolding failure_result
failed error retryable = failure_result tool_execution_agent error retryable

-- The `except` clauses for an error of the hierarchy.
unfoldable pub on_tool_error :
    (tool_name : String) → OrchestratorError → ErrorClass → AgentResult Payload
unfolding failed
on_tool_error tool_name e ErrorClass.tool_not_found = failed ("Tool not found: " <> e.message) false
on_tool_error tool_name e ErrorClass.validation =
    failed ("Tool input parameter validation error: " <> e.message) false
on_tool_error tool_name e ErrorClass.timeout =
    failed ("Tool execution timed out: " <> e.message) true
on_tool_error tool_name e ErrorClass.tool_execution =
    failed ("Tool execution failed: " <> e.message) e.retryable
on_tool_error tool_name e _ =
    failed ("Unexpected error executing tool '" <> tool_name <> "': " <> e.message) false

-- What follows the registry's answer.
unfoldable pub on_tool_result :
    (now : ℕ) (tool_name : String)
    → OrchestrationState
    → Result Payload
    → Result (AgentResult Payload) × OrchestrationState
unfolding add_tool_result success_result on_tool_error failed
on_tool_result now tool_name s (ok result) = (
  ok (
      success_result tool_execution_agent
        (("tool_name", Value.str tool_name) ∷ ("result", Value.obj (to_fields result)) ∷ []) none),
  add_tool_result now tool_name (Value.obj (to_fields result)) s,
)
on_tool_result now tool_name s (raises (orchestrator_error e)) =
    (ok (on_tool_error tool_name e e.kind), s)
on_tool_result now tool_name s (raises (other x)) =
    (ok (failed ("Unexpected error executing tool '" <> tool_name <> "': " <> x) false), s)
on_tool_result now tool_name s (raises cancelled) = (raises cancelled, s)

module _ (str : Value → String) where
  -- `validate_input`, for a task.
  unfoldable pub names_tool : Task → Bool
  unfolding get_value is_truthy strip_text nonempty
  names_tool t =
      let tool_name = get_value "tool_name" t.input_data in
      is_truthy tool_name && nonempty (strip_text (str tool_name))

  unfoldable pub tool_name_of : Task → String
  unfolding get_value strip_text
  tool_name_of t = strip_text (str (get_value "tool_name" t.input_data))

module _ (str type_name : Value → String) where
  -- `ToolExecutionAgent.execute` for a task.
  unfoldable pub execute_tool_task :
      ToolRegistry
      → (now : ℕ) → OrchestrationState
      → Task
      → Result (AgentResult Payload) × OrchestrationState
  unfolding names_tool parameters get_value on_tool_result execute_tool failed tool_name_of
  execute_tool_task tools now s t =
      if names_tool str t
      then (elim (parameters t.input_data) [
        | none ↦ (
          ok (
              failed
                ("Tool parameters must be a dictionary, got "
                  <> type_name (get_value "parameters" t.input_data)
                  <> ".")
                false),
          s,
        )
        | some params ↦
            on_tool_result now (tool_name_of str t) s
              (execute_tool tools (tool_name_of str t) params)
      ])
      else (ok (failed "Task input_data missing required 'tool_name' field." false), s)
