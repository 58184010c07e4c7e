-- ===== src/Tools.antt =====
-- tools/registry.py and tools/base.py: the registered tools and the dispatch of a call.
use enterprise_multi_agent_o.Base.{
  String, ◌<>◌, Bool, true, false, Option, none, some, if◌then◌else◌, is_some, string_eq,
}
use enterprise_multi_agent_o.Base.Dict.{Dict, lookup, insert, erase}
use enterprise_multi_agent_o.Core.Types.{Payload}
use enterprise_multi_agent_o.Errors.{
  ErrorClass, Exception, orchestrator_error, other, cancelled, Result, ok, raises, text_of,
  validation_error, timeout_error, tool_not_found_error, tool_execution_error,
}

-- What `asyncio.wait_for` makes of a tool's `execute`: its output as a dict, the timeout, or an
-- exception.
pub data ToolOutcome : Type 0 where
  returned : Payload → ToolOutcome
  timed_out : ToolOutcome
  raised : Exception → ToolOutcome

-- A tool: the name and the timeout of its metadata, the latter as printed, what its input schema
-- makes of raw input, and its execution.
pub record Tool : Type 0 where
  pub name : String
  pub timeout_seconds : String
  pub model_validate : Payload → Result Payload
  pub execute : Payload → ToolOutcome

abbrev pub ToolRegistry : Type 0
ToolRegistry = Dict String Tool

-- `ValueError` if the name is taken.
unfoldable pub register : Tool → ToolRegistry → Result ToolRegistry
unfolding lookup insert
register tool tools =
    if is_some (lookup tool.name tools)
    then raises (other ("Tool '" <> tool.name <> "' is already registered."))
    else ok (insert tool.name tool tools)

unfoldable pub unregister : String → ToolRegistry → Bool × ToolRegistry
unfolding lookup erase
unregister tool_name tools =
    if is_some (lookup tool_name tools) then (true, erase tool_name tools) else (false, tools)

unfoldable pub get_tool : String → ToolRegistry → Option Tool
unfolding lookup
get_tool tool_name tools = lookup tool_name tools

unfoldable pub exists : String → ToolRegistry → Bool
unfolding lookup
exists tool_name tools = is_some (lookup tool_name tools)

-- `BaseTool.validate_input`
unfoldable pub validate_tool_input : Tool → Payload → Result Payload
unfolding validation_error
validate_tool_input tool raw_input = elim (tool.model_validate raw_input) [
  | ok input ↦ ok input
  | raises e ↦ raises (
      orchestrator_error (
        validation_error ("Validation failed for tool '" <> tool.name <> "' input: " <> text_of e)
          "VALIDATION_ERROR"))
]

abbrev passes_on : ErrorClass → Bool
passes_on ErrorClass.tool_not_found = true
passes_on ErrorClass.timeout = true
passes_on _ = false

abbrev execution_failed : String → Exception → Result Payload
unfolding tool_execution_error
execution_failed tool_name e = raises (
    orchestrator_error
      (tool_execution_error ("Tool '" <> tool_name <> "' execution failed: " <> text_of e) true))

-- The `except` clauses of `execute`, which a cancellation passes.
unfoldable pub tool_result : (tool_name : String) → Tool → ToolOutcome → Result Payload
unfolding timeout_error execution_failed
tool_result tool_name tool (returned output) = ok output
tool_result tool_name tool timed_out = raises (
    orchestrator_error (
      timeout_error
        ("Tool '" <> tool_name <> "' timed out after " <> tool.timeout_seconds <> " seconds.")))
tool_result tool_name tool (raised (orchestrator_error e)) =
    if passes_on e.kind
    then raises (orchestrator_error e)
    else execution_failed tool_name (orchestrator_error e)
tool_result tool_name tool (raised (other s)) = execution_failed tool_name (other s)
tool_result tool_name tool (raised cancelled) = raises cancelled

-- `ToolRegistry.execute`
unfoldable pub execute_tool : ToolRegistry → (tool_name : String) → Payload → Result Payload
unfolding get_tool tool_not_found_error validate_tool_input tool_result
execute_tool tools tool_name input_data = elim (get_tool tool_name tools) [
  | none ↦ raises (orchestrator_error (tool_not_found_error tool_name))
  | some tool ↦ elim (validate_tool_input tool input_data) [
    | raises e ↦ raises e
    | ok validated_input ↦ tool_result tool_name tool (tool.execute validated_input)
  ]
]
