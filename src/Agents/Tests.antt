-- ===== src/Agents/Tests.antt =====
-- A critic that asks for a review of the task's output.
use enterprise_multi_agent_o.Base.{
  ℕ, List, Option, String, nat_eq, ◌≡◌, refl, true, false, none, some, [], ◌∷◌, string_eq,
}
use enterprise_multi_agent_o.Core.Types.{
  TaskStatus, TaskType, ValidationStatus, Value, Payload, nonempty,
}
use enterprise_multi_agent_o.Core.Task.{Task}
use enterprise_multi_agent_o.Core.State.{OrchestrationState, create_initial}
use enterprise_multi_agent_o.Errors.{other, Result, ok}
use enterprise_multi_agent_o.Agents.Validator.{CriticEvaluation}
use enterprise_multi_agent_o.Orchestration.Graph.{IsFramed}
use enterprise_multi_agent_o.Base.Dict.{lookup}
use enterprise_multi_agent_o.Base.Lists.{length}
use enterprise_multi_agent_o.Base.Text.{strip_text, lstrip_text, rstrip_text, is_space}
use enterprise_multi_agent_o.Planner.{PlanModel}
use enterprise_multi_agent_o.Tools.{Tool, ToolRegistry, returned}
use enterprise_multi_agent_o.Agents.ToolExecution.{execute_tool_task, get_value, is_truthy}
use enterprise_multi_agent_o.Agents.Retrieval.{
  RetrievalQuery, RetrievalResult, execute_retrieval, query_value, top_k_value, validate_query,
  new_query, query_of_fields,
}
use enterprise_multi_agent_o.Agents.Outcomes.{execute_tool_task-Outcomes}
use enterprise_multi_agent_o.Agents.Searches.{execute_retrieval-Outcomes}
use enterprise_multi_agent_o.Agents.Answers.{ToolOutcomes, SearchOutcomes}
use enterprise_multi_agent_o.Agents.Framework.{framework, framework-IsFramed}

abbrev task : Task
task = record {
  id = "t";
  title = "t";
  description = "t";
  task_type = TaskType.custom;
  assigned_agent = none;
  dependencies = [];
  status = TaskStatus.in_progress;
  input_data = ("target_output", Value.str "42") ∷ [];
  output_data = none;
  error = none;
  retry_count = 0;
  max_retries = 3;
  created_at = 1;
  completed_at = none;
}

abbrev state : OrchestrationState
unfolding create_initial
state = record (create_initial 1 "run" "Compute it" none none 3 none) {
  plan = some (record {
    plan_id = "plan";
    tasks = task ∷ [];
    current_task_id = none;
    rationale = none;
    created_at = 1;
  });
}

abbrev critique : CriticEvaluation
critique = record {
  is_valid = true;
  status = ValidationStatus.valid;
  feedback = "Irreversible.";
  issues = [];
  needs_retry = false;
  needs_human_review = true;
}

abbrev quote : Value → String
quote v = "?"

-- A registry with one tool, and a task that calls it.
abbrev adder : Tool
adder = record {
  name = "add";
  timeout_seconds = "30.0";
  model_validate = λ raw. ok raw;
  execute = λ input. returned (("sum", Value.num 5) ∷ []);
}

abbrev tools : ToolRegistry
tools = ("add", adder) ∷ []

abbrev adding : Task
adding = record task { input_data = ("tool_name", Value.str "add") ∷ [] }

abbrev text_of_value : Value → String
text_of_value (Value.str s) = s
text_of_value _ = "?"

execute_tool_task-Outcomes_example :
    ToolOutcomes text_of_value tools adding state
      (execute_tool_task text_of_value quote tools 8 state adding)
execute_tool_task-Outcomes_example =
    execute_tool_task-Outcomes text_of_value quote tools 8 state adding

-- A store that finds nothing, and a task that asks for no matches.
abbrev nothing_found : RetrievalQuery → Result RetrievalResult
nothing_found q = ok (record { matches = []; total_found = 0 })

abbrev as_int : Value → Option ℕ
as_int (Value.num n) = some n
as_int _ = none

abbrev list_value : List Payload → Value
list_value items = Value.num (length items)

abbrev searching : Task
searching = record task { input_data = ("query", Value.str "cats") ∷ ("top_k", Value.num 0) ∷ [] }

searching-raises :
    (execute_retrieval quote as_int "invalid" list_value nothing_found 8 state searching).0
    ≡ Result.raises (other "invalid")
unfolding execute_retrieval query_value top_k_value get_value is_truthy validate_query new_query
    query_of_fields lookup string_eq nonempty strip_text lstrip_text rstrip_text is_space nat_eq
searching-raises = refl

execute_retrieval-Outcomes_example :
    SearchOutcomes as_int list_value nothing_found state searching
      (execute_retrieval quote as_int "invalid" list_value nothing_found 8 state searching)
execute_retrieval-Outcomes_example =
    execute_retrieval-Outcomes quote as_int "invalid" list_value nothing_found 8 state searching

abbrev no_model : PlanModel
no_model request context = Result.raises (other "absent")

framework-IsFramed_example : IsFramed (
    framework quote as_int "invalid" list_value nothing_found no_model "plan" text_of_value quote
      tools
      (λ r c t. ok (critique, ""))
      8)
framework-IsFramed_example =
    framework-IsFramed quote as_int "invalid" list_value nothing_found no_model "plan" text_of_value
      quote tools (λ r c t. ok (critique, "")) 8
