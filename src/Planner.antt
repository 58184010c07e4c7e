-- ===== src/Planner.antt =====
-- src/enterprise_orchestrator/agents/planner.py: the agent that turns a request into a plan. The
-- model that it asks is a parameter.
pub mod Kahn
pub mod Dag
pub mod Ready
pub mod Execute
mod Tests
use enterprise_multi_agent_o.Base.{
  ℕ, String, ◌<>◌, Bool, true, false, not, Option, none, some, List, [], ◌∷◌, ◌==◌, contains,
  if◌then◌else◌, string_eq, nat_eq,
}
use enterprise_multi_agent_o.Base.Lists.{length}
use enterprise_multi_agent_o.Base.Text.{is_nonblank}
use enterprise_multi_agent_o.Core.Types.{
  TaskStatus, TaskType, AgentRole, Payload, truthy, show_list,
}
use enterprise_multi_agent_o.Core.Task.{Task, ExecutionPlan}
use enterprise_multi_agent_o.Core.State.{OrchestrationState}
use enterprise_multi_agent_o.Errors.{
  ErrorClass, OrchestratorError, Exception, orchestrator_error, other, cancelled, Result, ok,
  raises, ◌>>◌, ◌>>=◌, raise_if, validation_error, text_of,
}
use enterprise_multi_agent_o.Agents.Result.{AgentResult, success_result, failure_result}
use enterprise_multi_agent_o.Planner.Kahn.{Graph, node_ids, visited_count}

pub record PlannedTaskItem : Type 0 where
  pub id : String
  pub title : String
  pub description : String
  pub task_type : TaskType
  pub assigned_agent : AgentRole
  pub dependencies : List String
  pub input_data : Payload

pub record PlannedDecompositionSchema : Type 0 where
  pub rationale : String
  pub tasks : List PlannedTaskItem

unfoldable pub graph_of : List PlannedTaskItem → Graph
graph_of [] = []
graph_of (t ∷ ts) = (t.id, t.dependencies) ∷ graph_of ts

-- `set(xs)`, in the order of the last occurrences.
unfoldable pub distinct : List String → List String
distinct [] = []
distinct (x ∷ xs) = let rest = distinct xs in if contains xs x then rest else x ∷ rest

-- `[x for x in task_ids if x in seen or seen.add(x)]`
unfoldable pub duplicates : (seen : List String) → List String → List String
duplicates seen [] = []
duplicates seen (x ∷ xs) =
    let again = duplicates seen xs in
    let first = duplicates (x ∷ seen) xs in if contains seen x then x ∷ again else first

-- The inner loop of step 2.
unfoldable pub check_references :
    (ids : List String) (task_id : String) → List String → Result (Unit {0})
check_references ids task_id [] = ok tt
check_references ids task_id (dep ∷ deps) =
    let rest = check_references ids task_id deps in
    if contains ids dep
    then rest
    else raises (
        orchestrator_error (
          validation_error
            ("Task '" <> task_id <> "' references non-existent dependency '" <> dep <> "'.")
            "INVALID_DEPENDENCY_REFERENCE"))

-- Step 2: no task depends on itself, or on what is no task.
unfoldable pub check_dependencies : (ids : List String) → List PlannedTaskItem → Result (Unit {0})
unfolding check_references
check_dependencies ids [] = ok tt
check_dependencies ids (t ∷ ts) =
    let rest = check_dependencies ids ts in
    if contains t.dependencies t.id
    then raises (
        orchestrator_error (
          validation_error
            ("Task '" <> t.id <> "' cannot depend on itself (self-dependency detected).")
            "SELF_DEPENDENCY"))
    else check_references ids t.id t.dependencies >> rest

unfoldable pub validate_plan_dag : PlannedDecompositionSchema → Result (Unit {0})
unfolding graph_of distinct duplicates show_list check_dependencies visited_count validation_error
validate_plan_dag plan = do
  let g = graph_of plan.tasks
  let task_ids = node_ids g
  raise_if (not (truthy plan.tasks))
      (validation_error "Planner generated an empty task list." "EMPTY_PLAN")
  raise_if (not (length task_ids == length (distinct task_ids))) (
      validation_error ("Plan contains duplicate task IDs: " <> show_list (duplicates [] task_ids))
        "DUPLICATE_TASK_IDS")
  check_dependencies task_ids plan.tasks
  raise_if (not (visited_count g == length task_ids)) (
      validation_error "Plan contains cyclic dependencies (not a valid DAG)."
        "CYCLIC_PLAN_DEPENDENCY")

-- The domain task of a planned one.
unfoldable pub domain_task : ℕ → PlannedTaskItem → Task
domain_task now t = record {
  id = t.id;
  title = t.title;
  description = t.description;
  task_type = t.task_type;
  assigned_agent = some t.assigned_agent;
  dependencies = t.dependencies;
  status = TaskStatus.pending;
  input_data = t.input_data;
  output_data = none;
  error = none;
  retry_count = 0;
  max_retries = 3;
  created_at = now;
  completed_at = none;
}

unfoldable pub domain_tasks : ℕ → List PlannedTaskItem → List Task
unfolding domain_task
domain_tasks now [] = []
domain_tasks now (t ∷ ts) = domain_task now t ∷ domain_tasks now ts

-- The entry of the planner's output dict that its caller reads. `model_dump` and `model_validate`
-- carry the plan through a dict and back.
pub record PlanOutput : Type 0 where
  pub execution_plan : Option ExecutionPlan

-- `router.generate_structured` for the planner's prompt about a request and its context: the
-- parsed schema and the text of the response.
abbrev pub PlanModel : Type 0
PlanModel =
    (request : String) (custom_context : Payload) → Result (PlannedDecompositionSchema × String)

abbrev planner_agent : String
planner_agent = "planner_agent"

abbrev is_validation : ErrorClass → Bool
is_validation ErrorClass.validation = true
is_validation _ = false

-- The `except` clauses of `execute`.
pub on_error : Exception → Result (AgentResult PlanOutput)
unfolding failure_result
on_error (orchestrator_error e) = ok (
    failure_result planner_agent
      ((if is_validation e.kind
          then "Plan validation failed: "
          else "Provider error during planning: ")
        <> e.message)
      e.retryable)
on_error (other s) =
    ok (failure_result planner_agent ("Unexpected error in PlannerAgent: " <> s) false)
on_error cancelled = raises cancelled

-- `PlannerAgent.execute`, with the id and the time that `ExecutionPlan` draws.
unfoldable pub execute :
    PlanModel → (plan_id : String) (now : ℕ) → OrchestrationState → Result (AgentResult PlanOutput)
unfolding on_error success_result failure_result validate_plan_dag domain_tasks is_nonblank
execute model plan_id now s =
    let attempt : Result (AgentResult PlanOutput) = (do
      (parsed_plan, content) ← model s.request s.custom_context
      validate_plan_dag parsed_plan
      ok (
          success_result planner_agent
            (record {
              execution_plan = some (record {
                plan_id = plan_id;
                tasks = domain_tasks now parsed_plan.tasks;
                current_task_id = none;
                rationale = some parsed_plan.rationale;
                created_at = now;
              });
            })
            (some content))) in
    if is_nonblank s.request
    then elim attempt [ ok r ↦ ok r | raises e ↦ on_error e ]
    else ok (failure_result planner_agent "State request is empty or invalid for planning." false)
