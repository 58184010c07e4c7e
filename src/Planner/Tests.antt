-- ===== src/Planner/Tests.antt =====
-- A plan of three tasks, on which the theorems of this folder are applied.
use enterprise_multi_agent_o.Base.{String, ◌≡◌, refl, true, none, List, [], ◌∷◌, string_eq, nat_eq}
use enterprise_multi_agent_o.Base.Lists.{any}
use enterprise_multi_agent_o.Core.Types.{TaskType, AgentRole, truthy}
use enterprise_multi_agent_o.Core.Task.{
  ExecutionPlan, get_ready_tasks, mark_completed, update_task, is_pending,
}
use enterprise_multi_agent_o.Core.State.{OrchestrationState, create_initial}
use enterprise_multi_agent_o.Errors.{ok}
use enterprise_multi_agent_o.Planner.{
  PlannedTaskItem, PlannedDecompositionSchema, validate_plan_dag, domain_tasks, graph_of, PlanModel,
  execute,
}
use enterprise_multi_agent_o.Planner.Dag.{
  IsDag, validate_plan_dag-IsDag, validate_plan_dag_complete,
}
use enterprise_multi_agent_o.Planner.Ready.{task_graph, IsOpen, validated-get_ready_tasks}
use enterprise_multi_agent_o.Planner.Execute.{Outcome, execute-Outcome}

abbrev planned : String → TaskType → List String → PlannedTaskItem
planned id task_type dependencies = record {
  id = id;
  title = id;
  description = id;
  task_type = task_type;
  assigned_agent = AgentRole.custom;
  dependencies = dependencies;
  input_data = [];
}

abbrev report : PlannedDecompositionSchema
report = record {
  rationale = "search, compute, report";
  tasks =
      planned "search" TaskType.retrieval []
      ∷ planned "compute" TaskType.tool_execution ("search" ∷ [])
      ∷ planned "report" TaskType.synthesis ("search" ∷ "compute" ∷ [])
      ∷ [];
}

report-valid : validate_plan_dag report ≡ ok tt
unfolding validate_plan_dag string_eq nat_eq
report-valid = refl

validate_plan_dag-IsDag_example : IsDag report.tasks
validate_plan_dag-IsDag_example = validate_plan_dag-IsDag report report-valid

validate_plan_dag_complete_example : validate_plan_dag report ≡ ok tt
validate_plan_dag_complete_example =
    validate_plan_dag_complete report (validate_plan_dag-IsDag report report-valid)

-- The plan once its first task has completed.
abbrev searched : ExecutionPlan
unfolding update_task domain_tasks mark_completed string_eq
searched = record {
  plan_id = "plan";
  tasks = update_task "search" (mark_completed 5 []) (domain_tasks 1 report.tasks);
  current_task_id = none;
  rationale = none;
  created_at = 1;
}

searched-graph : task_graph searched.tasks ≡ graph_of report.tasks
unfolding task_graph graph_of update_task domain_tasks mark_completed string_eq
searched-graph = refl

searched-IsOpen : IsOpen searched.tasks
unfolding update_task domain_tasks mark_completed string_eq
searched-IsOpen = (refl, (refl, (refl, tt)))

searched-waiting : any (λ t. is_pending t.status) searched.tasks ≡ true
unfolding update_task domain_tasks mark_completed string_eq
searched-waiting = refl

validated-get_ready_tasks_example : truthy (get_ready_tasks searched) ≡ true
validated-get_ready_tasks_example =
    validated-get_ready_tasks report searched report-valid searched-graph searched-IsOpen
      searched-waiting

abbrev model : PlanModel
model request context = ok (report, "")

abbrev asked : OrchestrationState
unfolding create_initial
asked = create_initial 1 "run" "Report on it" none none 3 none

execute-Outcome_example : Outcome model asked (execute model "plan" 1 asked)
execute-Outcome_example = execute-Outcome model "plan" 1 asked
