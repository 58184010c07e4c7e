-- ===== src/Orchestration/Nodes.antt =====
-- orchestration/nodes.py: the supervisor and the nodes that call the planner, the retriever and a
-- tool. Spans of the tracer are left out.
use enterprise_multi_agent_o.Base.{
  ℕ, String, ◌<>◌, Bool, true, false, Option, none, some, [], ◌∷◌, if◌then◌else◌, is_some,
}
use enterprise_multi_agent_o.Base.Lists.{head?}
use enterprise_multi_agent_o.Core.Types.{
  ExecutionStatus, TaskType, Payload, Value, show_option, text_or, to_value,
}
use enterprise_multi_agent_o.Core.Task.{
  Task, ExecutionPlan, get_ready_tasks, all_completed, has_failed_tasks, mark_in_progress,
  mark_failed,
}
use enterprise_multi_agent_o.Core.State.{
  OrchestrationState, increment_step, add_agent_output, record_error, fail_run,
}
use enterprise_multi_agent_o.Errors.{Result}
use enterprise_multi_agent_o.Agents.Result.{AgentResult, is_success}
use enterprise_multi_agent_o.Planner.{PlanOutput}
use enterprise_multi_agent_o.Orchestration.Graph.{
  NextAction, Effect, AuditEventType, Run, NodeResult, Env, Agents, with_state, emit, go_to,
  active_task, change_task, task_error, returns,
}

abbrev pub is_failed_run : ExecutionStatus → Bool
is_failed_run ExecutionStatus.failed = true
is_failed_run _ = false

-- The node that the type of a task asks for.
unfoldable pub action_for : TaskType → NextAction
action_for TaskType.retrieval = NextAction.retrieval
action_for TaskType.planning = NextAction.planner
action_for TaskType.synthesis = NextAction.synthesis
action_for _ = NextAction.tool

abbrev deadlock : Payload
deadlock =
    ("error", Value.str "Dependency deadlock: tasks remain pending with unmet dependencies.") ∷ []

-- The supervisor's choice where the run has a plan.
unfoldable pub dispatch : ℕ → ExecutionPlan → Run → NodeResult
unfolding record_error
dispatch now p r = elim (head? (get_ready_tasks p)) [
  | some task ↦ returns (record r {
    graph = record r.graph {
      current_task_id = some task.id;
      next_action = some (action_for task.task_type);
    };
  })
  | none ↦
      if all_completed p
      then go_to NextAction.synthesis r
      else if has_failed_tasks p
      then go_to NextAction.failed r
      else go_to NextAction.failed (with_state (record_error now deadlock r.graph.state) r)
]

unfoldable pub supervisor_node : Env → Run → NodeResult
unfolding increment_step dispatch
supervisor_node env r₀ =
    let s = increment_step env.now "supervisor" r₀.graph.state in
    let r = with_state s r₀ in
    if is_some r.graph.human_decision
    then go_to NextAction.human_gate r
    else if is_failed_run s.metadata.status
    then go_to NextAction.failed r
    else if s.requires_human
    then go_to NextAction.human_gate r
    else elim s.plan [ none ↦ go_to NextAction.planner r | some p ↦ dispatch env.now p r ]

-- The plan of a successful planner result: `result.output and "execution_plan" in result.output`.
abbrev pub planned : AgentResult PlanOutput → Option ExecutionPlan
planned result =
    if is_success result.status
    then (elim result.output [ none ↦ none | some o ↦ o.execution_plan ])
    else none

-- `if not task:` at the head of the two nodes below.
unfoldable pub missing_task : Env → Run → NodeResult
unfolding fail_run
missing_task env r = go_to NextAction.failed (
    with_state
      (fail_run env.now
        ("Active task ID '" <> show_option r.graph.current_task_id <> "' not found in plan.")
        r.graph.state)
      r)

-- `task.output_data = result.output`
abbrev pub set_output : Option Payload → Task → Task
set_output output t = record t { output_data = output }

-- The failing end of the two nodes below.
abbrev pub task_failed : ℕ → Task → Option String → String → OrchestrationState → OrchestrationState
unfolding change_task mark_failed record_error text_or
task_failed now task error message s =
    record_error now (task_error task.id error)
      (change_task task.id (mark_failed now (text_or error message)) s)

module _ (agents : Agents) where
  -- `ExecutionPlan.model_validate` gives back the plan that `model_dump` wrote; the dumped plan,
  -- which `agent_outputs` also keeps, is an opaque value.
  unfoldable pub planner_node : Value → Env → Run → NodeResult
  unfolding increment_step add_agent_output fail_run
  planner_node plan_data env r₀ =
      let s = increment_step env.now "planner_agent" r₀.graph.state in
      let (result, s₁) = agents.planner s in
      let r = with_state s₁ r₀ in
      elim result [
        | Result.raises e ↦ NodeResult.raises e r
        | Result.ok a ↦ elim (planned a) [
          | some p ↦ go_to NextAction.supervisor (
              emit
                (Effect.observe "planner_duration_seconds"
                  ∷ Effect.audit AuditEventType.plan_created "generate_execution_plan" "SUCCESS"
                  ∷ [])
                (with_state
                  (add_agent_output env.now "planner_agent" plan_data (record s₁ { plan = some p }))
                  r))
          | none ↦ returns (
              emit
                (Effect.observe "planner_duration_seconds"
                  ∷ Effect.audit AuditEventType.plan_created "generate_execution_plan" "FAILURE"
                  ∷ [])
                (record r {
                  graph = record r.graph {
                    state = fail_run env.now ("Planner failed: " <> show_option a.error) s₁;
                    next_action = some NextAction.failed;
                    error = a.error;
                  };
                }))
        ]
      ]

  unfoldable pub retrieval_node : Env → Run → NodeResult
  unfolding active_task missing_task change_task mark_in_progress increment_step add_agent_output
      mark_failed record_error text_or
  retrieval_node env r₀ = elim (active_task r₀.graph.state r₀.graph.current_task_id) [
    | none ↦ missing_task env r₀
    | some task ↦
        let s =
          increment_step env.now "retrieval_agent"
            (change_task task.id mark_in_progress r₀.graph.state) in
        let (result, s₁) = agents.retriever s task in
        let r = emit (Effect.counter_inc "retrieval_queries_total" ∷ []) (with_state s₁ r₀) in
        elim result [
          | Result.raises e ↦ NodeResult.raises e r
          | Result.ok a ↦
              let r₁ = emit (Effect.observe "retrieval_duration_seconds" ∷ []) r in
              if is_success a.status
              then go_to NextAction.validator (
                  emit
                    (Effect.audit AuditEventType.retrieval_executed "query_documents" "SUCCESS"
                      ∷ [])
                    (with_state
                      (add_agent_output env.now "retrieval_agent" (to_value a.output)
                        (change_task task.id (set_output a.output) s₁))
                      r₁))
              else go_to NextAction.validator
                  (with_state (task_failed env.now task a.error "Retrieval failed" s₁) r₁)
        ]
  ]

  unfoldable pub tool_node : Env → Run → NodeResult
  unfolding active_task missing_task change_task mark_in_progress increment_step mark_failed
      record_error text_or
  tool_node env r₀ = elim (active_task r₀.graph.state r₀.graph.current_task_id) [
    | none ↦ missing_task env r₀
    | some task ↦
        let s =
          increment_step env.now "tool_execution_agent"
            (change_task task.id mark_in_progress r₀.graph.state) in
        let (result, s₁) = agents.tool_executor s task in
        let r = emit (Effect.counter_inc "tool_executions_total" ∷ []) (with_state s₁ r₀) in
        elim result [
          | Result.raises e ↦ NodeResult.raises e r
          | Result.ok a ↦
              let r₁ = emit (Effect.observe "tool_duration_seconds" ∷ []) r in
              if is_success a.status
              then go_to NextAction.validator (
                  emit (Effect.audit AuditEventType.tool_invoked "execute_tool" "SUCCESS" ∷ [])
                    (with_state (change_task task.id (set_output a.output) s₁) r₁))
              else go_to NextAction.validator (
                  emit (Effect.audit AuditEventType.tool_invoked "execute_tool" "FAILURE" ∷ [])
                    (with_state (task_failed env.now task a.error "Tool execution failed" s₁) r₁))
        ]
  ]
