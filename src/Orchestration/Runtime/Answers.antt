-- ===== src/Orchestration/Runtime/Answers.antt =====
-- orchestration/nodes.py: no node raises while the agents answer.
use enterprise_multi_agent_o.Base.{
  String, ◌≢◌, inl, inr, Option, string_eq, nat_eq, arith, Option-cases, Bool-cases,
}
use enterprise_multi_agent_o.Core.Task.{Task, mark_in_progress}
use enterprise_multi_agent_o.Core.State.{OrchestrationState, increment_step}
use enterprise_multi_agent_o.Errors.{Exception, raises, Result-cases}
use enterprise_multi_agent_o.Agents.Result.{is_success}
use enterprise_multi_agent_o.Orchestration.Graph.{
  Run, NodeResult, Env, Agents, active_task, change_task,
}
use enterprise_multi_agent_o.Orchestration.Nodes.{
  supervisor_node, dispatch, planner_node, planned, retrieval_node, tool_node, missing_task,
}
use enterprise_multi_agent_o.Orchestration.Gates.{validator_node, apply_ruling, Ruling}
use enterprise_multi_agent_o.Orchestration.GateNode.{human_gate_node, decide, await_human}
use enterprise_multi_agent_o.Orchestration.Endings.{synthesis_node, failed_node}
use enterprise_multi_agent_o.Orchestration.Routing.{Node, run_node, Setup}

-- Agents that answer every call.
pub record IsAnswering (agents : Agents) : Type 0 where
  pub planner : (s : OrchestrationState) (x : Exception) → (agents.planner s).0 ≢ raises x
  pub retriever :
      (s : OrchestrationState) (t : Task) (x : Exception) → (agents.retriever s t).0 ≢ raises x
  pub tool_executor :
      (s : OrchestrationState) (t : Task) (x : Exception) → (agents.tool_executor s t).0 ≢ raises x
  pub validator :
      (s : OrchestrationState) (t : Task) (x : Exception) → (agents.validator s t).0 ≢ raises x

module _ (u : Setup) (answers : IsAnswering u.agents) (env : Env) where
  supervisor_node-answers :
      (r r' : Run) (x : Exception) → supervisor_node env r ≢ NodeResult.raises x r'
  unfolding supervisor_node dispatch
  supervisor_node-answers r r' x h = ground (arith, h)

  planner_node-answers :
      (r r' : Run) (x : Exception)
      → planner_node u.agents u.plan_data env r ≢ NodeResult.raises x r'
  unfolding planner_node
  planner_node-answers r r' x h =
      let s = increment_step env.now "planner_agent" r.graph.state in
      elim (Result-cases (u.agents.planner s).0) [
        | inr (y, raised) ↦ answers.planner s y raised
        | inl (a, answered) ↦ ground (arith, h, answered, Option-cases (planned a))
      ]

  retrieval_node-answers :
      (r r' : Run) (x : Exception) → retrieval_node u.agents env r ≢ NodeResult.raises x r'
  unfolding retrieval_node missing_task
  retrieval_node-answers r r' x h =
      elim (Option-cases (active_task r.graph.state r.graph.current_task_id)) [
        | inl nothing ↦ ground (arith, h, nothing)
        | inr (t, active) ↦
            let s =
              increment_step env.now "retrieval_agent"
                (change_task t.id mark_in_progress r.graph.state) in
            elim (Result-cases (u.agents.retriever s t).0) [
              | inr (y, raised) ↦ answers.retriever s t y raised
              | inl (a, answered) ↦
                  ground (arith, h, active, answered, Bool-cases (is_success a.status))
            ]
      ]

  tool_node-answers :
      (r r' : Run) (x : Exception) → tool_node u.agents env r ≢ NodeResult.raises x r'
  unfolding tool_node missing_task
  tool_node-answers r r' x h =
      elim (Option-cases (active_task r.graph.state r.graph.current_task_id)) [
        | inl nothing ↦ ground (arith, h, nothing)
        | inr (t, active) ↦
            let s =
              increment_step env.now "tool_execution_agent"
                (change_task t.id mark_in_progress r.graph.state) in
            elim (Result-cases (u.agents.tool_executor s t).0) [
              | inr (y, raised) ↦ answers.tool_executor s t y raised
              | inl (a, answered) ↦
                  ground (arith, h, active, answered, Bool-cases (is_success a.status))
            ]
      ]

  apply_ruling-answers :
      (t : Task) (f : Option String) (v : Ruling) (r r' : Run) (x : Exception)
      → apply_ruling env t f v r ≢ NodeResult.raises x r'
  unfolding apply_ruling
  apply_ruling-answers t f v r r' x h = ground (arith, h)

  validator_node-answers :
      (r r' : Run) (x : Exception) → validator_node u.agents env r ≢ NodeResult.raises x r'
  unfolding validator_node
  validator_node-answers r r' x h =
      elim (Option-cases (active_task r.graph.state r.graph.current_task_id)) [
        | inl nothing ↦ ground (arith, h, nothing)
        | inr (t, active) ↦
            let s = increment_step env.now "validator_agent" r.graph.state in
            elim (Result-cases (u.agents.validator s t).0) [
              | inr (y, raised) ↦ answers.validator s t y raised
              | inl (a, answered) ↦ grind (arith, h, active, answered, apply_ruling-answers)
            ]
      ]

  human_gate_node-answers :
      (r r' : Run) (x : Exception) → human_gate_node env r ≢ NodeResult.raises x r'
  unfolding human_gate_node decide await_human
  human_gate_node-answers r r' x h = ground (arith, h)

  synthesis_node-answers :
      (r r' : Run) (x : Exception) → synthesis_node u.show env r ≢ NodeResult.raises x r'
  unfolding synthesis_node
  synthesis_node-answers r r' x h = ground (arith, h)

  failed_node-answers : (r r' : Run) (x : Exception) → failed_node env r ≢ NodeResult.raises x r'
  unfolding failed_node
  failed_node-answers r r' x h = ground (arith, h)

  pub run_node-answers :
      (n : Node) (r r' : Run) (x : Exception) → run_node u env n r ≢ NodeResult.raises x r'
  unfolding run_node
  run_node-answers Node.supervisor r r' x h = supervisor_node-answers r r' x h
  run_node-answers Node.planner r r' x h = planner_node-answers r r' x h
  run_node-answers Node.retrieval r r' x h = retrieval_node-answers r r' x h
  run_node-answers Node.tool r r' x h = tool_node-answers r r' x h
  run_node-answers Node.validator r r' x h = validator_node-answers r r' x h
  run_node-answers Node.human_gate r r' x h = human_gate_node-answers r r' x h
  run_node-answers Node.synthesis r r' x h = synthesis_node-answers r r' x h
  run_node-answers Node.failed r r' x h = failed_node-answers r r' x h
