-- ===== src/Orchestration/Progress/Work.antt =====
-- The length of executions of a plan: the nodes that work on a task.
use enterprise_multi_agent_o.Base.{ℕ, ◌-◌, ◌≤◌, ◌≡◌, inl, inr, string_eq, nat_eq, arith, Bool-cases}
use enterprise_multi_agent_o.Core.Types.{text_or}
use enterprise_multi_agent_o.Core.Task.{mark_in_progress, mark_failed}
use enterprise_multi_agent_o.Core.State.{increment_step, record_error, add_agent_output}
use enterprise_multi_agent_o.Errors.{Result-cases}
use enterprise_multi_agent_o.Agents.Result.{is_success}
use enterprise_multi_agent_o.Orchestration.Graph.{Run, returns, Env, Agents, IsFramed, change_task}
use enterprise_multi_agent_o.Orchestration.Nodes.{retrieval_node, tool_node, set_output}
use enterprise_multi_agent_o.Orchestration.Routing.{Node}
use enterprise_multi_agent_o.Orchestration.Progress.{
  Bound, at_retrieval, at_tool, set_output-IsWork, mark_failed-IsWork, active-current, worked-Bound,
}

module _ (agents : Agents) (framed : IsFramed agents) where
  pub retrieval-Bound :
      (env : Env) (r r' : Run) (b : ℕ)
      → retrieval_node agents env r ≡ returns r'
      → Bound Node.retrieval r.graph b
      → (1 ≤ b) × Bound Node.validator r'.graph (b - 1)
  unfolding retrieval_node change_task add_agent_output increment_step record_error
  retrieval-Bound env r r' b h (at_retrieval ts t has sound it pend le) =
      let active = active-current has sound it in
      let s =
        increment_step env.now "retrieval_agent"
          (change_task t.id mark_in_progress r.graph.state) in
      let frame = framed.retriever s t in
      elim (Result-cases (agents.retriever s t).0) [
        | inr (e, raised) ↦ absurd (ground (arith, h, active, raised))
        | inl (a, answered) ↦ elim (Bool-cases (is_success a.status)) [
          | inl good ↦
              worked-Bound has sound it (set_output a.output) (set_output-IsWork a.output) pend le
                r'.graph (ground (arith, h, active, answered, good))
                (ground (arith, h, active, answered, good, has.undecided))
                (ground (arith, h, active, answered, good, frame.plan, has.planned))
          | inr bad ↦
              worked-Bound has sound it (mark_failed env.now (text_or a.error "Retrieval failed"))
                (mark_failed-IsWork env.now (text_or a.error "Retrieval failed")) pend le r'.graph
                (ground (arith, h, active, answered, bad))
                (ground (arith, h, active, answered, bad, has.undecided))
                (ground (arith, h, active, answered, bad, frame.plan, has.planned))
        ]
      ]

  pub tool-Bound :
      (env : Env) (r r' : Run) (b : ℕ)
      → tool_node agents env r ≡ returns r'
      → Bound Node.tool r.graph b
      → (1 ≤ b) × Bound Node.validator r'.graph (b - 1)
  unfolding tool_node change_task add_agent_output increment_step record_error
  tool-Bound env r r' b h (at_tool ts t has sound it pend le) =
      let active = active-current has sound it in
      let s =
        increment_step env.now "tool_execution_agent"
          (change_task t.id mark_in_progress r.graph.state) in
      let frame = framed.tool_executor s t in
      elim (Result-cases (agents.tool_executor s t).0) [
        | inr (e, raised) ↦ absurd (ground (arith, h, active, raised))
        | inl (a, answered) ↦ elim (Bool-cases (is_success a.status)) [
          | inl good ↦
              worked-Bound has sound it (set_output a.output) (set_output-IsWork a.output) pend le
                r'.graph (ground (arith, h, active, answered, good))
                (ground (arith, h, active, answered, good, has.undecided))
                (ground (arith, h, active, answered, good, frame.plan, has.planned))
          | inr bad ↦
              worked-Bound has sound it
                (mark_failed env.now (text_or a.error "Tool execution failed"))
                (mark_failed-IsWork env.now (text_or a.error "Tool execution failed")) pend le
                r'.graph (ground (arith, h, active, answered, bad))
                (ground (arith, h, active, answered, bad, has.undecided))
                (ground (arith, h, active, answered, bad, frame.plan, has.planned))
        ]
      ]
