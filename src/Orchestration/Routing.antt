-- ===== src/Orchestration/Routing.antt =====
-- orchestration/runtime.py, `_build_graph`: the nodes and edges of the workflow. LangGraph runs one
-- node after another along the edges; an execution is here a path of node runs.
use enterprise_multi_agent_o.Base.{ℕ, suc, String, ◌≡◌, Option, none, some}
use enterprise_multi_agent_o.Core.Types.{Payload, Value}
use enterprise_multi_agent_o.Orchestration.Graph.{
  NextAction, GraphState, Run, NodeResult, returns, Env, Agents,
}
use enterprise_multi_agent_o.Orchestration.Nodes.{
  supervisor_node, planner_node, retrieval_node, tool_node,
}
use enterprise_multi_agent_o.Orchestration.Gates.{validator_node}
use enterprise_multi_agent_o.Orchestration.GateNode.{human_gate_node}
use enterprise_multi_agent_o.Orchestration.Endings.{synthesis_node, failed_node}

pub data Node : Type 0 where
  supervisor planner retrieval tool validator human_gate synthesis failed : Node

unfoldable pub supervisor_router : Option NextAction → Node
supervisor_router (some NextAction.planner) = Node.planner
supervisor_router (some NextAction.retrieval) = Node.retrieval
supervisor_router (some NextAction.tool) = Node.tool
supervisor_router (some NextAction.human_gate) = Node.human_gate
supervisor_router (some NextAction.synthesis) = Node.synthesis
supervisor_router _ = Node.failed

unfoldable pub validator_router : Option NextAction → Node
validator_router (some NextAction.human_gate) = Node.human_gate
validator_router _ = Node.supervisor

-- `none` is END.
unfoldable pub human_gate_router : Option NextAction → Option Node
human_gate_router (some NextAction.failed) = some Node.failed
human_gate_router (some NextAction.supervisor) = some Node.supervisor
human_gate_router _ = none

-- The edges.
unfoldable pub next_node : Node → GraphState → Option Node
unfolding supervisor_router validator_router human_gate_router
next_node Node.supervisor g = some (supervisor_router g.next_action)
next_node Node.planner g = some Node.supervisor
next_node Node.retrieval g = some Node.validator
next_node Node.tool g = some Node.validator
next_node Node.validator g = some (validator_router g.next_action)
next_node Node.human_gate g = human_gate_router g.next_action
next_node Node.synthesis g = none
next_node Node.failed g = none

-- What the nodes take from outside the graph.
pub record Setup : Type 0 where
  pub agents : Agents
  pub show : Payload → String
  pub plan_data : Value

unfoldable pub run_node : Setup → Env → Node → Run → NodeResult
unfolding supervisor_node planner_node retrieval_node tool_node validator_node human_gate_node
    synthesis_node failed_node
run_node u env Node.supervisor r = supervisor_node env r
run_node u env Node.planner r = planner_node u.agents u.plan_data env r
run_node u env Node.retrieval r = retrieval_node u.agents env r
run_node u env Node.tool r = tool_node u.agents env r
run_node u env Node.validator r = validator_node u.agents env r
run_node u env Node.human_gate r = human_gate_node env r
run_node u env Node.synthesis r = synthesis_node u.show env r
run_node u env Node.failed r = failed_node env r

-- `Exec u n r k out r'`: from node `n` at `r`, `k` node runs lead to `r'`, and `out` is next, or
-- the end. The clock may read anything in each.
pub data Exec (u : Setup) : Node → Run → ℕ → Option Node → Run → Type 0 where
  last :
      {n : Node} {r r' : Run} {out : Option Node} (env : Env)
      → run_node u env n r ≡ returns r'
      → next_node n r'.graph ≡ out
      → Exec u n r 1 out r'
  more :
      {n m : Node} {r r' r'' : Run} {k : ℕ} {out : Option Node} (env : Env)
      → run_node u env n r ≡ returns r'
      → next_node n r'.graph ≡ some m
      → Exec u m r' k out r''
      → Exec u n r (suc k) out r''
