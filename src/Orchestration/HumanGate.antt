-- ===== src/Orchestration/HumanGate.antt =====
-- Executions of the graph of orchestration/runtime.py while a human decision is awaited.
use enterprise_multi_agent_o.Base.{ℕ, ◌≡◌, refl, true, false, Option, none, some, arith, subst}
use enterprise_multi_agent_o.Core.Types.{ExecutionStatus}
use enterprise_multi_agent_o.Orchestration.Graph.{NextAction, GraphState, Run, returns, Env}
use enterprise_multi_agent_o.Orchestration.Nodes.{supervisor_node, is_failed_run}
use enterprise_multi_agent_o.Orchestration.GateNode.{human_gate_node, await_human}
use enterprise_multi_agent_o.Orchestration.Routing.{
  Node, next_node, run_node, Setup, Exec, last, more, supervisor_router,
}

-- The run waits for a human decision that is not there yet.
pub record IsHeld (g : GraphState) : Type 0 where
  pub undecided : g.human_decision ≡ none
  pub alive : is_failed_run g.state.metadata.status ≡ false
  pub held : g.state.requires_human ≡ true

-- A pause: nothing of the work has changed, and the run is marked as waiting.
pub record IsPause (g g' : GraphState) : Type 0 where
  pub plan : g'.state.plan ≡ g.state.plan
  pub requests : g'.state.human_requests ≡ g.state.human_requests
  pub held : g'.state.requires_human ≡ g.state.requires_human
  pub errors : g'.state.errors ≡ g.state.errors
  pub status : g'.state.metadata.status ≡ ExecutionStatus.paused_for_human

supervisor-held :
    (env : Env) (r r' : Run)
    → supervisor_node env r ≡ returns r'
    → IsHeld r.graph
    → (r'.graph.next_action ≡ some NextAction.human_gate)
      × (r'.graph.human_decision ≡ none)
      × (r'.graph.state.plan ≡ r.graph.state.plan)
      × (r'.graph.state.human_requests ≡ r.graph.state.human_requests)
      × (r'.graph.state.requires_human ≡ r.graph.state.requires_human)
      × (r'.graph.state.errors ≡ r.graph.state.errors)
unfolding supervisor_node
supervisor-held env r r' h held = ground arith

gate-undecided :
    {u : Setup} {r r' : Run} {k : ℕ} {out : Option Node}
    → Exec u Node.human_gate r k out r'
    → r.graph.human_decision ≡ none
    → (k ≡ 1) × (out ≡ none) × IsPause r.graph r'.graph
unfolding run_node next_node human_gate_node await_human
gate-undecided (last env h e) none_given = (refl, ground arith, ground arith)
gate-undecided (more env h e rest) none_given = absurd (ground arith)

-- Started at the supervisor while a human decision is awaited and none is given, a run that has
-- not failed reaches the end after exactly two node runs: it ends paused, with its plan, its
-- requests and its errors unchanged.
pub held-IsPause :
    {u : Setup} {r r' : Run} {k : ℕ}
    → Exec u Node.supervisor r k none r'
    → IsHeld r.graph
    → (k ≡ 2) × IsPause r.graph r'.graph
unfolding run_node next_node supervisor_router
held-IsPause (last env h e) held = cc
held-IsPause {u} {r} {r'} (more {m} {r' = r₁} {k} env h e rest) held =
    let (to, undecided, plan, requests, required, errors) = supervisor-held env r r₁ h held in
    let here : m ≡ Node.human_gate = ground (arith, e, to) in
    let (one, _, pause) = gate-undecided (subst (λ n. Exec u n r₁ k none r') here rest) undecided in
    ground (arith, one, pause, plan, requests, required, errors)
