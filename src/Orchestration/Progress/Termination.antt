-- ===== src/Orchestration/Progress/Termination.antt =====
-- The length of executions of a plan, over all nodes.
use enterprise_multi_agent_o.Base.{
  ℕ, ◌+◌, ◌-◌, ◌*◌, ◌≤◌, ◌≡◌, refl, ◌⊎◌, inl, inr, Option, none, some, string_eq, nat_eq, arith,
  subst,
}
use enterprise_multi_agent_o.Core.Task.{ExecutionPlan}
use enterprise_multi_agent_o.Orchestration.Graph.{Run, returns, Env, IsFramed}
use enterprise_multi_agent_o.Orchestration.GateNode.{human_gate_node, await_human}
use enterprise_multi_agent_o.Orchestration.Routing.{
  Node, next_node, run_node, Setup, Exec, last, more,
}
use enterprise_multi_agent_o.Orchestration.Budget.{budget, IsSound}
use enterprise_multi_agent_o.Orchestration.Progress.{
  Bound, at_supervisor, at_retrieval, at_tool, at_validator, at_human_gate, at_synthesis, at_failed,
  supervisor-Bound,
}
use enterprise_multi_agent_o.Orchestration.Progress.Work.{retrieval-Bound, tool-Bound}
use enterprise_multi_agent_o.Orchestration.Progress.Rulings.{validator-Bound}

gate_end :
    (env : Env) (r r' : Run)
    → human_gate_node env r ≡ returns r'
    → r.graph.human_decision ≡ none
    → next_node Node.human_gate r'.graph ≡ none
unfolding human_gate_node await_human next_node
gate_end env r r' h undecided = ground arith

module _ (u : Setup) (framed : IsFramed u.agents) where
  -- One node run takes one off the bound, or it is the last.
  step-Bound :
      (env : Env) (r r' : Run) {n : Node} {b : ℕ}
      → Bound n r.graph b
      → run_node u env n r ≡ returns r'
      → (1 ≤ b)
        × ((next_node n r'.graph ≡ none)
            ⊎ ((m : Node) × (next_node n r'.graph ≡ some m) × Bound m r'.graph (b - 1)))
  unfolding run_node next_node
  step-Bound env r r' {b = b} (at_supervisor ts has sound le) h =
      let (pos, next) = supervisor-Bound env r r' b h (at_supervisor ts has sound le) in
      (pos, inr (_, refl, next))
  step-Bound env r r' {b = b} (at_retrieval ts t has sound it pend le) h =
      let (pos, next) =
        retrieval-Bound u.agents framed env r r' b h (at_retrieval ts t has sound it pend le) in
      (pos, inr (_, refl, next))
  step-Bound env r r' {b = b} (at_tool ts t has sound it pend le) h =
      let (pos, next) =
        tool-Bound u.agents framed env r r' b h (at_tool ts t has sound it pend le) in
      (pos, inr (_, refl, next))
  step-Bound env r r' {b = b} (at_validator ts t has sound it idle le) h =
      let (pos, next) =
        validator-Bound u.agents framed env r r' b h (at_validator ts t has sound it idle le) in
      (pos, inr (_, refl, next))
  step-Bound env r r' (at_human_gate undecided le) h = (le, inl (gate_end env r r' h undecided))
  step-Bound env r r' (at_synthesis le) h = (le, inl refl)
  step-Bound env r r' (at_failed le) h = (le, inl refl)

  pub Exec-Bound :
      {n : Node} {r r' : Run} {k b : ℕ} {out : Option Node}
      → Exec u n r k out r'
      → Bound n r.graph b
      → k ≤ b
  Exec-Bound {r} {r'} (last env h e) at = (step-Bound env r r' at h).0
  Exec-Bound {r} {b = b} (more {m} {r' = r₁} {k} env h e rest) at =
      let (pos, ways) = step-Bound env r r₁ at h in
      elim ways [
        | inl ends ↦ absurd (ground (arith, e, ends))
        | inr (n, to, next) ↦
            let same : n ≡ m = ground (arith, e, to) in
            let ih : k ≤ b - 1 =
              Exec-Bound rest (subst (λ o. Bound o r₁.graph (b - 1)) same next) in
            omega (arith, ih)
      ]

  -- From the supervisor, with a plan of tasks with distinct, non-empty ids, of which none asks for
  -- planning, and with no human decision at hand, no execution takes more than three node runs for
  -- each attempt that the tasks have left and two more.
  pub Exec-terminates :
      {r r' : Run} {k : ℕ} {out : Option Node} (p : ExecutionPlan)
      → Exec u Node.supervisor r k out r'
      → r.graph.human_decision ≡ none
      → r.graph.state.plan ≡ some p
      → IsSound p.tasks
      → k ≤ 3 * budget p.tasks + 2
  Exec-terminates p exec undecided planned sound = Exec-Bound exec (
      at_supervisor p.tasks
        (record { undecided = undecided; plan = p; planned = planned; same = refl }) sound
        (omega arith))
