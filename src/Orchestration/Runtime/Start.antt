-- ===== src/Orchestration/Runtime/Start.antt =====
-- orchestration/runtime.py: executions of the graph from a state without a plan, and where any
-- execution ends.
use enterprise_multi_agent_o.Base.{
  ℕ, suc, ◌+◌, ◌*◌, ◌≤◌, ◌≡◌, refl, ◌⊎◌, inl, inr, Option, none, some, string_eq, nat_eq, arith,
  subst, sym, Option-cases, true,
}
use enterprise_multi_agent_o.Core.Types.{ExecutionStatus}
use enterprise_multi_agent_o.Core.Task.{ExecutionPlan}
use enterprise_multi_agent_o.Core.State.{
  OrchestrationState, increment_step, add_agent_output, fail_run, complete_run, set_status,
  record_error,
}
use enterprise_multi_agent_o.Errors.{ok, Result-cases}
use enterprise_multi_agent_o.Agents.Result.{AgentResult}
use enterprise_multi_agent_o.Planner.{PlanOutput}
use enterprise_multi_agent_o.Orchestration.Graph.{Run, returns, Env, Agents, IsFramed}
use enterprise_multi_agent_o.Orchestration.Nodes.{
  supervisor_node, planner_node, planned, is_failed_run,
}
use enterprise_multi_agent_o.Orchestration.GateNode.{human_gate_node, await_human, decide}
use enterprise_multi_agent_o.Orchestration.Endings.{synthesis_node, failed_node}
use enterprise_multi_agent_o.Orchestration.Routing.{
  Node, next_node, run_node, Setup, Exec, last, more, supervisor_router, human_gate_router,
}
use enterprise_multi_agent_o.Orchestration.Budget.{budget, IsSound}
use enterprise_multi_agent_o.Orchestration.Progress.{Bound, at_supervisor, at_human_gate, at_failed}
use enterprise_multi_agent_o.Orchestration.Progress.Termination.{Exec-Bound}

abbrev pub IsEnded : ExecutionStatus → Type 0
IsEnded status =
    (status ≡ ExecutionStatus.completed)
    ⊎ (status ≡ ExecutionStatus.failed)
    ⊎ (status ≡ ExecutionStatus.paused_for_human)

gate-ended :
    (env : Env) (r r' : Run)
    → human_gate_node env r ≡ returns r'
    → human_gate_router r'.graph.next_action ≡ none
    → r'.graph.state.metadata.status ≡ ExecutionStatus.paused_for_human
unfolding human_gate_node decide await_human human_gate_router
gate-ended env r r' h e = ground arith

failed-ended :
    (env : Env) (r r' : Run)
    → failed_node env r ≡ returns r'
    → r'.graph.state.metadata.status ≡ ExecutionStatus.failed
unfolding failed_node fail_run set_status record_error
failed-ended env r r' h = ground arith

synthesis-ended :
    (u : Setup) (env : Env) (r r' : Run)
    → synthesis_node u.show env r ≡ returns r'
    → r'.graph.state.metadata.status ≡ ExecutionStatus.completed
unfolding synthesis_node complete_run set_status
synthesis-ended u env r r' h = ground arith

node-ended :
    (u : Setup) (env : Env) (n : Node) (r r' : Run)
    → run_node u env n r ≡ returns r'
    → next_node n r'.graph ≡ none
    → IsEnded r'.graph.state.metadata.status
unfolding run_node next_node
node-ended u env Node.supervisor r r' h e = absurd (ground (arith, e))
node-ended u env Node.planner r r' h e = absurd (ground (arith, e))
node-ended u env Node.retrieval r r' h e = absurd (ground (arith, e))
node-ended u env Node.tool r r' h e = absurd (ground (arith, e))
node-ended u env Node.validator r r' h e = absurd (ground (arith, e))
node-ended u env Node.human_gate r r' h e = inr (inr (gate-ended env r r' h e))
node-ended u env Node.synthesis r r' h e = inl (synthesis-ended u env r r' h)
node-ended u env Node.failed r r' h e = inr (inl (failed-ended env r r' h))

pub Exec-ended :
    {u : Setup} {n : Node} {r r' : Run} {k : ℕ}
    → Exec u n r k none r'
    → IsEnded r'.graph.state.metadata.status
Exec-ended {u} {n} {r} {r'} (last env h e) = node-ended u env n r r' h e
Exec-ended (more env h e rest) = Exec-ended rest

-- A planner whose plans have distinct, non-empty ids, ask for no planning, and have no more than
-- `n` attempts.
pub record PlansWithin (n : ℕ) (agents : Agents) : Type 0 where
  pub plans :
      (s : OrchestrationState) (a : AgentResult PlanOutput) (p : ExecutionPlan)
      → (agents.planner s).0 ≡ ok a
      → planned a ≡ some p
      → IsSound p.tasks × (budget p.tasks ≤ n)

module _ (u : Setup) where
  -- No execution from the node takes more than `b` node runs.
  abbrev Within : Node → Run → ℕ → Type 0
  Within n r b = (r' : Run) (k : ℕ) (out : Option Node) → Exec u n r k out r' → k ≤ b

  Exec-via :
      (n : Node) (r : Run) (b c : ℕ)
      → suc b ≤ c
      → ((env : Env) (r₁ : Run) (m : Node)
          → run_node u env n r ≡ returns r₁
          → next_node n r₁.graph ≡ some m
          → Within m r₁ b)
      → Within n r c
  Exec-via n r b c le h _ _ _ (last env run next) = omega (arith, le)
  Exec-via n r b c le h r' _ out (more {m} {r' = r₁} {k} env run next rest) =
      omega (arith, le, h env r₁ m run next r' k out rest)

  module _ (framed : IsFramed u.agents) where
    ended-Within :
        (m : Node) (r : Run)
        → r.graph.human_decision ≡ none
        → (m ≡ Node.failed) ⊎ (m ≡ Node.human_gate)
        → Within m r 1
    ended-Within m r undecided (inl e) r' k out exec =
        Exec-Bound u framed exec (subst (λ n. Bound n r.graph 1) (sym e) (at_failed (omega arith)))
    ended-Within m r undecided (inr e) r' k out exec =
        Exec-Bound u framed exec
          (subst (λ n. Bound n r.graph 1) (sym e) (at_human_gate undecided (omega arith)))

    supervisor-failed :
        (env : Env) (r r' : Run)
        → supervisor_node env r ≡ returns r'
        → r.graph.human_decision ≡ none
        → is_failed_run r.graph.state.metadata.status ≡ true
        → (r'.graph.human_decision ≡ none) × (supervisor_router r'.graph.next_action ≡ Node.failed)
    unfolding supervisor_node supervisor_router
    supervisor-failed env r r' h undecided failed = ground arith

    failed-Within :
        (r : Run)
        → r.graph.human_decision ≡ none
        → is_failed_run r.graph.state.metadata.status ≡ true
        → Within Node.supervisor r 2
    unfolding run_node next_node
    failed-Within r undecided failed =
        Exec-via Node.supervisor r 1 2 (omega arith) (λ env r₁ m run next.
          let (still, to) = supervisor-failed env r r₁ run undecided failed in
          ended-Within m r₁ still (inl (ground (arith, to, next))))

    planner-cases :
        (env : Env) (r r' : Run)
        → planner_node u.agents u.plan_data env r ≡ returns r'
        → r.graph.human_decision ≡ none
        → (r'.graph.human_decision ≡ none)
          × ((is_failed_run r'.graph.state.metadata.status ≡ true)
              ⊎ ((s : OrchestrationState) × (a : AgentResult PlanOutput) × (p : ExecutionPlan)
                  × ((u.agents.planner s).0 ≡ ok a)
                  × (planned a ≡ some p)
                  × (r'.graph.state.plan ≡ some p)))
    unfolding planner_node fail_run set_status add_agent_output record_error
    planner-cases env r r' h undecided =
        let s = increment_step env.now "planner_agent" r.graph.state in
        elim (Result-cases (u.agents.planner s).0) [
          | inr (x, raised) ↦ absurd (ground (arith, h, raised))
          | inl (a, answered) ↦ elim (Option-cases (planned a)) [
            | inl nothing ↦ (
              ground (arith, h, answered, nothing, undecided),
              inl (ground (arith, h, answered, nothing)),
            )
            | inr (p, plan) ↦ (
              ground (arith, h, answered, plan, undecided),
              inr (s, a, p, answered, plan, ground (arith, h, answered, plan)),
            )
          ]
        ]

    module _ (n : ℕ) (within : PlansWithin n u.agents) where
      planned-Within :
          (r : Run) (p : ExecutionPlan)
          → r.graph.human_decision ≡ none
          → r.graph.state.plan ≡ some p
          → IsSound p.tasks
          → budget p.tasks ≤ n
          → Within Node.supervisor r (3 * n + 2)
      planned-Within r p undecided plan sound le r' k out exec = Exec-Bound u framed exec (
          at_supervisor p.tasks
            (record { undecided = undecided; plan = p; planned = plan; same = refl }) sound
            (omega (arith, le)))

      planner-Within : (r : Run) → r.graph.human_decision ≡ none → Within Node.planner r (3 * n + 3)
      unfolding run_node next_node
      planner-Within r undecided =
          Exec-via Node.planner r (3 * n + 2) (3 * n + 3) (omega arith) (λ env r₁ m run next.
            let (still, ways) = planner-cases env r r₁ run undecided in
            let here : Node.supervisor ≡ m = ground (arith, next) in
            subst (λ l. Within l r₁ (3 * n + 2)) here
              (elim ways [
                | inl failed ↦
                    (λ r' k out exec. omega (arith, failed-Within r₁ still failed r' k out exec))
                | inr (s, a, p, answered, plan, kept) ↦
                    let (sound, le) = within.plans s a p answered plan in
                    planned-Within r₁ p still kept sound le
              ]))

      supervisor-unplanned :
          (env : Env) (r r' : Run)
          → supervisor_node env r ≡ returns r'
          → r.graph.human_decision ≡ none
          → r.graph.state.plan ≡ none
          → (r'.graph.human_decision ≡ none)
            × ((supervisor_router r'.graph.next_action ≡ Node.failed)
                ⊎ (supervisor_router r'.graph.next_action ≡ Node.human_gate)
                ⊎ (supervisor_router r'.graph.next_action ≡ Node.planner))
      unfolding supervisor_node supervisor_router
      supervisor-unplanned env r r' h undecided plan = ground arith

      -- From the supervisor, without a plan and a human decision.
      pub fresh-Within :
          (r : Run)
          → r.graph.human_decision ≡ none
          → r.graph.state.plan ≡ none
          → Within Node.supervisor r (3 * n + 4)
      unfolding run_node next_node
      fresh-Within r undecided plan =
          Exec-via Node.supervisor r (3 * n + 3) (3 * n + 4) (omega arith) (λ env r₁ m run next.
            let (still, ways) = supervisor-unplanned env r r₁ run undecided plan in
            elim ways [
              | inl e ↦ (λ r' k out exec.
                  omega
                    (arith, ended-Within m r₁ still (inl (ground (arith, next, e))) r' k out exec))
              | inr (inl e) ↦ (λ r' k out exec.
                  omega
                    (arith, ended-Within m r₁ still (inr (ground (arith, next, e))) r' k out exec))
              | inr (inr e) ↦
                  subst (λ l. Within l r₁ (3 * n + 3)) (ground (arith, next, e))
                    (planner-Within r₁ still)
            ])
