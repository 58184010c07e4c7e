-- ===== src/Orchestration/Runtime/Tests.antt =====
-- A run of the graph of orchestration/runtime.py with agents that answer, in a loop on fuel that
-- stands for LangGraph.
use enterprise_multi_agent_o.Base.{
  ℕ, zero, suc, ◌≤◌, ◌≡◌, ◌≢◌, refl, ◌⊎◌, inl, inr, Option, none, some, [], false, string_eq,
  nat_eq, arith, Option-cases, subst, sym, ap, ◌∙◌,
}
use enterprise_multi_agent_o.Core.Types.{Value, HumanRequestStatus}
use enterprise_multi_agent_o.Core.Task.{ExecutionPlan}
use enterprise_multi_agent_o.Core.State.{OrchestrationState, HumanDecision}
use enterprise_multi_agent_o.Errors.{Exception, other, cancelled, Result, ok}
use enterprise_multi_agent_o.Agents.Result.{AgentResult, AgentStatus}
use enterprise_multi_agent_o.Planner.{PlanOutput}
use enterprise_multi_agent_o.Memory.{new_store}
use enterprise_multi_agent_o.Orchestration.Graph.{
  Run, NodeResult, returns, Env, Agents, Frame, IsFramed,
}
use enterprise_multi_agent_o.Orchestration.Nodes.{planned}
use enterprise_multi_agent_o.Orchestration.Budget.{budget, IsSound}
use enterprise_multi_agent_o.Orchestration.Routing.{
  Node, run_node, next_node, Setup, Exec, last, more,
}
use enterprise_multi_agent_o.Orchestration.Runtime.{
  Draws, run, initial_run, resume_with_human_decision,
}
use enterprise_multi_agent_o.Orchestration.Runtime.Answers.{IsAnswering}
use enterprise_multi_agent_o.Orchestration.Runtime.Start.{PlansWithin}
use enterprise_multi_agent_o.Orchestration.Runtime.Returns.{
  IsGraphRun, IsOver, IsBroken, IsCut, NodeResult-cases, run-returns, run-Outcome, resume-Outcome,
}
use enterprise_multi_agent_o.Orchestration.Tests.{two_tasks, a_plan, two_tasks-IsSound, env, asking}

abbrev limit_reached : Exception
limit_reached = other "Recursion limit reached without hitting a stop condition."

-- The loop over the nodes, from the next one on.
drive : Setup → ℕ → Option Node → Run → NodeResult
drive u fuel none r = returns r
drive u zero (some n) r = NodeResult.raises limit_reached r
drive u (suc fuel) (some n) r = elim (run_node u env n r) [
  | NodeResult.raises x r₁ ↦ NodeResult.raises x r₁
  | returns r₁ ↦ drive u fuel (next_node n r₁.graph) r₁
]

drive-ends :
    (u : Setup) (fuel : ℕ) (n : Node) (r r' : Run)
    → drive u fuel (some n) r ≡ returns r'
    → (k : ℕ) × Exec u n r k none r'
unfolding drive
drive-ends u zero n r r' h = absurd (ground (arith, h))
drive-ends u (suc fuel) n r r' h = elim (NodeResult-cases (run_node u env n r)) [
  | inr (x, r₁, e) ↦ absurd (ground (arith, h, e))
  | inl (r₁, e) ↦ elim (Option-cases (next_node n r₁.graph)) [
    | inl over ↦
        (1, subst (λ s. Exec u n r 1 none s) (ground (arith, h, e, over)) (last env e over))
    | inr (m, next) ↦
        let (k, rest) = drive-ends u fuel m r₁ r' (ground (arith, h, e, next)) in
        (suc k, more env e next rest)
  ]
]

drive-fails :
    (u : Setup) (fuel : ℕ) (n : Node) (r r' : Run) (x : Exception)
    → drive u (suc fuel) (some n) r ≡ NodeResult.raises x r'
    → ((env : Env) × (m : Node) × (r₁ : Run) × (run_node u env m r₁ ≡ NodeResult.raises x r'))
      ⊎ ((x ≡ limit_reached) × ((k : ℕ) × (m : Node) × (suc fuel ≤ k) × Exec u n r k (some m) r'))
unfolding drive
drive-fails u zero n r r' x h = elim (NodeResult-cases (run_node u env n r)) [
  | inr (y, r₁, e) ↦ inl (env, n, r, ground (arith, h, e))
  | inl (r₁, e) ↦ elim (Option-cases (next_node n r₁.graph)) [
    | inl over ↦ absurd (ground (arith, h, e, over))
    | inr (m, next) ↦ inr (
      ground (arith, h, e, next),
      (
        1,
        m,
        omega arith,
        subst (λ s. Exec u n r 1 (some m) s) (ground (arith, h, e, next)) (last env e next),
      ),
    )
  ]
]
drive-fails u (suc fuel) n r r' x h = elim (NodeResult-cases (run_node u env n r)) [
  | inr (y, r₁, e) ↦ inl (env, n, r, ground (arith, h, e))
  | inl (r₁, e) ↦ elim (Option-cases (next_node n r₁.graph)) [
    | inl over ↦ absurd (ground (arith, h, e, over))
    | inr (m, next) ↦ elim (drive-fails u fuel m r₁ r' x (ground (arith, h, e, next))) [
      | inl raising ↦ inl raising
      | inr (same, (k, l, le, rest)) ↦
          inr (same, (suc k, l, omega (arith, le), more env e next rest))
    ]
  ]
]

abbrev ainvoke_of : Setup → ℕ → Run → NodeResult
unfolding drive
ainvoke_of u limit r = drive u limit (some Node.supervisor) r

drive-IsGraphRun : (u : Setup) → IsGraphRun u limit_reached (ainvoke_of u)
unfolding drive ainvoke_of
drive-IsGraphRun u = record {
  ends = λ limit r r' h. drive-ends u limit Node.supervisor r r' h;
  fails = fails_of;
}
  where
    fails_of :
        (limit : ℕ) (r r' : Run) (x : Exception)
        → 1 ≤ limit
        → ainvoke_of u limit r ≡ NodeResult.raises x r'
        → ((env : Env) × (m : Node) × (r₁ : Run) × (run_node u env m r₁ ≡ NodeResult.raises x r'))
          ⊎ ((x ≡ limit_reached)
              × ((k : ℕ) × (m : Node) × (limit ≤ k) × Exec u Node.supervisor r k (some m) r'))
    fails_of zero r r' x le h = absurd (omega (arith, le))
    fails_of (suc limit) r r' x le h = drive-fails u limit Node.supervisor r r' x h

-- Agents that answer: a planner of two tasks, and workers that succeed.
abbrev answer : {A : Type 0} → A → AgentResult A
answer output = record {
  agent_name = "agent";
  status = AgentStatus.success;
  output = some output;
  raw_response = none;
  error = none;
  retryable = false;
  requires_human = false;
}

abbrev answering : Agents
answering = record {
  planner = λ s. (ok (answer (record { execution_plan = some (a_plan two_tasks) })), s);
  retriever = λ s t. (ok (answer []), s);
  tool_executor = λ s t. (ok (answer []), s);
  validator = λ s t. (ok (answer (record { validation = none })), s);
}

abbrev setup : Setup
setup = record { agents = answering; show = λ p. "{}"; plan_data = Value.null }

abbrev unchanged : (s : OrchestrationState) → Frame s s
unchanged s = record {
  plan = refl;
  status = refl;
  requires_human = refl;
  human_requests = refl;
  current_step = refl;
}

answering-IsFramed : IsFramed answering
answering-IsFramed = record {
  planner = λ s. unchanged s;
  retriever = λ s t. unchanged s;
  tool_executor = λ s t. unchanged s;
  validator = λ s t. unchanged s;
}

ok_differs : {A : Type 0} (a : A) (x : Exception) → ok a ≢ Result.raises x
ok_differs a x e = ground (arith, e)

answering-IsAnswering : IsAnswering answering
answering-IsAnswering = record {
  planner = λ s x. ok_differs _ x;
  retriever = λ s t x. ok_differs _ x;
  tool_executor = λ s t x. ok_differs _ x;
  validator = λ s t x. ok_differs _ x;
}

abbrev plan_answer : AgentResult PlanOutput
plan_answer = answer (record { execution_plan = some (a_plan two_tasks) })

same_answer :
    (a : AgentResult PlanOutput)
    → ◌≡◌ {A = Result (AgentResult PlanOutput)} (ok plan_answer) (ok a)
    → plan_answer ≡ a
same_answer a e = ground (arith, e)

same_plan :
    (p : ExecutionPlan)
    → ◌≡◌ {A = Option ExecutionPlan} (some (a_plan two_tasks)) (some p)
    → a_plan two_tasks ≡ p
same_plan p e = ground (arith, e)

planned_two : planned plan_answer ≡ some (a_plan two_tasks)
planned_two = refl

answering-PlansWithin : PlansWithin 6 answering
unfolding nat_eq
answering-PlansWithin = record {
  plans = λ s a p answered plan.
      subst (λ q. IsSound q.tasks × (budget q.tasks ≤ 6))
        (same_plan p (sym planned_two ∙ ap planned (same_answer a answered) ∙ plan))
        (two_tasks-IsSound, omega arith);
}

abbrev draws : Draws
draws = record {
  now = 1;
  later = 2;
  run_id = "run";
  first_checkpoint = "c1";
  last_checkpoint = "c2";
}

run-returns_example :
    IsOver (run (ainvoke_of setup) 50 draws "Report on it" none none none new_store)
run-returns_example =
    run-returns setup limit_reached (ainvoke_of setup) 50 (drive-IsGraphRun setup) draws
      "Report on it" none none none new_store 6 answering-IsFramed answering-IsAnswering
      answering-PlansWithin (omega arith)

run-Outcome_example :
    let c = run (ainvoke_of setup) 50 draws "Report on it" none none none new_store in
    IsOver c
    ⊎ ((x : Exception) × (x ≢ cancelled) × IsBroken c x)
    ⊎ IsCut c (initial_run draws "Report on it" none none none).graph.state
run-Outcome_example =
    run-Outcome setup limit_reached (ainvoke_of setup) 50 (drive-IsGraphRun setup) draws
      "Report on it" none none none new_store

abbrev a_decision : HumanDecision
a_decision = record {
  request_id = "q";
  status = HumanRequestStatus.approved;
  decision_note = none;
  modified_payload = none;
  reviewer_id = none;
  resolved_at = 6;
}

resume-Outcome_example :
    let c = resume_with_human_decision (ainvoke_of setup) 50 draws asking a_decision new_store in
    IsOver c ⊎ ((x : Exception) × (c.result ≡ Result.raises x) × (c.store ≡ new_store))
resume-Outcome_example =
    resume-Outcome setup limit_reached (ainvoke_of setup) 50 (drive-IsGraphRun setup) draws
      "Report on it" none none none new_store asking a_decision
