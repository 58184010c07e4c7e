-- ===== src/Orchestration/Decisions.antt =====
-- What a human decision does at the gate.
mod Tests
use enterprise_multi_agent_o.Base.{
  ℕ, suc, ◌≡◌, refl, inl, inr, true, false, none, some, List, [], ◌∷◌, arith, Option-cases, subst,
  ◌==◌, string_eq, ap,
}
use enterprise_multi_agent_o.Base.Lists.{any}
use enterprise_multi_agent_o.Core.Types.{ExecutionStatus, HumanRequestStatus}
use enterprise_multi_agent_o.Core.Task.{Task}
use enterprise_multi_agent_o.Core.State.{
  HumanDecision, HumanEscalationRequest, fail_run, resolve, has_pending, apply_human_decision,
}
use enterprise_multi_agent_o.Orchestration.Graph.{
  NextAction, GraphState, Run, returns, Env, active_task, change_task, with_state,
}
use enterprise_multi_agent_o.Orchestration.Nodes.{supervisor_node}
use enterprise_multi_agent_o.Orchestration.GateNode.{
  human_gate_node, await_human, decide, gate_task_id,
}
use enterprise_multi_agent_o.Orchestration.Endings.{failed_node}
use enterprise_multi_agent_o.Orchestration.Routing.{
  Node, next_node, run_node, Setup, Exec, last, more, supervisor_router, human_gate_router,
}

-- The decision at hand.
abbrev pub Decides : GraphState → HumanDecision → HumanRequestStatus → Type 0
Decides g d status = (g.human_decision ≡ some d) × (d.status ≡ status)

supervisor-decided :
    (env : Env) (r r' : Run) {d : HumanDecision}
    → supervisor_node env r ≡ returns r'
    → r.graph.human_decision ≡ some d
    → (r'.graph.next_action ≡ some NextAction.human_gate) × (r'.graph.human_decision ≡ some d)
unfolding supervisor_node
supervisor-decided env r r' h e = ground arith

gate-rejected :
    (env : Env) (r r' : Run) {d : HumanDecision}
    → human_gate_node env r ≡ returns r'
    → Decides r.graph d HumanRequestStatus.rejected
    → (r'.graph.next_action ≡ some NextAction.failed)
      × (r'.graph.human_decision ≡ none)
      × (r'.graph.state.metadata.status ≡ ExecutionStatus.failed)
unfolding human_gate_node decide fail_run
gate-rejected env r r' {d} h (e, rejected) = ground (
  arith,
  h,
  e,
  ap
      (λ st.
        decide env d st (active_task r.graph.state (gate_task_id d r.graph))
          (with_state (apply_human_decision env.now d r.graph.state) r))
      rejected,
)

failed-ends :
    {u : Setup} {r r' : Run} {k : ℕ}
    → Exec u Node.failed r k none r'
    → r.graph.state.metadata.status ≡ ExecutionStatus.failed
    → (k ≡ 1) × (r'.graph.state ≡ r.graph.state)
unfolding run_node next_node failed_node
failed-ends (last env h e) status = (refl, ground arith)
failed-ends (more env h e rest) status = cc

-- A run that is resumed with a rejection ends after exactly three node runs, and it ends failed.
pub rejected-ends :
    {u : Setup} {r r' : Run} {k : ℕ} {d : HumanDecision}
    → Exec u Node.supervisor r k none r'
    → Decides r.graph d HumanRequestStatus.rejected
    → (k ≡ 3) × (r'.graph.state.metadata.status ≡ ExecutionStatus.failed)
unfolding run_node next_node supervisor_router human_gate_router
rejected-ends (last env h e) decides = cc
rejected-ends {u} {r} {r'} {d = d} (more {m} {r' = r₁} {k} env h e rest) (at, rejected) =
    let (to, kept) = supervisor-decided env r r₁ h at in
    let here_next : m ≡ Node.human_gate = ground (arith, e, to) in
    let (two, failed) =
      at_gate (subst (λ n. Exec u n r₁ k none r') here_next rest) (kept, rejected) in
    (ap suc two, failed)
  where
    at_gate :
        {r r' : Run} {k : ℕ}
        → Exec u Node.human_gate r k none r'
        → Decides r.graph d HumanRequestStatus.rejected
        → (k ≡ 2) × (r'.graph.state.metadata.status ≡ ExecutionStatus.failed)
    at_gate {r} {r'} (last env h e) decides =
        let (to, _, _) = gate-rejected env r r' h decides in absurd (ground (arith, e, to))
    at_gate {r} {r'} (more {m} {r' = r₁} {k} env h e rest) decides =
        let (to, _, status) = gate-rejected env r r₁ h decides in
        let next : m ≡ Node.failed = ground (arith, e, to) in
        let (one, same) = failed-ends (subst (λ n. Exec u n r₁ k none r') next rest) status in
        ground (arith, one, same, status)

-- At the gate, the outcome of a decision by its status.
module _ (env : Env) (r : Run) (d : HumanDecision) {status : HumanRequestStatus}
    (decides : Decides r.graph d status) where
  gate-decide :
      human_gate_node env r
      ≡ decide env d status
          (active_task r.graph.state (gate_task_id d r.graph))
          (with_state (apply_human_decision env.now d r.graph.state) r)
  unfolding human_gate_node
  gate-decide = rw (decides.0, decides.1) refl

-- A request that the decision names is the only one that changes.
resolve-unmatched :
    (d : HumanDecision) (rs : List HumanEscalationRequest)
    → any (λ q. q.request_id == d.request_id) rs ≡ false
    → resolve d rs ≡ rs
unfolding resolve
resolve-unmatched d [] h = refl
resolve-unmatched d (q ∷ rs) h = ground (arith, h, resolve-unmatched d rs)

-- An approval whose request id names no request of the run resumes the run all the same: nothing
-- is held any more, although the requests that wait for a reviewer still do.
pub human_gate_node-unmatched :
    (env : Env) (r r' : Run) (d : HumanDecision)
    → Decides r.graph d HumanRequestStatus.approved
    → any (λ q. q.request_id == d.request_id) r.graph.state.human_requests ≡ false
    → has_pending r.graph.state.human_requests ≡ true
    → human_gate_node env r ≡ returns r'
    → (r'.graph.state.requires_human ≡ false)
      × (has_pending r'.graph.state.human_requests ≡ true)
      × (r'.graph.state.metadata.status ≡ ExecutionStatus.running)
      × (next_node Node.human_gate r'.graph ≡ some Node.supervisor)
unfolding decide next_node human_gate_router change_task apply_human_decision
human_gate_node-unmatched env r r' d decides unmatched waiting h =
    let same = resolve-unmatched d r.graph.state.human_requests unmatched in
    elim (Option-cases (active_task r.graph.state (gate_task_id d r.graph))) [
      | inl nothing ↦ ground (arith, gate-decide env r d decides, nothing, h, same, waiting)
      | inr (t, active) ↦ ground (arith, gate-decide env r d decides, active, h, same, waiting)
    ]

-- A decision of status TIMEOUT for the last pending request leaves the run paused with nothing
-- held.
pub human_gate_node-timeout :
    (env : Env) (r r' : Run) (d : HumanDecision)
    → Decides r.graph d HumanRequestStatus.timeout
    → has_pending (resolve d r.graph.state.human_requests) ≡ false
    → human_gate_node env r ≡ returns r'
    → (r'.graph.state.requires_human ≡ false)
      × (r'.graph.state.metadata.status ≡ ExecutionStatus.paused_for_human)
      × (next_node Node.human_gate r'.graph ≡ none)
unfolding decide next_node human_gate_router apply_human_decision await_human
human_gate_node-timeout env r r' d decides last_one h =
    ground (arith, gate-decide env r d decides, h, last_one)
