-- ===== src/Orchestration/Decisions/Tests.antt =====
-- Human decisions on a run that waits for a reviewer.
use enterprise_multi_agent_o.Base.{ℕ, String, ◌≡◌, refl, true, false, none, some, ◌==◌, string_eq}
use enterprise_multi_agent_o.Base.Lists.{any}
use enterprise_multi_agent_o.Core.Types.{ExecutionStatus, HumanRequestStatus}
use enterprise_multi_agent_o.Core.State.{
  HumanDecision, create_initial, request_human_escalation, resolve, has_pending,
}
use enterprise_multi_agent_o.Orchestration.Graph.{Run, returns}
use enterprise_multi_agent_o.Orchestration.Nodes.{supervisor_node}
use enterprise_multi_agent_o.Orchestration.GateNode.{human_gate_node}
use enterprise_multi_agent_o.Orchestration.Endings.{failed_node}
use enterprise_multi_agent_o.Orchestration.Routing.{Node, run_node, next_node, Exec, last, more}
use enterprise_multi_agent_o.Orchestration.Decisions.{
  rejected-ends, human_gate_node-unmatched, human_gate_node-timeout,
}
use enterprise_multi_agent_o.Orchestration.Tests.{run_of, env, result_of, setup, asking}

abbrev decision : String → HumanRequestStatus → HumanDecision
decision request_id status = record {
  request_id = request_id;
  status = status;
  decision_note = none;
  modified_payload = none;
  reviewer_id = none;
  resolved_at = 6;
}

abbrev deciding : String → HumanRequestStatus → Run
deciding request_id status = run_of asking (some "search") (some (decision request_id status))

abbrev rejecting : Run
rejecting = deciding "q" HumanRequestStatus.rejected

abbrev refused_at_gate : Run
refused_at_gate = result_of (supervisor_node env rejecting)

abbrev refused : Run
refused = result_of (human_gate_node env refused_at_gate)

abbrev ended : Run
ended = result_of (failed_node env refused)

rejecting-Exec : Exec setup Node.supervisor rejecting 3 none ended
unfolding run_node next_node supervisor_node human_gate_node failed_node
rejecting-Exec = more env refl refl (more env refl refl (last env refl refl))

rejected-ends_example :
    (◌≡◌ {A = ℕ} 3 3) × (ended.graph.state.metadata.status ≡ ExecutionStatus.failed)
rejected-ends_example = rejected-ends rejecting-Exec (refl, refl)

abbrev approving : Run
approving = deciding "q" HumanRequestStatus.approved

abbrev approved_run : Run
approved_run = result_of (human_gate_node env approving)

-- A decision on a request that the run does not have.
abbrev astray : Run
astray = deciding "x" HumanRequestStatus.approved

abbrev astray_run : Run
astray_run = result_of (human_gate_node env astray)

astray-returns : human_gate_node env astray ≡ returns astray_run
unfolding human_gate_node
astray-returns = refl

astray-unmatched : any (λ q. q.request_id == "x") asking.human_requests ≡ false
unfolding request_human_escalation create_initial string_eq
astray-unmatched = refl

asking-has_pending : has_pending asking.human_requests ≡ true
unfolding request_human_escalation create_initial has_pending
asking-has_pending = refl

human_gate_node-unmatched_example :
    (astray_run.graph.state.requires_human ≡ false)
    × (has_pending astray_run.graph.state.human_requests ≡ true)
    × (astray_run.graph.state.metadata.status ≡ ExecutionStatus.running)
    × (next_node Node.human_gate astray_run.graph ≡ some Node.supervisor)
human_gate_node-unmatched_example =
    human_gate_node-unmatched env astray astray_run (decision "x" HumanRequestStatus.approved)
      (refl, refl) astray-unmatched asking-has_pending astray-returns

abbrev expiring : Run
expiring = deciding "q" HumanRequestStatus.timeout

abbrev expired : Run
expired = result_of (human_gate_node env expiring)

expiring-returns : human_gate_node env expiring ≡ returns expired
unfolding human_gate_node
expiring-returns = refl

expiring-last :
    has_pending (resolve (decision "q" HumanRequestStatus.timeout) asking.human_requests) ≡ false
unfolding request_human_escalation create_initial has_pending resolve string_eq
expiring-last = refl

human_gate_node-timeout_example :
    (expired.graph.state.requires_human ≡ false)
    × (expired.graph.state.metadata.status ≡ ExecutionStatus.paused_for_human)
    × (next_node Node.human_gate expired.graph ≡ none)
human_gate_node-timeout_example =
    human_gate_node-timeout env expiring expired (decision "q" HumanRequestStatus.timeout)
      (refl, refl) expiring-last expiring-returns
