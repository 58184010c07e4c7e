-- ===== src/Orchestration/GateNode.antt =====
-- orchestration/nodes.py: the human gate.
use enterprise_multi_agent_o.Base.{
  String, ◌<>◌, false, Option, none, some, List, [], ◌∷◌, ◌==◌, if◌then◌else◌, string_eq,
}
use enterprise_multi_agent_o.Base.Dict.{lookup, update}
use enterprise_multi_agent_o.Core.Types.{
  ExecutionStatus, TaskStatus, HumanRequestStatus, Payload, Value, show_option, nonempty,
}
use enterprise_multi_agent_o.Core.Task.{Task, mark_failed}
use enterprise_multi_agent_o.Core.State.{
  OrchestrationState, HumanDecision, HumanEscalationRequest, fail_run, apply_human_decision,
}
use enterprise_multi_agent_o.Orchestration.Graph.{
  NextAction, GraphState, Effect, AuditEventType, Run, NodeResult, Env, with_state, emit, go_to,
  active_task, change_task, returns,
}
use enterprise_multi_agent_o.Orchestration.Gates.{complete_task}

abbrev as_text : Option Value → Option String
as_text (some (Value.str s)) = some s
as_text _ = none

-- The search for the task of the decided request: `req.task_id or req.context.get("task_id")`.
unfoldable pub requested_task : HumanDecision → List HumanEscalationRequest → Option String
unfolding lookup nonempty
requested_task d [] = none
requested_task d (q ∷ qs) =
    let rest = requested_task d qs in
    let inner = as_text (lookup "task_id" q.context) in
    if q.request_id == d.request_id
    then (elim q.task_id [ none ↦ inner | some i ↦ if nonempty i then some i else inner ])
    else rest

-- `task_id` as the gate looks it up: the current one, unless it is missing or empty.
unfoldable pub gate_task_id : HumanDecision → GraphState → Option String
unfolding requested_task nonempty
gate_task_id d g =
    let found = requested_task d g.state.human_requests in
    elim g.current_task_id [ none ↦ found | some i ↦ if nonempty i then some i else found ]

-- A change of the gate's task, where there is one.
abbrev change_active : Option Task → (Task → Task) → OrchestrationState → OrchestrationState
unfolding change_task
change_active none f s = s
change_active (some t) f s = change_task t.id f s

abbrev pub resumed : OrchestrationState → OrchestrationState
resumed s = record s {
  requires_human = false;
  metadata = record s.metadata { status = ExecutionStatus.running };
}

abbrev decided : NextAction → String → String → OrchestrationState → Run → NodeResult
decided action done outcome s r = returns (
    emit (Effect.audit AuditEventType.human_decision_applied done outcome ∷ []) (record r {
      graph = record r.graph {
        state = s;
        human_decision = none;
        current_task_id = none;
        next_action = some action;
      };
    }))

-- The end of the gate: the run waits for a human.
unfoldable pub await_human : Run → NodeResult
await_human r = go_to NextAction.paused (
    with_state
      (record r.graph.state {
        metadata = record r.graph.state.metadata { status = ExecutionStatus.paused_for_human };
      })
      r)

-- `if task and decision.modified_payload:`
unfoldable pub modify_task : Option Payload → Task → Task
unfolding update
modify_task none t = t
modify_task (some []) t = t
modify_task (some (e ∷ d)) t = record t {
  input_data = update t.input_data (e ∷ d);
  status = TaskStatus.pending;
}

unfoldable pub decide : Env → HumanDecision → HumanRequestStatus → Option Task → Run → NodeResult
unfolding change_task complete_task modify_task mark_failed fail_run await_human
decide env d HumanRequestStatus.approved task r =
    decided NextAction.supervisor "approve_decision" "APPROVED"
      (resumed (change_active task (complete_task env.now) r.graph.state))
      (emit (Effect.counter_inc "human_decisions_approved_total" ∷ []) r)
decide env d HumanRequestStatus.modified task r =
    decided NextAction.supervisor "modify_decision" "MODIFIED"
      (resumed (change_active task (modify_task d.modified_payload) r.graph.state))
      (emit (Effect.counter_inc "human_decisions_modified_total" ∷ []) r)
decide env d HumanRequestStatus.rejected task r =
    decided NextAction.failed "reject_decision" "REJECTED"
      (fail_run env.now ("Workflow terminated by human reviewer: " <> show_option d.decision_note) (
        change_active task
          (mark_failed env.now ("Rejected by human reviewer: " <> show_option d.decision_note))
          r.graph.state))
      (emit (Effect.counter_inc "human_decisions_rejected_total" ∷ []) r)
decide env d _ task r = await_human r

unfoldable pub human_gate_node : Env → Run → NodeResult
unfolding active_task gate_task_id apply_human_decision decide await_human
human_gate_node env r = elim r.graph.human_decision [
  | none ↦ await_human r
  | some d ↦
      let task = active_task r.graph.state (gate_task_id d r.graph) in
      decide env d d.status task (with_state (apply_human_decision env.now d r.graph.state) r)
]
