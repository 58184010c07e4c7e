-- ===== src/Orchestration/Graph.antt =====
-- orchestration/graph_state.py and what the nodes share: the state that passes through the graph,
-- the telemetry that they leave, and the agents that they call.
use enterprise_multi_agent_o.Base.{
  ℕ, String, Option, none, some, List, [], ◌∷◌, ◌++◌, if◌then◌else◌, ◌≡◌,
}
use enterprise_multi_agent_o.Core.Types.{Payload, Value, nonempty}
use enterprise_multi_agent_o.Core.Task.{Task, get_task, update_task}
use enterprise_multi_agent_o.Core.State.{OrchestrationState, HumanDecision, ValidationResult}
use enterprise_multi_agent_o.Errors.{Exception, Result}
use enterprise_multi_agent_o.Agents.Result.{AgentResult}
use enterprise_multi_agent_o.Planner.{PlanOutput}

-- The texts that the nodes write under "next_action".
pub data NextAction : Type 0 where
  supervisor planner retrieval tool validator human_gate synthesis failed paused complete :
      NextAction

-- A key that the dict lacks is `none`.
pub record GraphState : Type 0 where
  pub state : OrchestrationState
  pub current_task_id : Option String
  pub next_action : Option NextAction
  pub human_decision : Option HumanDecision
  pub error : Option String

-- observability/audit/models.py
pub data AuditEventType : Type 0 where
  run_started run_completed run_failed plan_created task_started task_completed task_failed :
      AuditEventType
  tool_invoked retrieval_executed validation_verdict retry_triggered : AuditEventType
  human_escalated human_decision_applied : AuditEventType

-- Calls of the metrics registry and of the audit sink, which keep nothing that the graph reads.
pub data Effect : Type 0 where
  counter_inc gauge_inc gauge_dec observe : String → Effect
  audit : (event_type : AuditEventType) (action outcome : String) → Effect

-- The graph state and the telemetry so far.
pub record Run : Type 0 where
  pub graph : GraphState
  pub log : List Effect

-- A node returns the new graph state, or it raises. The state is one shared object, so what was
-- written before the exception stays written.
pub data NodeResult : Type 0 where
  returns : Run → NodeResult
  raises : Exception → Run → NodeResult

-- What a node reads from outside: the clock and a fresh UUID.
pub record Env : Type 0 where
  pub now : ℕ
  pub fresh_id : String

-- The entry that the validator node reads of the validator's output dict.
pub record ValidatorOutput : Type 0 where
  pub validation : Option ValidationResult

-- The injected agents (agents/base.py). A call returns or raises, and may write to the state.
pub record Agents : Type 0 where
  pub planner : OrchestrationState → Result (AgentResult PlanOutput) × OrchestrationState
  pub retriever : OrchestrationState → Task → Result (AgentResult Payload) × OrchestrationState
  pub tool_executor : OrchestrationState → Task → Result (AgentResult Payload) × OrchestrationState
  pub validator :
      OrchestrationState → Task → Result (AgentResult ValidatorOutput) × OrchestrationState

-- What an agent leaves alone in the state.
pub record Frame (s t : OrchestrationState) : Type 0 where
  pub plan : t.plan ≡ s.plan
  pub status : t.metadata.status ≡ s.metadata.status
  pub requires_human : t.requires_human ≡ s.requires_human
  pub human_requests : t.human_requests ≡ s.human_requests
  pub current_step : t.current_step ≡ s.current_step

pub record IsFramed (agents : Agents) : Type 0 where
  pub planner : (s : OrchestrationState) → Frame s (agents.planner s).1
  pub retriever : (s : OrchestrationState) (t : Task) → Frame s (agents.retriever s t).1
  pub tool_executor : (s : OrchestrationState) (t : Task) → Frame s (agents.tool_executor s t).1
  pub validator : (s : OrchestrationState) (t : Task) → Frame s (agents.validator s t).1

abbrev pub with_state : OrchestrationState → Run → Run
with_state s r = record r { graph = record r.graph { state = s } }

abbrev pub emit : List Effect → Run → Run
emit es r = record r { log = r.log ++ es }

-- `{**graph_state, "next_action": action}`
abbrev pub go_to : NextAction → Run → NodeResult
go_to action r = returns (record r { graph = record r.graph { next_action = some action } })

-- `state.plan.get_task(task_id) if (state.plan and task_id) else None`
unfoldable pub active_task : OrchestrationState → Option String → Option Task
unfolding get_task nonempty
active_task s none = none
active_task s (some task_id) = elim s.plan [
  | none ↦ none
  | some p ↦ if nonempty task_id then get_task task_id p else none
]

-- A write to the task object of that id.
unfoldable pub change_task : String → (Task → Task) → OrchestrationState → OrchestrationState
unfolding update_task
change_task task_id f s = record s {
  plan = elim s.plan [
    | none ↦ none
    | some p ↦ some (record p { tasks = update_task task_id f p.tasks })
  ];
}

abbrev pub optional_value : Option String → Value
optional_value none = Value.null
optional_value (some s) = Value.str s

-- `{"task_id": task.id, "error": error}`
abbrev pub task_error : String → Option String → Payload
task_error task_id error = ("task_id", Value.str task_id) ∷ ("error", optional_value error) ∷ []
