-- ===== src/Orchestration/Tests.antt =====
-- A run over a plan of two tasks, on which the theorems of this folder are applied.
use enterprise_multi_agent_o.Base.{
  ℕ, ◌+◌, ◌*◌, ◌≤◌, String, ◌≡◌, refl, false, ◌⊎◌, inl, inr, Option, none, some, List, [], ◌∷◌,
  ◌==◌, ==-self, ==-cases, ◌≢◌, ap, string_eq, arith,
}
use enterprise_multi_agent_o.Base.Count.{count}
use enterprise_multi_agent_o.Core.Types.{TaskStatus, TaskType, Value, nonempty}
use enterprise_multi_agent_o.Base.Lists.{All}
use enterprise_multi_agent_o.Core.Task.{Task, ExecutionPlan, ids, get_ready_tasks}
use enterprise_multi_agent_o.Orchestration.Runnable.{IsDone, IsRunnable, IsFirst}
use enterprise_multi_agent_o.Core.State.{
  OrchestrationState, HumanDecision, create_initial, request_human_escalation,
}
use enterprise_multi_agent_o.Errors.{other, Result}
use enterprise_multi_agent_o.Orchestration.Graph.{
  NextAction, Run, NodeResult, returns, Env, Agents, Frame, IsFramed,
}
use enterprise_multi_agent_o.Orchestration.Nodes.{supervisor_node, action_for}
use enterprise_multi_agent_o.Orchestration.GateNode.{human_gate_node}
use enterprise_multi_agent_o.Orchestration.Routing.{
  Node, Setup, run_node, next_node, Exec, last, more,
}
use enterprise_multi_agent_o.Orchestration.Dispatch.{
  IsActive, supervisor_node-IsRunnable, supervisor_node-synthesis,
}
use enterprise_multi_agent_o.Orchestration.HumanGate.{IsHeld, IsPause, held-IsPause}
use enterprise_multi_agent_o.Orchestration.Budget.{budget, IsSound}
use enterprise_multi_agent_o.Orchestration.Progress.Termination.{Exec-terminates}

abbrev pub a_task : String → TaskType → List String → Task
a_task id task_type dependencies = record {
  id = id;
  title = id;
  description = id;
  task_type = task_type;
  assigned_agent = none;
  dependencies = dependencies;
  status = TaskStatus.pending;
  input_data = [];
  output_data = none;
  error = none;
  retry_count = 0;
  max_retries = 3;
  created_at = 1;
  completed_at = none;
}

abbrev pub a_plan : List Task → ExecutionPlan
a_plan tasks = record {
  plan_id = "plan";
  tasks = tasks;
  current_task_id = none;
  rationale = none;
  created_at = 1;
}

abbrev pub two_tasks : List Task
two_tasks =
    a_task "search" TaskType.retrieval [] ∷ a_task "report" TaskType.synthesis ("search" ∷ []) ∷ []

-- A fresh state with a plan of these tasks.
abbrev pub state_of : List Task → OrchestrationState
unfolding create_initial
state_of tasks = record (create_initial 1 "run" "Report on it" none none 3 none) {
  plan = some (a_plan tasks);
}

abbrev pub run_of : OrchestrationState → Option String → Option HumanDecision → Run
run_of s current decision = record {
  graph = record {
    state = s;
    current_task_id = current;
    next_action = none;
    human_decision = decision;
    error = none;
  };
  log = [];
}

abbrev pub env : Env
env = record { now = 9; fresh_id = "u" }

abbrev pub result_of : NodeResult → Run
result_of (returns r) = r
result_of (NodeResult.raises _ r) = r

-- Agents that are not reached.
abbrev pub absent : Agents
absent = record {
  planner = λ s. (Result.raises (other "absent"), s);
  retriever = λ s t. (Result.raises (other "absent"), s);
  tool_executor = λ s t. (Result.raises (other "absent"), s);
  validator = λ s t. (Result.raises (other "absent"), s);
}

abbrev pub setup : Setup
setup = record { agents = absent; show = λ p. "{}"; plan_data = Value.null }

-- The supervisor sends the first task on.
abbrev fresh : Run
fresh = run_of (state_of two_tasks) none none

abbrev sent : Run
sent = result_of (supervisor_node env fresh)

fresh-sent : supervisor_node env fresh ≡ returns sent
unfolding supervisor_node string_eq state_of create_initial get_ready_tasks
fresh-sent = refl

sent-retrieval : sent.graph.next_action ≡ some NextAction.retrieval
unfolding supervisor_node string_eq state_of create_initial get_ready_tasks action_for
sent-retrieval = refl

supervisor_node-IsRunnable_example :
    IsActive fresh.graph
    × ((p : ExecutionPlan) × (t : Task) × (fresh.graph.state.plan ≡ some p)
        × (sent.graph.current_task_id ≡ some t.id)
        × IsRunnable p t)
supervisor_node-IsRunnable_example =
    supervisor_node-IsRunnable env fresh sent fresh-sent (inl sent-retrieval)

-- A plan whose synthesis task is ready before the other.
abbrev eager : Run
eager =
    run_of
      (state_of
        (a_task "report" TaskType.synthesis [] ∷ a_task "search" TaskType.retrieval [] ∷ []))
      none none

abbrev closing : Run
closing = result_of (supervisor_node env eager)

eager-closing : supervisor_node env eager ≡ returns closing
unfolding supervisor_node string_eq state_of create_initial get_ready_tasks
eager-closing = refl

closing-synthesis : closing.graph.next_action ≡ some NextAction.synthesis
unfolding supervisor_node string_eq state_of create_initial get_ready_tasks action_for
closing-synthesis = refl

supervisor_node-synthesis_example :
    IsActive eager.graph
    × ((p : ExecutionPlan) × (eager.graph.state.plan ≡ some p)
        × (All IsDone p.tasks ⊎ ((t : Task) × IsFirst p t × (t.task_type ≡ TaskType.synthesis))))
supervisor_node-synthesis_example =
    supervisor_node-synthesis env eager closing eager-closing closing-synthesis

-- The run waits for a reviewer of the first task.
abbrev pub asking : OrchestrationState
unfolding request_human_escalation
asking = request_human_escalation 2 "q" "check" "review" [] (some "search") (state_of two_tasks)

abbrev waiting_run : Run
waiting_run = run_of asking (some "search") none

abbrev at_gate : Run
at_gate = result_of (supervisor_node env waiting_run)

abbrev pausing : Run
pausing = result_of (human_gate_node env at_gate)

waiting_run-Exec : Exec setup Node.supervisor waiting_run 2 none pausing
unfolding run_node next_node supervisor_node human_gate_node asking request_human_escalation
    state_of create_initial
waiting_run-Exec = more env refl refl (last env refl refl)

waiting_run-IsHeld : IsHeld waiting_run.graph
unfolding asking request_human_escalation state_of create_initial
waiting_run-IsHeld = record { undecided = refl; alive = refl; held = refl }

held-IsPause_example : (◌≡◌ {A = ℕ} 2 2) × IsPause waiting_run.graph pausing.graph
held-IsPause_example = held-IsPause waiting_run-Exec waiting_run-IsHeld

absent-IsFramed : IsFramed absent
absent-IsFramed = record {
  planner = λ s. same_frame s;
  retriever = λ s t. same_frame s;
  tool_executor = λ s t. same_frame s;
  validator = λ s t. same_frame s;
}
  where
    same_frame : (s : OrchestrationState) → Frame s s
    same_frame s = record {
      plan = refl;
      status = refl;
      requires_human = refl;
      human_requests = refl;
      current_step = refl;
    }

other_name : ◌==◌ {A = String} "search" "report" ≡ false
unfolding string_eq
other_name = refl

names_differ : ◌≢◌ {A = String} "search" "report"
names_differ e =
    ground (arith, other_name, ap (λ s. s == "report") e, ==-self {A = String} "report")

ids_unique : (x : String) → count x ("search" ∷ "report" ∷ []) ≤ 1
ids_unique x = elim (==-cases x "search") [
  | inl (e, same) ↦ ground (arith, e, same, ==-cases x "report", names_differ)
  | inr (e, differ) ↦ ground (arith, e)
]

pub two_tasks-IsSound : IsSound two_tasks
unfolding ids nonempty string_eq
two_tasks-IsSound = record { unique = ids_unique; named = ((refl, refl), ((refl, refl), tt)) }

fresh-Exec : Exec setup Node.supervisor fresh 1 (some Node.retrieval) sent
unfolding run_node next_node supervisor_node string_eq state_of create_initial get_ready_tasks
    action_for
fresh-Exec = last env refl refl

fresh-planned : fresh.graph.state.plan ≡ some (a_plan two_tasks)
unfolding state_of create_initial
fresh-planned = refl

Exec-terminates_example : 1 ≤ 3 * budget two_tasks + 2
Exec-terminates_example =
    Exec-terminates setup absent-IsFramed (a_plan two_tasks) fresh-Exec refl fresh-planned
      two_tasks-IsSound
