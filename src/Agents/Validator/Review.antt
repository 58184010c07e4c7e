-- ===== src/Agents/Validator/Review.antt =====
-- The critic of agents/validator.py in the validator node of orchestration/nodes.py.
use enterprise_multi_agent_o.Base.{
  ℕ, String, ◌≡◌, refl, true, false, none, some, if◌then◌else◌, string_eq, arith,
}
use enterprise_multi_agent_o.Base.Dict.{lookup}
use enterprise_multi_agent_o.Core.Types.{ExecutionStatus, Value}
use enterprise_multi_agent_o.Core.Task.{Task}
use enterprise_multi_agent_o.Core.State.{
  OrchestrationState, increment_step, add_validation_result, request_human_escalation,
}
use enterprise_multi_agent_o.Errors.{orchestrator_error, other, cancelled, Result, ok, raises}
use enterprise_multi_agent_o.Agents.Result.{failure_result}
use enterprise_multi_agent_o.Agents.Validator.{
  CriticEvaluation, Critic, default_criteria, validator_agent, target_output, validate_input,
  on_critique, validate,
}
use enterprise_multi_agent_o.Orchestration.Graph.{
  NextAction, Run, returns, Env, Agents, Frame, active_task,
}
use enterprise_multi_agent_o.Orchestration.Gates.{validator_node}

pub same_Frame : (s : OrchestrationState) → Frame s s
same_Frame s = record {
  plan = refl;
  status = refl;
  requires_human = refl;
  human_requests = refl;
  current_step = refl;
}

on_critique-Frame :
    (now : ℕ) (s : OrchestrationState) (t : Task) (a : Result (CriticEvaluation × String))
    → Frame s (on_critique now s t a).1
unfolding on_critique add_validation_result
on_critique-Frame now s t (ok (c, content)) = record {
  plan = refl;
  status = refl;
  requires_human = refl;
  human_requests = refl;
  current_step = refl;
}
on_critique-Frame now s t (raises (orchestrator_error e)) = same_Frame s
on_critique-Frame now s t (raises (other x)) = same_Frame s
on_critique-Frame now s t (raises cancelled) = same_Frame s

-- Whatever the critic answers, the validator agent leaves alone the plan, the status, the human
-- requests and the step of the state, as the workflow takes its agents to do.
pub validate-Frame :
    (str : Value → String) (critic : Critic) (now : ℕ) (s : OrchestrationState) (t : Task)
    → Frame s (validate str critic now s t).1
unfolding validate
validate-Frame str critic now s t =
    let criteria : String = elim (lookup "acceptance_criteria" t.input_data) [
      | none ↦ default_criteria
      | some v ↦ str v
    ] in
    let answer = critic s.request criteria (target_output s t) in
    elim (validate_input s t)
      as (λ b.
        Frame s
          (if b then on_critique now s t answer else (
            ok (failure_result validator_agent "No target output found to validate." false),
            s,
          )).1) [ true ↦ on_critique-Frame now s t answer | false ↦ same_Frame s ]

-- The agents of a workflow whose validator is this one, with a critic that gives this critique.
abbrev pub with_critique :
    (str : Value → String) (now : ℕ) → CriticEvaluation → (content : String) → Agents → Agents
with_critique str now c content agents = record agents {
  validator = validate str (λ request criteria target. ok (c, content)) now;
}

-- A critique that asks for a human review of a task with an output pauses the run before the human
-- gate, whatever else it says.
pub validator_node-review :
    (str : Value → String) (now : ℕ) (c : CriticEvaluation) (content : String) (agents : Agents)
    (env : Env) (r r' : Run) (t : Task)
    → active_task r.graph.state r.graph.current_task_id ≡ some t
    → validate_input (increment_step env.now "validator_agent" r.graph.state) t ≡ true
    → c.needs_human_review ≡ true
    → validator_node (with_critique str now c content agents) env r ≡ returns r'
    → (r'.graph.next_action ≡ some NextAction.human_gate)
      × (r'.graph.state.requires_human ≡ true)
      × (r'.graph.state.metadata.status ≡ ExecutionStatus.paused_for_human)
      × (r'.graph.state.plan ≡ r.graph.state.plan)
unfolding validator_node validate on_critique add_validation_result request_human_escalation
    increment_step
validator_node-review str now c content agents env r r' t active filled review h =
    ground (arith, active, filled, review, h)
