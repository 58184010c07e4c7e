-- ===== src/Orchestration/Progress.antt =====
-- The length of executions of a plan: a bound by the retry budgets, and the supervisor's node.
pub mod Work
pub mod Rulings
pub mod Termination
use enterprise_multi_agent_o.Base.{
  ℕ, zero, suc, ◌+◌, ◌-◌, ◌*◌, ◌≤◌, String, ◌≡◌, refl, sym, ◌∙◌, ◌≢◌, ◌⊎◌, inl, inr, Bool, true,
  false, Option, none, some, List, [], ◌∷◌, ◌==◌, contains, if◌then◌else◌, string_eq, nat_eq, arith,
  Bool-cases, Option-cases, subst, ap,
}
use enterprise_multi_agent_o.Base.Lists.{In, All, head?, All-In}
use enterprise_multi_agent_o.Core.Types.{TaskStatus, TaskType, nonempty, Payload, Value, text_or}
use enterprise_multi_agent_o.Core.Task.{
  Task, ExecutionPlan, is_pending, find_task, get_task, update_task, ids, get_ready_tasks,
  mark_in_progress, mark_failed, mark_completed, can_retry,
}
use enterprise_multi_agent_o.Core.State.{
  OrchestrationState, increment_step, record_error, add_agent_output, request_human_escalation,
  set_status, fail_run,
}
use enterprise_multi_agent_o.Errors.{Exception, Result, Result-cases}
use enterprise_multi_agent_o.Agents.Result.{AgentResult, is_success}
use enterprise_multi_agent_o.Orchestration.Graph.{
  NextAction, GraphState, Run, NodeResult, returns, Env, Agents, Frame, IsFramed, active_task,
  change_task, ValidatorOutput,
}
use enterprise_multi_agent_o.Orchestration.Nodes.{
  supervisor_node, dispatch, action_for, retrieval_node, tool_node, missing_task, set_output,
  task_failed, is_failed_run,
}
use enterprise_multi_agent_o.Orchestration.Gates.{
  validator_node, apply_ruling, ruling, Ruling, complete_task, count_retry, set_pending,
}
use enterprise_multi_agent_o.Orchestration.GateNode.{human_gate_node, await_human}
use enterprise_multi_agent_o.Orchestration.Routing.{
  Node, next_node, run_node, Setup, Exec, last, more, supervisor_router, validator_router,
}
use enterprise_multi_agent_o.Orchestration.Runnable.{ready-IsRunnable}
use enterprise_multi_agent_o.Orchestration.Budget.{
  is_planning, attempts, budget, retries_left, IsSound, Keeps, update_task-IsSound,
  find_task-update, budget-update, find_task-In, find_task-id,
}

-- The tasks of the run's plan, in a run without a human decision at hand.
pub record HasTasks (g : GraphState) (ts : List Task) : Type 0 where
  pub undecided : g.human_decision ≡ none
  pub plan : ExecutionPlan
  pub planned : g.state.plan ≡ some plan
  pub same : plan.tasks ≡ ts

-- The current task of a node that works on it.
pub record HasCurrent (g : GraphState) (ts : List Task) (t : Task) : Type 0 where
  pub id : String
  pub current : g.current_task_id ≡ some id
  pub named : nonempty id ≡ true
  pub found : find_task id ts ≡ some t

-- At node `n` no more than `b` node runs are left.
pub data Bound : Node → GraphState → ℕ → Type 0 where
  at_supervisor :
      {g : GraphState} {b : ℕ} (ts : List Task)
      → HasTasks g ts
      → IsSound ts
      → 3 * budget ts + 2 ≤ b
      → Bound Node.supervisor g b
  at_retrieval :
      {g : GraphState} {b : ℕ} (ts : List Task) (t : Task)
      → HasTasks g ts
      → IsSound ts
      → HasCurrent g ts t
      → is_pending t.status ≡ true
      → 3 * budget ts + 1 ≤ b
      → Bound Node.retrieval g b
  at_tool :
      {g : GraphState} {b : ℕ} (ts : List Task) (t : Task)
      → HasTasks g ts
      → IsSound ts
      → HasCurrent g ts t
      → is_pending t.status ≡ true
      → 3 * budget ts + 1 ≤ b
      → Bound Node.tool g b
  at_validator :
      {g : GraphState} {b : ℕ} (ts : List Task) (t : Task)
      → HasTasks g ts
      → IsSound ts
      → HasCurrent g ts t
      → is_pending t.status ≡ false
      → 3 * (budget ts + retries_left t) + 3 ≤ b
      → Bound Node.validator g b
  at_human_gate :
      {g : GraphState} {b : ℕ} → g.human_decision ≡ none → 1 ≤ b → Bound Node.human_gate g b
  at_synthesis : {g : GraphState} {b : ℕ} → 1 ≤ b → Bound Node.synthesis g b
  at_failed : {g : GraphState} {b : ℕ} → 1 ≤ b → Bound Node.failed g b

action-cases :
    (k : TaskType)
    → is_planning k ≡ false
    → (action_for k ≡ NextAction.retrieval)
      ⊎ (action_for k ≡ NextAction.tool)
      ⊎ (action_for k ≡ NextAction.synthesis)
unfolding action_for
action-cases k h = ground arith

-- The ways on from the supervisor, for a run with a plan.
supervisor-cases :
    (env : Env) (r r' : Run) (p : ExecutionPlan)
    → supervisor_node env r ≡ returns r'
    → r.graph.human_decision ≡ none
    → r.graph.state.plan ≡ some p
    → (r'.graph.human_decision ≡ none)
      × (r'.graph.state.plan ≡ some p)
      × ((r'.graph.next_action ≡ some NextAction.human_gate)
          ⊎ (r'.graph.next_action ≡ some NextAction.failed)
          ⊎ (r'.graph.next_action ≡ some NextAction.synthesis)
          ⊎ ((t : Task) × (head? (get_ready_tasks p) ≡ some t)
              × (r'.graph.next_action ≡ some (action_for t.task_type))
              × (r'.graph.current_task_id ≡ some t.id)))
unfolding supervisor_node
supervisor-cases env r r' p h undecided e = elim (Option-cases (head? (get_ready_tasks p))) [
  | inl nothing ↦ ground (arith, h, undecided, e, nothing)
  | inr (t, found) ↦ ground (arith, h, undecided, e, found)
]

pub supervisor-Bound :
    (env : Env) (r r' : Run) (b : ℕ)
    → supervisor_node env r ≡ returns r'
    → Bound Node.supervisor r.graph b
    → (1 ≤ b) × Bound (supervisor_router r'.graph.next_action) r'.graph (b - 1)
unfolding supervisor_router
supervisor-Bound env r r' b h (at_supervisor ts has sound le) =
    let (undecided, planned, ways) =
      supervisor-cases env r r' has.plan h has.undecided has.planned in
    elim ways [
      | inl held ↦ (omega arith, rw held (at_human_gate undecided (omega arith)))
      | inr (inl failed) ↦ (omega arith, rw failed (at_failed (omega arith)))
      | inr (inr (inl done)) ↦ (omega arith, rw done (at_synthesis (omega arith)))
      | inr (inr (inr (t, found, to, current))) ↦
          let run = ready-IsRunnable has.plan found in
          let m : In t ts = subst (In t) has.same run.listed in
          let (named, kind) = All-In _ sound.named m in
          let tasks : HasTasks r'.graph ts = record {
            undecided = undecided;
            plan = has.plan;
            planned = planned;
            same = has.same;
          } in
          let it : HasCurrent r'.graph ts t = record {
            id = t.id;
            current = current;
            named = named;
            found = find_task-In ts sound.unique m;
          } in
          elim (action-cases t.task_type kind) [
            | inl k ↦ (
              omega arith,
              simp (to, k)
                  (at_retrieval ts t tasks sound it (ap is_pending run.waits) (omega arith)),
            )
            | inr (inl k) ↦ (
              omega arith,
              simp (to, k) (at_tool ts t tasks sound it (ap is_pending run.waits) (omega arith)),
            )
            | inr (inr k) ↦ (omega arith, simp (to, k) (at_synthesis (omega arith)))
          ]
    ]

-- A change that a node makes to a task that is out: its retries stay, and it does not wait.
pub record IsWork (g : Task → Task) : Type 0 where
  pub keeps : Keeps g
  pub waits_not : (u : Task) → is_pending u.status ≡ false → is_pending (g u).status ≡ false
  pub retries : (u : Task) → retries_left (g u) ≡ retries_left u

mark_in_progress-Keeps : Keeps mark_in_progress
unfolding mark_in_progress
mark_in_progress-Keeps = record { id = λ t. refl; task_type = λ t. refl }

pub set_output-IsWork : (o : Option Payload) → IsWork (set_output o)
set_output-IsWork o = record {
  keeps = record { id = λ t. refl; task_type = λ t. refl };
  waits_not = λ u h. h;
  retries = λ u. refl;
}

pub mark_failed-IsWork : (now : ℕ) (m : String) → IsWork (mark_failed now m)
unfolding mark_failed
mark_failed-IsWork now m = record {
  keeps = record { id = λ t. refl; task_type = λ t. refl };
  waits_not = λ u h. refl;
  retries = λ u. refl;
}

module _ {g₀ : GraphState} {ts : List Task} {t : Task} (has : HasTasks g₀ ts) (sound : IsSound ts)
    (it : HasCurrent g₀ ts t) where
  pub active-current : active_task g₀.state g₀.current_task_id ≡ some t
  unfolding active_task get_task
  active-current = rw (it.current, has.planned, it.named, has.same) it.found

  pub worked-Bound :
      {b : ℕ} (g : Task → Task)
      → IsWork g
      → is_pending t.status ≡ true
      → 3 * budget ts + 1 ≤ b
      → (g' : GraphState) → g'.current_task_id ≡ g₀.current_task_id
      → g'.human_decision ≡ none
      → g'.state.plan
        ≡ some (record has.plan {
          tasks = update_task t.id g (update_task t.id mark_in_progress has.plan.tasks);
        })
      → (1 ≤ b) × Bound Node.validator g' (b - 1)
  unfolding mark_in_progress
  worked-Bound {b} g work pend le g' current undecided planned =
      let same_id = find_task-id it.id ts it.found in
      let found : find_task t.id ts ≡ some t =
        subst (λ i. find_task i ts ≡ some t) (sym same_id) it.found in
      let ts₁ = update_task t.id mark_in_progress ts in
      let found₁ = find_task-update mark_in_progress mark_in_progress-Keeps t.id ts found in
      let sent = budget-update mark_in_progress t.id ts {t = t} found in
      let back = budget-update g t.id ts₁ {t = mark_in_progress t} found₁ in
      let idle = work.waits_not (mark_in_progress t) refl in
      let left = work.retries (mark_in_progress t) in
      (
        omega arith,
        at_validator (update_task t.id g ts₁) (g (mark_in_progress t))
            (record {
              undecided = undecided;
              plan = _;
              planned = planned;
              same = ap (λ l. update_task t.id g (update_task t.id mark_in_progress l)) has.same;
            })
            (update_task-IsSound g work.keeps t.id
              (update_task-IsSound mark_in_progress mark_in_progress-Keeps t.id sound))
            (record {
              id = t.id;
              current = current ∙ it.current ∙ ap some (sym same_id);
              named = subst (λ i. nonempty i ≡ true) (sym same_id) it.named;
              found = find_task-update g work.keeps t.id ts₁ found₁;
            })
            idle (ground (arith, sent, back, idle, left, pend)),
      )
