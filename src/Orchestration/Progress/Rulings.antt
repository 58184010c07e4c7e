-- ===== src/Orchestration/Progress/Rulings.antt =====
-- The length of executions of a plan: the validator's rulings.
use enterprise_multi_agent_o.Base.{
  ℕ, ◌<>◌, ◌+◌, ◌-◌, ◌*◌, ◌≤◌, ◌||◌, String, ◌≡◌, refl, sym, ◌∙◌, inl, inr, false, Option, none,
  some, List, [], ◌∷◌, string_eq, nat_eq, arith, Bool-cases, subst, ap,
}
use enterprise_multi_agent_o.Core.Types.{show_option}
use enterprise_multi_agent_o.Core.Task.{
  Task, ExecutionPlan, is_pending, find_task, update_task, mark_failed, can_retry,
}
use enterprise_multi_agent_o.Core.State.{increment_step, record_error, request_human_escalation}
use enterprise_multi_agent_o.Errors.{Result-cases}
use enterprise_multi_agent_o.Agents.Result.{AgentResult, is_escalation}
use enterprise_multi_agent_o.Orchestration.Graph.{
  NextAction, GraphState, Effect, emit, with_state, Run, returns, Env, Agents, IsFramed,
  change_task, ValidatorOutput,
}
use enterprise_multi_agent_o.Orchestration.Gates.{
  validator_node, apply_ruling, ruling, verdict_of, Ruling, complete_task, count_retry, set_pending,
}
use enterprise_multi_agent_o.Orchestration.Routing.{Node, validator_router}
use enterprise_multi_agent_o.Orchestration.Budget.{
  attempts, budget, retries_left, IsSound, Keeps, update_task-IsSound, budget-update, find_task-id,
  update_task-twice,
}
use enterprise_multi_agent_o.Orchestration.Progress.{
  HasTasks, HasCurrent, Bound, at_supervisor, at_validator, at_human_gate, active-current,
}

-- The task of a ruling: one change, which keeps the task's identity.
abbrev ruled : ℕ → Option String → Ruling → Task → Task
unfolding complete_task mark_failed
ruled now feedback Ruling.accept t = complete_task now t
ruled now feedback Ruling.retry t = set_pending (count_retry t)
ruled now feedback Ruling.exhaust t =
    mark_failed now "Retry budget exhausted after validation failure." (count_retry t)
ruled now feedback Ruling.reject t =
    mark_failed now ("Task output rejected by critic: " <> show_option feedback) t

ruled-Keeps : (now : ℕ) (feedback : Option String) (v : Ruling) → Keeps (ruled now feedback v)
unfolding complete_task mark_failed
ruled-Keeps now feedback Ruling.accept = record { id = λ t. refl; task_type = λ t. refl }
ruled-Keeps now feedback Ruling.retry = record { id = λ t. refl; task_type = λ t. refl }
ruled-Keeps now feedback Ruling.exhaust = record { id = λ t. refl; task_type = λ t. refl }
ruled-Keeps now feedback Ruling.reject = record { id = λ t. refl; task_type = λ t. refl }

-- Only a retry sends the task out again, and it uses one retry up.
ruled-attempts :
    (now : ℕ) (feedback : Option String) (a : AgentResult ValidatorOutput) (t : Task)
    → attempts (ruled now feedback (ruling a t) t) ≤ retries_left t
unfolding ruling can_retry complete_task mark_failed
ruled-attempts now feedback a t = ground arith

count_retry-Keeps : Keeps count_retry
count_retry-Keeps = record { id = λ t. refl; task_type = λ t. refl }

-- The graph state that a ruling leaves.
apply_ruling-plan :
    (env : Env) (t : Task) (feedback : Option String) (v : Ruling) (r r' : Run) (p : ExecutionPlan)
    → apply_ruling env t feedback v r ≡ returns r'
    → r.graph.state.plan ≡ some p
    → (r'.graph.next_action ≡ some NextAction.supervisor)
      × (r'.graph.human_decision ≡ r.graph.human_decision)
      × (r'.graph.state.plan
          ≡ some (record p { tasks = update_task t.id (ruled env.now feedback v) p.tasks }))
unfolding apply_ruling change_task record_error
apply_ruling-plan env t feedback Ruling.accept r r' p h e = ground (arith, h, e)
apply_ruling-plan env t feedback Ruling.retry r r' p h e =
    ground (arith, h, e, update_task-twice set_pending count_retry t.id p.tasks count_retry-Keeps)
apply_ruling-plan env t feedback Ruling.exhaust r r' p h e = ground (
  arith,
  h,
  e,
  update_task-twice (mark_failed env.now "Retry budget exhausted after validation failure.")
      count_retry t.id p.tasks count_retry-Keeps,
)
apply_ruling-plan env t feedback Ruling.reject r r' p h e = ground (arith, h, e)

ruled-Bound :
    {g₀ g' : GraphState} {ts : List Task} {t : Task} {b : ℕ} (f : Task → Task)
    (has : HasTasks g₀ ts)
    → IsSound ts
    → HasCurrent g₀ ts t
    → Keeps f
    → is_pending t.status ≡ false
    → attempts (f t) ≤ retries_left t
    → 3 * (budget ts + retries_left t) + 3 ≤ b
    → g'.human_decision ≡ none
    → g'.state.plan ≡ some (record has.plan { tasks = update_task t.id f has.plan.tasks })
    → Bound Node.supervisor g' (b - 1)
ruled-Bound {g₀} {g'} {ts} {t} f has sound it keeps idle cost le undecided planned =
    let found : find_task t.id ts ≡ some t =
      subst (λ i. find_task i ts ≡ some t) (sym (find_task-id it.id ts it.found)) it.found in
    let spent = budget-update f t.id ts {t = t} found in
    at_supervisor (update_task t.id f ts)
      (record {
        undecided = undecided;
        plan = _;
        planned = planned;
        same = ap (update_task t.id f) has.same;
      })
      (update_task-IsSound f keeps t.id sound) (ground (arith, spent, idle, cost, le))

module _ (agents : Agents) (framed : IsFramed agents) where
  pub validator-Bound :
      (env : Env) (r r' : Run) (b : ℕ)
      → validator_node agents env r ≡ returns r'
      → Bound Node.validator r.graph b
      → (1 ≤ b) × Bound (validator_router r'.graph.next_action) r'.graph (b - 1)
  unfolding validator_node increment_step validator_router request_human_escalation
  validator-Bound env r r' b h (at_validator ts t has sound it idle le) =
      let active = active-current has sound it in
      let s = increment_step env.now "validator_agent" r.graph.state in
      let frame = framed.validator s t in
      elim (Result-cases (agents.validator s t).0) [
        | inr (e, raised) ↦ absurd (ground (arith, h, active, raised))
        | inl (a, answered) ↦ elim (Bool-cases (is_escalation a.status || a.requires_human)) [
          | inl held ↦
              let to : r'.graph.next_action ≡ some NextAction.human_gate =
                ground (arith, h, active, answered, held) in
              (
                omega arith,
                simp to (
                    at_human_gate (ground (arith, h, active, answered, held, has.undecided))
                      (omega arith)),
              )
          | inr ruled_on ↦
              let feedback = (verdict_of a.output).feedback in
              let r₁ : Run =
                emit (Effect.observe "validator_duration_seconds" ∷ [])
                  (with_state (agents.validator s t).1 r) in
              let done : apply_ruling env t feedback (ruling a t) r₁ ≡ returns r' =
                ground (arith, h, active, answered, ruled_on) in
              let (to, undecided, planned) =
                apply_ruling-plan env t feedback (ruling a t) r₁ r' has.plan done
                  (frame.plan ∙ has.planned) in
              (
                omega arith,
                simp to (
                    ruled-Bound (ruled env.now feedback (ruling a t)) has sound it
                      (ruled-Keeps env.now feedback (ruling a t)) idle
                      (ruled-attempts env.now feedback a t) le (undecided ∙ has.undecided) planned),
              )
        ]
      ]
