-- ===== src/Planner/Execute.antt =====
-- What `PlannerAgent.execute` returns.
use enterprise_multi_agent_o.Base.{
  ℕ, String, ◌≡◌, refl, sym, ◌≢◌, ◌⊎◌, inl, inr, true, none, some, List, [], ◌∷◌, contains,
  string_eq, nat_eq, subst, ap, ◌∙◌, map, Bool, false, if◌then◌else◌, arith, Bool-cases, ◌≤◌,
}
use enterprise_multi_agent_o.Base.Lists.{All}
use enterprise_multi_agent_o.Base.Count.{count}
use enterprise_multi_agent_o.Base.Text.{is_nonblank}
use enterprise_multi_agent_o.Core.Task.{ExecutionPlan, is_pending}
use enterprise_multi_agent_o.Core.State.{OrchestrationState}
use enterprise_multi_agent_o.Errors.{
  Exception, ◌>>◌, orchestrator_error, other, cancelled, Result, ok, raises, Result-cases,
}
use enterprise_multi_agent_o.Agents.Result.{AgentResult, AgentStatus, failure_result}
use enterprise_multi_agent_o.Planner.{
  PlannedTaskItem, PlanModel, PlanOutput, domain_tasks, validate_plan_dag, on_error, execute,
  PlannedDecompositionSchema, graph_of, check_references, check_dependencies,
}
use enterprise_multi_agent_o.Planner.Kahn.{node_ids}
use enterprise_multi_agent_o.Planner.Kahn.Invariant.{Grounded}
use enterprise_multi_agent_o.Planner.Dag.{
  IsDag, validate_plan_dag-IsDag, validate_plan_dag_complete,
}
use enterprise_multi_agent_o.Planner.Ready.{task_graph, task_graph-domain_tasks}

-- What a plan must be for its execution to start.
pub record IsPlan (p : ExecutionPlan) : Type 0 where
  pub unique : (x : String) → count x (node_ids (task_graph p.tasks)) ≤ 1
  pub acyclic :
      (x : String)
      → contains (node_ids (task_graph p.tasks)) x ≡ true
      → Grounded (task_graph p.tasks) x
  pub waiting : All (λ t. is_pending t.status ≡ true) p.tasks

domain_tasks-waiting :
    (now : ℕ) (items : List PlannedTaskItem)
    → All (λ t. is_pending t.status ≡ true) (domain_tasks now items)
unfolding domain_tasks
domain_tasks-waiting now [] = tt
domain_tasks-waiting now (t ∷ ts) = (refl, domain_tasks-waiting now ts)

-- The agent failed: its result names an error and has no output.
abbrev pub IsFailed : Result (AgentResult PlanOutput) → Type 0
IsFailed r =
    (a : AgentResult PlanOutput) × (r ≡ ok a)
    × (a.output ≡ none)
    × (a.status ≢ AgentStatus.success)
    × (a.error ≢ none)

-- What the agent asks the model, and what it gives for each answer: a failure for an exception
-- that is no cancellation, which it passes on; the answered tasks, as a plan, if the check of
-- their graph accepts them; and else a failure.
abbrev pub Answered :
    Result (PlannedDecompositionSchema × String) → Result (AgentResult PlanOutput) → Type 0
Answered (raises (orchestrator_error e)) r = IsFailed r
Answered (raises (other s)) r = IsFailed r
Answered (raises cancelled) r = r ≡ raises cancelled
Answered (ok (plan, content)) r =
    ((a : AgentResult PlanOutput) × (p : ExecutionPlan) × (r ≡ ok a)
      × IsDag plan.tasks
      × (a.output ≡ some (record { execution_plan = some p }))
      × (a.status ≡ AgentStatus.success)
      × (map (λ t. t.id) p.tasks ≡ map (λ t. t.id) plan.tasks)
      × (map (λ t. t.dependencies) p.tasks ≡ map (λ t. t.dependencies) plan.tasks)
      × IsPlan p)
    ⊎ (IsDag plan.tasks → ⊥) × IsFailed r

-- A request that is blank is a failure, and any other is answered by the model.
abbrev pub Outcome : PlanModel → OrchestrationState → Result (AgentResult PlanOutput) → Type 0
Outcome model s r =
    ((is_nonblank s.request ≡ false) × IsFailed r)
    ⊎ ((is_nonblank s.request ≡ true) × Answered (model s.request s.custom_context) r)

on_error-IsFailed : (e : Exception) → e ≢ cancelled → IsFailed (on_error e)
unfolding on_error failure_result
on_error-IsFailed (orchestrator_error e) n = (_, refl, refl, ground arith, λ h. cc)
on_error-IsFailed (other s) n = (_, refl, refl, λ h. cc, λ h. cc)
on_error-IsFailed cancelled n = absurd (n refl)

on_error-Answered : (e : Exception) → Answered (raises e) (on_error e)
unfolding on_error
on_error-Answered (orchestrator_error e) = on_error-IsFailed (orchestrator_error e) (λ h. cc)
on_error-Answered (other s) = on_error-IsFailed (other s) (λ h. cc)
on_error-Answered cancelled = refl

-- The result is no cancellation.
abbrev IsUncancelled : Result (Unit {0}) → Type 0
IsUncancelled r = r ≢ raises cancelled

then-IsUncancelled :
    (m k : Result (Unit {0})) → IsUncancelled m → IsUncancelled k → IsUncancelled (m >> k)
then-IsUncancelled (ok _) k h i = i
then-IsUncancelled (raises e) k h i = h

either-IsUncancelled :
    (b : Bool) (m k : Result (Unit {0}))
    → IsUncancelled m
    → IsUncancelled k
    → IsUncancelled (if b then m else k)
either-IsUncancelled true m k h i = h
either-IsUncancelled false m k h i = i

check_references-IsUncancelled :
    (ids : List String) (task_id : String) (deps : List String)
    → IsUncancelled (check_references ids task_id deps)
unfolding check_references
check_references-IsUncancelled ids task_id [] = λ h. cc
check_references-IsUncancelled ids task_id (dep ∷ deps) =
    either-IsUncancelled (contains ids dep) _ _ (check_references-IsUncancelled ids task_id deps)
      (λ h. cc)

check_dependencies-IsUncancelled :
    (ids : List String) (ts : List PlannedTaskItem) → IsUncancelled (check_dependencies ids ts)
unfolding check_dependencies
check_dependencies-IsUncancelled ids [] = λ h. cc
check_dependencies-IsUncancelled ids (t ∷ ts) =
    either-IsUncancelled (contains t.dependencies t.id) _ _ (λ h. cc)
      (then-IsUncancelled _ _ (check_references-IsUncancelled ids t.id t.dependencies)
        (check_dependencies-IsUncancelled ids ts))

validate_plan_dag-IsUncancelled :
    (plan : PlannedDecompositionSchema) → IsUncancelled (validate_plan_dag plan)
unfolding validate_plan_dag
validate_plan_dag-IsUncancelled plan h =
    let ids = node_ids (graph_of plan.tasks) in
    elim (Result-cases (check_dependencies ids plan.tasks)) [
      | inl (_, found) ↦ ground (arith, h, found)
      | inr (e, missing) ↦
          check_dependencies-IsUncancelled ids plan.tasks (ground (arith, h, missing))
    ]

invalid-IsFailed :
    (plan : PlannedDecompositionSchema) (e : Exception)
    → validate_plan_dag plan ≡ raises e
    → (IsDag plan.tasks → ⊥) × IsFailed (on_error e)
invalid-IsFailed plan e invalid = (
  λ dag. absurd (ground (arith, invalid, validate_plan_dag_complete plan dag)),
  on_error-IsFailed e (λ c. validate_plan_dag-IsUncancelled plan (invalid ∙ ap (λ x. raises x) c)),
)

domain_tasks-ids :
    (now : ℕ) (ts : List PlannedTaskItem)
    → (map (λ t. t.id) (domain_tasks now ts) ≡ map (λ t. t.id) ts)
      × (map (λ t. t.dependencies) (domain_tasks now ts) ≡ map (λ t. t.dependencies) ts)
unfolding domain_tasks
domain_tasks-ids now [] = (refl, refl)
domain_tasks-ids now (t ∷ ts) =
    let (ids, deps) = domain_tasks-ids now ts in
    (ap (λ is. t.id ∷ is) ids, ap (λ ds. t.dependencies ∷ ds) deps)

-- The tasks of an accepted plan can be executed.
domain_tasks-IsPlan :
    (now : ℕ) (plan : PlannedDecompositionSchema) (p : ExecutionPlan)
    → IsDag plan.tasks
    → domain_tasks now plan.tasks ≡ p.tasks
    → IsPlan p
domain_tasks-IsPlan now plan p dag e =
    let same = sym (task_graph-domain_tasks now plan.tasks) ∙ ap task_graph e in
    record {
      unique = subst (λ g. (x : String) → count x (node_ids g) ≤ 1) same dag.unique;
      acyclic =
          subst (λ g. (x : String) → contains (node_ids g) x ≡ true → Grounded g x) same
            dag.acyclic;
      waiting =
          subst (All (λ t. is_pending t.status ≡ true)) e (domain_tasks-waiting now plan.tasks);
    }

-- `PlannerAgent.execute` fails for a blank request. For any other it goes by what the model answers
-- for the request and its context. An exception that is no cancellation becomes a failure, and a
-- cancellation is passed on. Tasks with distinct ids, at least one, which depend only on each other
-- and without a cycle, become a plan with these ids and dependencies, whose tasks all wait. Any
-- other tasks become a failure.
pub execute-Outcome :
    (model : PlanModel) (plan_id : String) (now : ℕ) (s : OrchestrationState)
    → Outcome model s (execute model plan_id now s)
unfolding execute
execute-Outcome model plan_id now s = elim (Bool-cases (is_nonblank s.request)) [
  | inr blank ↦ inl (blank, rw blank (_, refl, refl, λ h. cc, λ h. cc))
  | inl asked ↦ inr (
    asked,
    elim (Result-cases (model s.request s.custom_context)) [
      | inr (e, failed) ↦ rw (asked, failed) (on_error-Answered e)
      | inl ((plan, content), answered) ↦ elim (Result-cases (validate_plan_dag plan)) [
        | inr (e, invalid) ↦ rw (asked, answered, invalid) (inr (invalid-IsFailed plan e invalid))
        | inl (_, valid) ↦
            let dag = validate_plan_dag-IsDag plan valid in
            let (ids, deps) = domain_tasks-ids now plan.tasks in
            rw (asked, answered, valid)
              (inl
                (_, _, refl, dag, refl, refl, ids, deps, domain_tasks-IsPlan now plan _ dag refl))
      ]
    ],
  )
]
