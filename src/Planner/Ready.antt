-- ===== src/Planner/Ready.antt =====
-- Plans validated by agents/planner.py in `get_ready_tasks` of core/task.py.
use enterprise_multi_agent_o.Base.{
  ℕ, String, ◌≡◌, refl, sym, ◌⊎◌, inl, inr, true, false, ◌||◌, List, [], ◌∷◌, ◌++◌, contains,
  string_eq, arith, Bool-cases, ==-self, ==-cases, subst,
}
use enterprise_multi_agent_o.Base.Lists.{all, any, select, All, In, here, there, All-In}
use enterprise_multi_agent_o.Core.Types.{truthy}
use enterprise_multi_agent_o.Core.Task.{
  Task, ExecutionPlan, is_pending, is_completed, ids, completed_ids, is_ready, get_ready_tasks,
}
use enterprise_multi_agent_o.Errors.{ok}
use enterprise_multi_agent_o.Planner.{
  PlannedTaskItem, PlannedDecompositionSchema, validate_plan_dag, graph_of, domain_tasks,
}
use enterprise_multi_agent_o.Planner.Dag.{validate_plan_dag-IsDag}
use enterprise_multi_agent_o.Planner.Kahn.{Graph, node_ids}
use enterprise_multi_agent_o.Planner.Kahn.Degrees.{deps_of}
use enterprise_multi_agent_o.Planner.Kahn.Invariant.{Grounded, ground_node}

-- The dependency graph of a plan in execution.
unfoldable pub task_graph : List Task → Graph
task_graph [] = []
task_graph (t ∷ ts) = (t.id, t.dependencies) ∷ task_graph ts

-- Planning keeps the graph that was validated.
pub task_graph-domain_tasks :
    (now : ℕ) (items : List PlannedTaskItem) → task_graph (domain_tasks now items) ≡ graph_of items
unfolding task_graph domain_tasks graph_of
task_graph-domain_tasks now [] = refl
task_graph-domain_tasks now (t ∷ ts) = ground (arith, task_graph-domain_tasks now ts)

-- Every task is waiting or has completed.
abbrev pub IsOpen : List Task → Type 0
IsOpen = All (λ t. (is_pending t.status || is_completed t.status) ≡ true)

module _ (done : List String) where
  -- The first dependency that has not completed, if there is one.
  blocked_by :
      (deps : List String)
      → (all (contains done) deps ≡ true)
        ⊎ ((d : String) × (contains deps d ≡ true) × (contains done d ≡ false))
  blocked_by [] = inl refl
  blocked_by (d ∷ ds) = elim (Bool-cases (contains done d)) [
    | inr left ↦ inr (d, ground (arith, ==-self d), left)
    | inl shut ↦ elim (blocked_by ds) [
      | inl rest ↦ inl (ground (arith, shut, rest))
      | inr (e, inside, left) ↦ inr (e, ground (arith, inside), left)
    ]
  ]

  select-truthy :
      {t : Task} {ts : List Task}
      → In t ts
      → is_ready done t ≡ true
      → truthy (select (is_ready done) ts) ≡ true
  select-truthy {t} (here {x = u} {xs = us} e) r = rw (subst (λ v. is_ready done v ≡ true) e r) refl
  select-truthy (there {x = u} {xs = us} m) r = ground (arith, select-truthy m r)

contains-append_left :
    (d : String) (xs ys : List String) → contains xs d ≡ true → contains (xs ++ ys) d ≡ true
contains-append_left d [] ys h = cc
contains-append_left d (x ∷ xs) ys h = ground (arith, contains-append_left d xs ys)

contains-append_right :
    (d : String) (xs ys : List String) → contains ys d ≡ true → contains (xs ++ ys) d ≡ true
contains-append_right d [] ys h = h
contains-append_right d (x ∷ xs) ys h = ground (arith, contains-append_right d xs ys h)

contains-deps_of :
    {t : Task} {ts : List Task} (d : String)
    → In t ts
    → contains t.dependencies d ≡ true
    → contains (deps_of t.id (task_graph ts)) d ≡ true
unfolding task_graph
contains-deps_of {t} d (here {x = u} {xs = us} e) h =
    subst (λ v. contains (deps_of v.id (task_graph (u ∷ us))) d ≡ true) (sym e)
      (ground (
        arith,
        ==-self u.id,
        contains-append_left d u.dependencies (deps_of u.id (task_graph us))
            (subst (λ v. contains v.dependencies d ≡ true) e h),
      ))
contains-deps_of {t} d (there {x = u} {xs = us} m) h = ground (
  arith,
  contains-deps_of d m h,
  contains-append_right d u.dependencies (deps_of t.id (task_graph us)),
)

find_node :
    (d : String) (ts : List Task)
    → contains (node_ids (task_graph ts)) d ≡ true
    → (u : Task) × In u ts × (u.id ≡ d)
unfolding task_graph
find_node d [] h = cc
find_node d (t ∷ ts) h = elim (==-cases d t.id) [
  | inl (_, e) ↦ (t, here refl, sym e)
  | inr (ne, _) ↦ let (u, m, e) = find_node d ts (ground (arith, h, ne)) in (u, there m, e)
]

pub contains-completed :
    {u : Task} {ts : List Task}
    → In u ts
    → is_completed u.status ≡ true
    → contains (completed_ids ts) u.id ≡ true
unfolding completed_ids ids
contains-completed {u} (here {x = v} {xs = us} e) h =
    subst (λ w. contains (completed_ids (v ∷ us)) w.id ≡ true) (sym e)
      (ground (arith, ==-self v.id, subst (λ w. is_completed w.status ≡ true) e h))
contains-completed (there {x = v} {xs = us} m) h = ground (arith, contains-completed m h)

module _ (ts : List Task) (opened : IsOpen ts) where
  is_node : {x : String} → Grounded (task_graph ts) x → contains (node_ids (task_graph ts)) x ≡ true
  is_node (ground_node _ node _) = node

  -- Down the dependencies of a pending task stands one that is ready.
  ready_below :
      (x : String) (t : Task)
      → Grounded (task_graph ts) x
      → In t ts
      → t.id ≡ x
      → is_pending t.status ≡ true
      → truthy (select (is_ready (completed_ids ts)) ts) ≡ true
  unfolding is_ready
  ready_below x t (ground_node _ node deps) m e p =
      elim (blocked_by (completed_ids ts) t.dependencies) [
        | inl closed ↦ select-truthy (completed_ids ts) m (ground (arith, p, closed))
        | inr (d, inside, left) ↦
            let below : contains (deps_of x (task_graph ts)) d ≡ true =
              subst (λ z. contains (deps_of z (task_graph ts)) d ≡ true) e
                (contains-deps_of d m inside) in
            let (u, mu, eu) = find_node d ts (is_node (deps d below)) in
            let waits : is_pending u.status ≡ true = ground (
              arith,
              All-In (λ v. (is_pending v.status || is_completed v.status) ≡ true) opened mu,
              contains-completed mu,
              left,
              eu,
            ) in
            ready_below d u (deps d below) mu eu waits
      ]

In-node : {t : Task} {ts : List Task} → In t ts → contains (node_ids (task_graph ts)) t.id ≡ true
unfolding task_graph
In-node (here {x = v} {xs = us} e) =
    subst (λ w. contains (node_ids (task_graph (v ∷ us))) w.id ≡ true) (sym e)
      (ground (arith, ==-self v.id))
In-node (there m) = ground (arith, In-node m)

-- In a plan whose dependency graph is acyclic, and whose tasks all wait or have completed, some
-- task is ready as soon as one waits.
get_ready_tasks-progress :
    (p : ExecutionPlan)
    → ((x : String)
        → contains (node_ids (task_graph p.tasks)) x ≡ true
        → Grounded (task_graph p.tasks) x)
    → IsOpen p.tasks
    → any (λ t. is_pending t.status) p.tasks ≡ true
    → truthy (get_ready_tasks p) ≡ true
unfolding get_ready_tasks
get_ready_tasks-progress p acyclic opened waiting =
    let (t, m, w) = find_pending p.tasks waiting in
    ready_below p.tasks opened t.id t (acyclic t.id (In-node m)) m refl w
  where
    find_pending :
        (ts : List Task)
        → any (λ t. is_pending t.status) ts ≡ true
        → (t : Task) × In t ts × (is_pending t.status ≡ true)
    find_pending [] h = cc
    find_pending (t ∷ ts) h = elim (Bool-cases (is_pending t.status)) [
      | inl w ↦ (t, here refl, w)
      | inr other ↦ let (u, m, w) = find_pending ts (ground (arith, h, other)) in (u, there m, w)
    ]

-- Once `validate_plan_dag` has accepted a plan, execution cannot deadlock: at any later time at
-- which the plan's tasks, with the ids and dependencies that were validated, all wait or have
-- completed, and one of them waits, `get_ready_tasks` finds a task.
pub validated-get_ready_tasks :
    (schema : PlannedDecompositionSchema) (p : ExecutionPlan)
    → validate_plan_dag schema ≡ ok tt
    → task_graph p.tasks ≡ graph_of schema.tasks
    → IsOpen p.tasks
    → any (λ t. is_pending t.status) p.tasks ≡ true
    → truthy (get_ready_tasks p) ≡ true
validated-get_ready_tasks schema p valid same opened waiting =
    get_ready_tasks-progress p
      (subst (λ g. (x : String) → contains (node_ids g) x ≡ true → Grounded g x) (sym same)
        (validate_plan_dag-IsDag schema valid).acyclic)
      opened waiting
