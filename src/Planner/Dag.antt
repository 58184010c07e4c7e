-- ===== src/Planner/Dag.antt =====
-- `validate_plan_dag` of agents/planner.py and directed acyclic graphs.
use enterprise_multi_agent_o.Base.{
  ◌≤◌, String, ◌≡◌, refl, inl, inr, true, false, List, [], ◌∷◌, contains, string_eq, nat_eq, arith,
  Bool-cases, ==-self,
}
use enterprise_multi_agent_o.Base.Lists.{length, All}
use enterprise_multi_agent_o.Base.Count.{count, contains-of_count, count-of_contains}
use enterprise_multi_agent_o.Core.Types.{truthy}
use enterprise_multi_agent_o.Errors.{ok}
use enterprise_multi_agent_o.Planner.{
  PlannedTaskItem, PlannedDecompositionSchema, graph_of, distinct, check_references,
  check_dependencies, validate_plan_dag,
}
use enterprise_multi_agent_o.Planner.Kahn.{node_ids}
use enterprise_multi_agent_o.Planner.Kahn.Invariant.{
  Grounded, visited_count-Grounded, Grounded-visited_count,
}

-- The ids of the tasks.
abbrev pub task_ids : List PlannedTaskItem → List String
unfolding graph_of
task_ids ts = node_ids (graph_of ts)

-- Each dependency is another task.
abbrev pub IsClosed : List String → List PlannedTaskItem → Type 0
IsClosed ids = All (λ t.
    (contains t.dependencies t.id ≡ false)
    × ((d : String) → contains t.dependencies d ≡ true → contains ids d ≡ true))

-- What makes a list of planned tasks a plan, said without the algorithm.
pub record IsDag (ts : List PlannedTaskItem) : Type 0 where
  pub nonempty : truthy ts ≡ true
  pub unique : (x : String) → count x (node_ids (graph_of ts)) ≤ 1
  pub closed : IsClosed (node_ids (graph_of ts)) ts
  pub acyclic : (x : String) → contains (node_ids (graph_of ts)) x ≡ true → Grounded (graph_of ts) x

length-distinct-le : (xs : List String) → length (distinct xs) ≤ length xs
unfolding distinct
length-distinct-le [] = omega arith
length-distinct-le (x ∷ xs) = ground (arith, length-distinct-le xs)

unique_of_length :
    (xs : List String) → length xs ≡ length (distinct xs) → (x : String) → count x xs ≤ 1
unfolding distinct
unique_of_length [] h x = omega arith
unique_of_length (y ∷ xs) h x = elim (Bool-cases (contains xs y)) [
  | inl twice ↦ absurd (ground (arith, h, twice, length-distinct-le xs))
  | inr once ↦
      ground (arith, once, unique_of_length xs (ground (arith, h, once)) x, contains-of_count x xs)
]

length_of_unique :
    (xs : List String) → ((x : String) → count x xs ≤ 1) → length xs ≡ length (distinct xs)
unfolding distinct
length_of_unique [] h = refl
length_of_unique (y ∷ xs) h =
    ground (
      arith,
      length_of_unique xs (λ x. ground (arith, h x)),
      h y,
      ==-self y,
      count-of_contains y xs,
    )

references_sound :
    (ids : List String) (i : String) (deps : List String)
    → check_references ids i deps ≡ ok tt
    → (d : String) → contains deps d ≡ true
    → contains ids d ≡ true
unfolding check_references
references_sound ids i [] h d c = cc
references_sound ids i (dep ∷ deps) h d c =
    let rest : check_references ids i deps ≡ ok tt = ground (arith, h) in
    ground (arith, h, c, λ (k : contains deps d ≡ true). references_sound ids i deps rest d k)

references_complete :
    (ids : List String) (i : String) (deps : List String)
    → ((d : String) → contains deps d ≡ true → contains ids d ≡ true)
    → check_references ids i deps ≡ ok tt
unfolding check_references
references_complete ids i [] h = refl
references_complete ids i (dep ∷ deps) h =
    ground
      (arith, h dep, ==-self dep, references_complete ids i deps (λ d c. h d (ground (arith, c))))

dependencies_sound :
    (ids : List String) (ts : List PlannedTaskItem)
    → check_dependencies ids ts ≡ ok tt
    → IsClosed ids ts
unfolding check_dependencies
dependencies_sound ids [] h = tt
dependencies_sound ids (t ∷ ts) h = (
  (ground (arith, h), references_sound ids t.id t.dependencies (ground (arith, h))),
  dependencies_sound ids ts (ground (arith, h)),
)

dependencies_complete :
    (ids : List String) (ts : List PlannedTaskItem)
    → IsClosed ids ts
    → check_dependencies ids ts ≡ ok tt
unfolding check_dependencies
dependencies_complete ids [] h = refl
dependencies_complete ids (t ∷ ts) h =
    ground (
      arith,
      h,
      references_complete ids t.id t.dependencies h.0.1,
      dependencies_complete ids ts h.1,
    )

-- A plan that `validate_plan_dag` accepts has tasks, with distinct ids; every dependency is the id
-- of another task of it; and no chain of dependencies is endless.
pub validate_plan_dag-IsDag :
    (plan : PlannedDecompositionSchema) → validate_plan_dag plan ≡ ok tt → IsDag plan.tasks
unfolding validate_plan_dag
validate_plan_dag-IsDag plan h =
    let g = graph_of plan.tasks in
    record {
      nonempty = ground (arith, h);
      unique = unique_of_length (node_ids g) (ground (arith, h));
      closed = dependencies_sound (node_ids g) plan.tasks (ground (arith, h));
      acyclic = visited_count-Grounded g (ground (arith, h));
    }

-- Every plan that has tasks with distinct ids, whose dependencies are ids of other tasks, and
-- which has no endless chain of dependencies, is accepted.
pub validate_plan_dag_complete :
    (plan : PlannedDecompositionSchema) → IsDag plan.tasks → validate_plan_dag plan ≡ ok tt
unfolding validate_plan_dag
validate_plan_dag_complete plan dag =
    let g = graph_of plan.tasks in
    ground (
      arith,
      dag.nonempty,
      length_of_unique (node_ids g) dag.unique,
      dependencies_complete (node_ids g) plan.tasks dag.closed,
      Grounded-visited_count g dag.unique dag.acyclic,
    )
