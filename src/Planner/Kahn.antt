-- ===== src/Planner/Kahn.antt =====
-- Kahn's algorithm, as agents/planner.py (`validate_plan_dag`) and evaluation/scorers/planning.py
-- (`score`) both write it, over a list of nodes with the ids that each depends on. `d[k] += 1` and
-- `d[k].append(x)` read the default of a missing key, where Python raises KeyError: both callers
-- give every key a value first.
pub mod Degrees
pub mod Queue
pub mod Invariant
use enterprise_multi_agent_o.Base.{
  ℕ, zero, suc, ◌+◌, ◌-◌, String, Bool, Option, none, some, List, [], ◌∷◌, ◌++◌, ◌==◌, contains,
  if◌then◌else◌, or_else, string_eq, nat_eq,
}
use enterprise_multi_agent_o.Base.Lists.{length}
use enterprise_multi_agent_o.Base.Dict.{Dict, lookup, insert}

-- The id of a node and the ids that it depends on.
abbrev pub Graph : Type 0
Graph = Dict String (List String)

abbrev pub node_ids : Graph → List String
node_ids [] = []
node_ids ((i, _) ∷ g) = i ∷ node_ids g

abbrev pub Degrees : Type 0
Degrees = Dict String ℕ

abbrev pub degree : Degrees → String → ℕ
degree d x = or_else (lookup x d) 0

abbrev pub successors : Graph → String → List String
successors m x = or_else (lookup x m) []

-- `{x: v for x in xs}`
pub from_keys {ℓ} : {V : Type ℓ} → V → Dict String V → List String → Dict String V
unfolding insert
from_keys v d [] = d
from_keys v d (x ∷ xs) = from_keys v (insert x v d) xs

-- `for dep in t.dependencies: dependents[dep].append(t.id); in_degree[t.id] += 1`
pub add_edges : String → List String → Degrees × Graph → Degrees × Graph
unfolding insert lookup
add_edges i [] (d, m) = (d, m)
add_edges i (dep ∷ deps) (d, m) =
    add_edges i deps (insert i (degree d i + 1) d, insert dep (successors m dep ++ i ∷ []) m)

-- The loop over the tasks.
pub add_nodes : Graph → Degrees × Graph → Degrees × Graph
unfolding add_edges
add_nodes [] s = s
add_nodes ((i, deps) ∷ g) s = add_nodes g (add_edges i deps s)

-- Both dicts as the loop over the tasks leaves them.
pub initial : Graph → Degrees × Graph
unfolding from_keys add_nodes
initial g = add_nodes g (from_keys 0 [] (node_ids g), from_keys [] [] (node_ids g))

-- `[t_id for t_id, deg in in_degree.items() if deg == 0]`
pub zero_keys : Degrees → List String
zero_keys [] = []
zero_keys ((x, n) ∷ d) = let rest = zero_keys d in if n == 0 then x ∷ rest else rest

-- The loop over the dependents of a node. A degree falls to 0 exactly if it was 1.
pub relax : List String → Degrees × List String → Degrees × List String
unfolding insert lookup
relax [] s = s
relax (x ∷ xs) (d, queue) =
    relax xs (insert x (degree d x - 1) d, (if degree d x == 1 then queue ++ x ∷ [] else queue))

-- `while queue:`, which counts the nodes that it takes off. One round of fuel is one node.
pub drain : ℕ → Graph → Degrees → List String → ℕ → ℕ
unfolding relax lookup
drain zero m d queue visited = visited
drain (suc fuel) m d [] visited = visited
drain (suc fuel) m d (x ∷ queue) visited =
    let (d', queue') = relax (successors m x) (d, queue) in drain fuel m d' queue' (visited + 1)

-- The number of visited nodes. `Invariant` shows that a round for each node is enough.
unfoldable pub visited_count : Graph → ℕ
unfolding initial zero_keys drain
visited_count g = let (d, m) = initial g in drain (length (node_ids g)) m d (zero_keys d) 0
