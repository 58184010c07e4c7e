-- ===== src/Planner/Kahn/Degrees.antt =====
-- What the two dicts of Kahn's algorithm hold after the loop over the tasks, and what `relax` does
-- to the degrees.
use enterprise_multi_agent_o.Base.{
  ℕ, ◌+◌, String, ◌≡◌, refl, List, [], ◌∷◌, ◌++◌, ◌==◌, if◌then◌else◌, string_eq, nat_eq, arith,
}
use enterprise_multi_agent_o.Base.Lists.{length, length-append}
use enterprise_multi_agent_o.Base.Dict.{lookup, insert, lookup-insert}
use enterprise_multi_agent_o.Base.Count.{count, count-append}
use enterprise_multi_agent_o.Planner.Kahn.{
  Graph, Degrees, degree, successors, node_ids, from_keys, add_edges, add_nodes, initial,
}

-- All that the nodes of id `x` depend on.
abbrev pub deps_of : String → Graph → List String
deps_of x [] = []
deps_of x ((i, ds) ∷ g) = if x == i then ds ++ deps_of x g else deps_of x g

pub degree-insert :
    (k : String) (v : ℕ) (d : Degrees) (y : String)
    → degree (insert k v d) y ≡ (if y == k then v else degree d y)
degree-insert k v d y = ground (arith, lookup-insert y k v d)

pub successors-insert :
    (k : String) (v : List String) (m : Graph) (y : String)
    → successors (insert k v m) y ≡ (if y == k then v else successors m y)
successors-insert k v m y = ground (arith, lookup-insert y k v m)

degree-from_keys :
    (d : Degrees) (xs : List String) (y : String) → degree d y ≡ 0 → degree (from_keys 0 d xs) y ≡ 0
unfolding from_keys
degree-from_keys d [] y h = h
degree-from_keys d (x ∷ xs) y h =
    degree-from_keys (insert x 0 d) xs y (ground (arith, degree-insert x 0 d y))

successors-from_keys :
    (m : Graph) (xs : List String) (y : String)
    → successors m y ≡ []
    → successors (from_keys [] m xs) y ≡ []
unfolding from_keys
successors-from_keys m [] y h = h
successors-from_keys m (x ∷ xs) y h =
    successors-from_keys (insert x [] m) xs y (ground (arith, successors-insert x [] m y))

degree-add_edges :
    (i : String) (deps : List String) (d : Degrees) (m : Graph) (y : String)
    → degree (add_edges i deps (d, m)).0 y ≡ degree d y + (if y == i then length deps else 0)
unfolding add_edges
degree-add_edges i [] d m y = ground arith
degree-add_edges i (dep ∷ deps) d m y =
    let v = degree d i + 1 in
    let w = successors m dep ++ i ∷ [] in
    ground (arith, degree-add_edges i deps (insert i v d) (insert dep w m) y, degree-insert i v d y)

count-add_edges :
    (i : String) (deps : List String) (d : Degrees) (m : Graph) (y n : String)
    → count y (successors (add_edges i deps (d, m)).1 n)
      ≡ count y (successors m n) + (if y == i then count n deps else 0)
unfolding add_edges
count-add_edges i [] d m y n = ground arith
count-add_edges i (dep ∷ deps) d m y n =
    let v = degree d i + 1 in
    let w = successors m dep ++ i ∷ [] in
    ground (
      arith,
      count-add_edges i deps (insert i v d) (insert dep w m) y n,
      successors-insert dep w m n,
      count-append y (successors m dep) (i ∷ []),
    )

degree-add_nodes :
    (g : Graph) (d : Degrees) (m : Graph) (y : String)
    → degree (add_nodes g (d, m)).0 y ≡ degree d y + length (deps_of y g)
unfolding add_nodes
degree-add_nodes [] d m y = omega arith
degree-add_nodes ((i, ds) ∷ g) d m y =
    let (d', m') = add_edges i ds (d, m) in
    ground (
      arith,
      degree-add_nodes g d' m' y,
      degree-add_edges i ds d m y,
      length-append ds (deps_of y g),
    )

count-add_nodes :
    (g : Graph) (d : Degrees) (m : Graph) (y n : String)
    → count y (successors (add_nodes g (d, m)).1 n)
      ≡ count y (successors m n) + count n (deps_of y g)
unfolding add_nodes
count-add_nodes [] d m y n = omega arith
count-add_nodes ((i, ds) ∷ g) d m y n =
    let (d', m') = add_edges i ds (d, m) in
    ground (
      arith,
      count-add_nodes g d' m' y n,
      count-add_edges i ds d m y n,
      count-append n ds (deps_of y g),
    )

-- The initial dicts: a node's degree is the number of its dependencies, and it stands among the
-- dependents of each as often as it names it.
module _ (g : Graph) where
  pub degree-initial : (y : String) → degree (initial g).0 y ≡ length (deps_of y g)
  unfolding lookup initial
  degree-initial y = omega (
    arith,
    degree-add_nodes g (from_keys 0 [] (node_ids g)) (from_keys [] [] (node_ids g)) y,
    degree-from_keys [] (node_ids g) y refl,
  )

  pub count-initial : (y n : String) → count y (successors (initial g).1 n) ≡ count n (deps_of y g)
  unfolding lookup initial
  count-initial y n = ground (
    arith,
    count-add_nodes g (from_keys 0 [] (node_ids g)) (from_keys [] [] (node_ids g)) y n,
    successors-from_keys [] (node_ids g) n refl,
  )
