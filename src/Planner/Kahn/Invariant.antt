-- ===== src/Planner/Kahn/Invariant.antt =====
-- The loop of Kahn's algorithm in agents/planner.py: its invariant and its result.
use enterprise_multi_agent_o.Base.{
  ℕ, zero, suc, ◌+◌, ◌≤◌, String, ◌≡◌, refl, inl, inr, true, false, List, [], ◌∷◌, ◌++◌, ◌==◌, ◌&&◌,
  contains, if◌then◌else◌, string_eq, nat_eq, arith, Bool-cases, ==-self, subst,
}
use enterprise_multi_agent_o.Base.Lists.{length, length-append}
use enterprise_multi_agent_o.Base.Count.{
  count, count-append, length-le_of_count, count-le_of_length, contains-of_count, count-of_contains,
}
use enterprise_multi_agent_o.Planner.Kahn.{
  Graph, Degrees, degree, successors, node_ids, initial, zero_keys, relax, drain, visited_count,
}
use enterprise_multi_agent_o.Planner.Kahn.Degrees.{deps_of, degree-initial, count-initial}
use enterprise_multi_agent_o.Planner.Kahn.Queue.{count-first_queue, degree-relax, count-relax}

-- How many of the entries are not yet visited.
abbrev open_deps : List String → List String → ℕ
open_deps visited [] = 0
open_deps visited (d ∷ ds) = (if contains visited d then 0 else 1) + open_deps visited ds

open_deps-nil : (ds : List String) → open_deps [] ds ≡ length ds
open_deps-nil [] = refl
open_deps-nil (d ∷ ds) = omega (arith, open_deps-nil ds)

open_deps-visit :
    (x : String) (visited ds : List String)
    → contains visited x ≡ false
    → open_deps (x ∷ visited) ds + count x ds ≡ open_deps visited ds
open_deps-visit x visited [] h = refl
open_deps-visit x visited (d ∷ ds) h = ground (arith, open_deps-visit x visited ds h)

-- `x` is a node, and so is all that it depends on, down to nodes without dependencies: no chain of
-- dependencies from `x` runs into a cycle or leaves the graph.
pub data Grounded (g : Graph) : String → Type 0 where
  ground_node :
      (x : String)
      → contains (node_ids g) x ≡ true
      → ((d : String) → contains (deps_of x g) d ≡ true → Grounded g d)
      → Grounded g x

deps_of-absent : (x : String) (g : Graph) → contains (node_ids g) x ≡ false → deps_of x g ≡ []
deps_of-absent x [] h = refl
deps_of-absent x ((i, ds) ∷ g) h = ground (arith, deps_of-absent x g)

module _ (g : Graph) where
  -- Visited or queued are, once each, the nodes that have no open dependency.
  record Inv (visited queue : List String) (d : Degrees) : Type 0 where
    degrees : (x : String) → degree d x ≡ open_deps visited (deps_of x g)
    ready :
        (x : String)
        → count x visited + count x queue
          ≡ (if contains (node_ids g) x && open_deps visited (deps_of x g) == 0 then 1 else 0)
    grounded : (x : String) → contains visited x ≡ true → Grounded g x

  Inv-first : Inv [] (zero_keys (initial g).0) (initial g).0
  Inv-first = record {
    degrees = λ x. ground (arith, degree-initial g x, open_deps-nil (deps_of x g));
    ready = λ x. ground (arith, count-first_queue g x, open_deps-nil (deps_of x g));
    grounded = λ x h. cc;
  }

  contains-of_open :
      (visited ds : List String) (d : String)
      → open_deps visited ds ≡ 0
      → contains ds d ≡ true
      → contains visited d ≡ true
  contains-of_open visited [] d h c = cc
  contains-of_open visited (y ∷ ds) d h c = ground (arith, contains-of_open visited ds d)

  module _ {visited : List String} {x : String} {queue : List String} {d : Degrees}
      (inv : Inv visited (x ∷ queue) d) where
    new_node : contains visited x ≡ false
    new_node = ground (arith, inv.ready x, count-of_contains x visited)

    is_node : contains (node_ids g) x ≡ true
    is_node = ground (arith, inv.ready x)

    no_open : open_deps visited (deps_of x g) ≡ 0
    no_open = ground (arith, inv.ready x)

    abbrev relaxed : Degrees × List String
    relaxed = relax (successors (initial g).1 x) (d, queue)

    ready-step :
        (y : String)
        → count y (x ∷ visited) + count y relaxed.1
          ≡ (if contains (node_ids g) y && open_deps (x ∷ visited) (deps_of y g) == 0 then 1 else 0)
    ready-step y = elim (Bool-cases (contains (node_ids g) y)) [
      | inl node ↦ ground (
        arith,
        node,
        inv.ready y,
        inv.degrees y,
        count-relax (successors (initial g).1 x) d queue y,
        count-initial g y x,
        open_deps-visit x visited (deps_of y g) new_node,
      )
      | inr other ↦ ground (
        arith,
        other,
        inv.ready y,
        inv.degrees y,
        count-relax (successors (initial g).1 x) d queue y,
        open_deps-visit x visited (deps_of y g) new_node,
        deps_of-absent y g other,
      )
    ]

    Inv-step : Inv (x ∷ visited) relaxed.1 relaxed.0
    Inv-step = record {
      degrees = λ y. ground (
        arith,
        inv.degrees y,
        degree-relax (successors (initial g).1 x) d queue y,
        count-initial g y x,
        open_deps-visit x visited (deps_of y g) new_node,
      );
      ready = ready-step;
      grounded = λ y h. elim (Bool-cases (contains visited y)) [
        | inl old ↦ inv.grounded y old
        | inr new ↦ subst (Grounded g) (ground (arith, h, new)) (
            ground_node x is_node
              (λ dep c. inv.grounded dep (contains-of_open visited (deps_of x g) dep no_open c)))
      ];
    }

  -- Each node is visited or queued at most once, so there are no more of them than nodes.
  Inv-bound :
      {visited queue : List String} {d : Degrees}
      → Inv visited queue d
      → length visited + length queue ≤ length (node_ids g)
  Inv-bound {visited} {queue} inv = omega (
    arith,
    length-append visited queue,
    length-le_of_count (visited ++ queue) (node_ids g) (λ y.
        ground
          (arith, inv.ready y, count-append y visited queue, count-of_contains y (node_ids g))),
  )

  -- With a round of fuel for each node that is left, the loop ends with an empty queue.
  drain-Inv :
      (fuel : ℕ) (visited queue : List String) (d : Degrees)
      → Inv visited queue d
      → length (node_ids g) ≤ fuel + length visited
      → (seen : List String) × (last : Degrees) × Inv seen [] last
        × (drain fuel (initial g).1 d queue (length visited) ≡ length seen)
  unfolding drain
  drain-Inv zero visited [] d inv h = (visited, d, inv, refl)
  drain-Inv zero visited (x ∷ queue) d inv h = absurd (omega (arith, Inv-bound inv))
  drain-Inv (suc fuel) visited [] d inv h = (visited, d, inv, refl)
  drain-Inv (suc fuel) visited (x ∷ queue) d inv h =
      let (d', queue') = relax (successors (initial g).1 x) (d, queue) in
      let (seen, last, done, e) =
        drain-Inv fuel (x ∷ visited) queue' d' (Inv-step inv) (omega arith) in
      (seen, last, done, ground (arith, e))

  visited_count-Inv :
      (seen : List String) × (last : Degrees) × Inv seen [] last × (visited_count g ≡ length seen)
  unfolding visited_count
  visited_count-Inv =
      drain-Inv (length (node_ids g)) [] (zero_keys (initial g).0) (initial g).0 Inv-first
        (omega arith)

  -- If as many nodes are visited as there are, no dependency chain is endless.
  pub visited_count-Grounded :
      visited_count g ≡ length (node_ids g)
      → (x : String) → contains (node_ids g) x ≡ true
      → Grounded g x
  visited_count-Grounded all x node =
      let (seen, last, inv, e) = visited_count-Inv in
      let within : (y : String) → count y seen ≤ count y (node_ids g) =
        λ y. ground (arith, inv.ready y, count-of_contains y (node_ids g)) in
      inv.grounded x (
        contains-of_count x seen (
          omega (
            arith,
            count-le_of_length seen (node_ids g) within (omega arith) x,
            count-of_contains x (node_ids g) node,
          )))

  Grounded-seen :
      {seen : List String} {last : Degrees}
      → Inv seen [] last
      → (x : String) → Grounded g x
      → contains seen x ≡ true
  Grounded-seen {seen} inv x (ground_node _ node deps) = contains-of_count x seen (
      ground
        (arith, node, inv.ready x, closed (deps_of x g) (λ d c. Grounded-seen inv d (deps d c))))
    where
      closed :
          (ds : List String)
          → ((d : String) → contains ds d ≡ true → contains seen d ≡ true)
          → open_deps seen ds ≡ 0
      closed [] h = refl
      closed (d ∷ ds) h = ground (arith, h d, ==-self d, closed ds (λ z c. h z (ground (arith, c))))

  -- If the ids are distinct and no dependency chain is endless, every node is visited.
  pub Grounded-visited_count :
      ((x : String) → count x (node_ids g) ≤ 1)
      → ((x : String) → contains (node_ids g) x ≡ true → Grounded g x)
      → visited_count g ≡ length (node_ids g)
  Grounded-visited_count distinct all =
      let (seen, last, inv, e) = visited_count-Inv in
      let reached : (y : String) → count y (node_ids g) ≤ count y seen = λ y. ground (
        arith,
        distinct y,
        contains-of_count y (node_ids g),
        λ (c : contains (node_ids g) y ≡ true).
            count-of_contains y seen (Grounded-seen inv y (all y c)),
      ) in
      omega (arith, length-le_of_count (node_ids g) seen reached, Inv-bound inv, e)
