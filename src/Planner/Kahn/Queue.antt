-- ===== src/Planner/Kahn/Queue.antt =====
-- Which ids stand in the queue of Kahn's algorithm: the first ones, and those that `relax` adds.
use enterprise_multi_agent_o.Base.{
  ℕ, ◌+◌, ◌-◌, String, ◌≡◌, refl, ◌∙◌, true, false, List, [], ◌∷◌, ◌++◌, ◌==◌, ◌&&◌, ◌||◌, contains,
  if◌then◌else◌, string_eq, nat_eq, arith, ltb, leb,
}
use enterprise_multi_agent_o.Base.Lists.{length}
use enterprise_multi_agent_o.Base.Dict.{lookup, insert, keys}
use enterprise_multi_agent_o.Base.Count.{count, count-append}
use enterprise_multi_agent_o.Planner.Kahn.{
  Graph, Degrees, degree, successors, node_ids, from_keys, add_edges, add_nodes, initial, zero_keys,
  relax,
}
use enterprise_multi_agent_o.Planner.Kahn.Degrees.{deps_of, degree-insert, degree-initial}

-- The keys of the dict of degrees.
abbrev pub DistinctKeys : Degrees → Type 0
DistinctKeys [] = Unit
DistinctKeys ((k, _) ∷ d) = (contains (keys d) k ≡ false) × DistinctKeys d

contains-keys-insert :
    (k : String) (v : ℕ) (d : Degrees) (y : String)
    → contains (keys (insert k v d)) y ≡ (y == k || contains (keys d) y)
unfolding insert
contains-keys-insert k v [] y = refl
contains-keys-insert k v ((j, w) ∷ d) y = ground (arith, contains-keys-insert k v d y)

insert-DistinctKeys :
    (k : String) (v : ℕ) (d : Degrees) → DistinctKeys d → DistinctKeys (insert k v d)
unfolding insert
insert-DistinctKeys k v [] h = (refl, tt)
insert-DistinctKeys k v ((j, w) ∷ d) h =
    ground (arith, insert-DistinctKeys k v d h.1, contains-keys-insert k v d j)

from_keys-DistinctKeys :
    (d : Degrees) (xs : List String) → DistinctKeys d → DistinctKeys (from_keys 0 d xs)
unfolding from_keys
from_keys-DistinctKeys d [] h = h
from_keys-DistinctKeys d (x ∷ xs) h =
    from_keys-DistinctKeys (insert x 0 d) xs (insert-DistinctKeys x 0 d h)

contains-keys-from_keys :
    (d : Degrees) (xs : List String) (y : String)
    → contains (keys (from_keys 0 d xs)) y ≡ (contains xs y || contains (keys d) y)
unfolding from_keys
contains-keys-from_keys d [] y = refl
contains-keys-from_keys d (x ∷ xs) y =
    ground (arith, contains-keys-from_keys (insert x 0 d) xs y, contains-keys-insert x 0 d y)

-- Each id without dependencies stands in the first queue, once.
count-zero_keys :
    (d : Degrees) (x : String)
    → DistinctKeys d
    → count x (zero_keys d) ≡ (if contains (keys d) x && degree d x == 0 then 1 else 0)
unfolding zero_keys lookup
count-zero_keys [] x h = refl
count-zero_keys ((k, n) ∷ d) x h = ground (arith, count-zero_keys d x h.1)

keys-add_edges :
    (i : String) (deps : List String) (d : Degrees) (m : Graph) (y : String)
    → contains (keys d) i ≡ true
    → contains (keys (add_edges i deps (d, m)).0) y ≡ contains (keys d) y
unfolding add_edges
keys-add_edges i [] d m y h = refl
keys-add_edges i (dep ∷ deps) d m y h =
    let v = degree d i + 1 in
    ground (
      arith,
      keys-add_edges i deps (insert i v d) (insert dep (successors m dep ++ i ∷ []) m) y,
      contains-keys-insert i v d y,
      contains-keys-insert i v d i,
    )

keys-add_nodes :
    (g : Graph) (d : Degrees) (m : Graph) (y : String)
    → ((z : String) → contains (node_ids g) z ≡ true → contains (keys d) z ≡ true)
    → contains (keys (add_nodes g (d, m)).0) y ≡ contains (keys d) y
unfolding add_nodes
keys-add_nodes [] d m y h = refl
keys-add_nodes ((i, ds) ∷ g) d m y h =
    let (d', m') = add_edges i ds (d, m) in
    let has : contains (keys d) i ≡ true = ground (arith, h i) in
    keys-add_nodes g d' m' y (λ z k. ground (arith, keys-add_edges i ds d m z has, h z))
    ∙ keys-add_edges i ds d m y has

add_edges-DistinctKeys :
    (i : String) (deps : List String) (d : Degrees) (m : Graph)
    → DistinctKeys d
    → DistinctKeys (add_edges i deps (d, m)).0
unfolding add_edges
add_edges-DistinctKeys i [] d m h = h
add_edges-DistinctKeys i (dep ∷ deps) d m h =
    add_edges-DistinctKeys i deps _ _ (insert-DistinctKeys i (degree d i + 1) d h)

add_nodes-DistinctKeys :
    (g : Graph) (d : Degrees) (m : Graph) → DistinctKeys d → DistinctKeys (add_nodes g (d, m)).0
unfolding add_nodes
add_nodes-DistinctKeys [] d m h = h
add_nodes-DistinctKeys ((i, ds) ∷ g) d m h =
    add_nodes-DistinctKeys g _ _ (add_edges-DistinctKeys i ds d m h)

pub count-first_queue :
    (g : Graph) (x : String)
    → count x (zero_keys (initial g).0)
      ≡ (if contains (node_ids g) x && length (deps_of x g) == 0 then 1 else 0)
unfolding initial
count-first_queue g x =
    let ids = node_ids g in
    let d : Degrees = from_keys 0 [] ids in
    let m : Graph = from_keys [] [] ids in
    let known : (z : String) → contains ids z ≡ true → contains (keys d) z ≡ true =
      λ z h. ground (arith, contains-keys-from_keys [] ids z) in
    ground (
      arith,
      count-zero_keys (add_nodes g (d, m)).0 x
          (add_nodes-DistinctKeys g d m (from_keys-DistinctKeys [] ids tt)),
      keys-add_nodes g d m x known,
      contains-keys-from_keys [] ids x,
      degree-initial g x,
    )

pub degree-relax :
    (xs : List String) (d : Degrees) (queue : List String) (y : String)
    → degree (relax xs (d, queue)).0 y ≡ degree d y - count y xs
unfolding relax
degree-relax [] d queue y = omega arith
degree-relax (x ∷ xs) d queue y = ground (
  arith,
  degree-relax xs (insert x (degree d x - 1) d) (if degree d x == 1 then queue ++ x ∷ [] else queue)
      y,
  degree-insert x (degree d x - 1) d y,
)

pub count-relax :
    (xs : List String) (d : Degrees) (queue : List String) (y : String)
    → count y (relax xs (d, queue)).1
      ≡ count y queue + (if ltb 0 (degree d y) && leb (degree d y) (count y xs) then 1 else 0)
unfolding relax
count-relax [] d queue y = ground arith
count-relax (x ∷ xs) d queue y = ground (
  arith,
  count-relax xs (insert x (degree d x - 1) d) (if degree d x == 1 then queue ++ x ∷ [] else queue)
      y,
  degree-insert x (degree d x - 1) d y,
  count-append y queue (x ∷ []),
)
