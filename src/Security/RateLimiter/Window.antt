-- ===== src/Security/RateLimiter/Window.antt =====
-- Histories in order, and what pruning and cleaning leave of them.
use mathlib.Core.Bool.{cond}
use enterprise_multi_agent_o.Base.{
  ℕ, ◌≤◌, String, ◌≡◌, refl, ◌⊎◌, Bool, true, false, none, some, List, [], ◌∷◌, ◌++◌, ◌==◌,
  if◌then◌else◌, string_eq, contains, arith,
}
use enterprise_multi_agent_o.Base.Dict.{keys, lookup, erase, lookup-erase}
use enterprise_multi_agent_o.Base.Lists.{select, All, All-snoc}
use enterprise_multi_agent_o.Security.RateLimiter.{
  Store, history, is_stale, drop_keys, clean_up, in_window, put_last,
}

-- Each time is at most those after it.
abbrev pub IsSorted : List ℕ → Type 0
IsSorted [] = Unit
IsSorted (t ∷ ts) = All (λ u. t ≤ u) ts × IsSorted ts

pub select-All : (P : ℕ → Type 0) (p : ℕ → Bool) (ts : List ℕ) → All P ts → All P (select p ts)
select-All P p [] h = tt
select-All P p (t ∷ ts) (h, hs) =
    elim (p t) as (λ b. All P (cond b (t ∷ select p ts) (select p ts))) [
      | true ↦ (h, select-All P p ts hs)
      | false ↦ select-All P p ts hs
    ]

pub select-IsSorted : (p : ℕ → Bool) (ts : List ℕ) → IsSorted ts → IsSorted (select p ts)
select-IsSorted p [] h = tt
select-IsSorted p (t ∷ ts) (h, hs) =
    elim (p t) as (λ b. IsSorted (cond b (t ∷ select p ts) (select p ts))) [
      | true ↦ (select-All (λ u. t ≤ u) p ts h, select-IsSorted p ts hs)
      | false ↦ select-IsSorted p ts hs
    ]

pub append-IsSorted :
    (ts : List ℕ) (n : ℕ) → IsSorted ts → All (λ t. t ≤ n) ts → IsSorted (ts ++ (n ∷ []))
append-IsSorted [] n s b = (tt, tt)
append-IsSorted (t ∷ ts) n (h, hs) (b, bs) =
    (All-snoc (λ u. t ≤ u) ts n h b, append-IsSorted ts n hs bs)

-- Nothing of a stale history is in the window.
pub stale-select :
    (now window : ℕ) (ts : List ℕ)
    → IsSorted ts
    → is_stale now window ts ≡ true
    → select (in_window now window) ts ≡ []
unfolding is_stale
stale-select now window [] s h = refl
stale-select now window (t ∷ []) s h = ground arith
stale-select now window (t ∷ (u ∷ us)) (h, hs) e =
    ground (arith, stale-select now window (u ∷ us) hs e)

-- What two prunings leave, the later one leaves.
pub select-select :
    (now later window : ℕ) (ts : List ℕ)
    → now ≤ later
    → select (in_window later window) (select (in_window now window) ts)
      ≡ select (in_window later window) ts
select-select now later window [] h = refl
select-select now later window (t ∷ ts) h = ground (arith, select-select now later window ts h)

pub select-append :
    (p : ℕ → Bool) (ts us : List ℕ) → select p (ts ++ us) ≡ select p ts ++ select p us
select-append p [] us = refl
select-append p (t ∷ ts) us = ground (arith, select-append p ts us)

history-drop_keys :
    (k : String) (ks : List String) (store : Store)
    → history k (drop_keys ks store) ≡ (if contains ks k then [] else history k store)
unfolding history drop_keys
history-drop_keys k [] store = refl
history-drop_keys k (j ∷ ks) store =
    ground (arith, history-drop_keys k ks (erase j store), lookup-erase k j store)

contains-select :
    (p : String → Bool) (k : String) (ks : List String)
    → contains (select p ks) k ≡ true
    → p k ≡ true
contains-select p k [] h = absurd (ground arith)
contains-select p k (j ∷ ks) h = ground (arith, contains-select p k ks)

pub history-clean_up :
    (m now window : ℕ) (k : String) (store : Store)
    → (history k (clean_up m now window store) ≡ history k store)
      ⊎ ((history k (clean_up m now window store) ≡ [])
          × (is_stale now window (history k store) ≡ true))
unfolding clean_up
history-clean_up m now window k store = ground (
  arith,
  history-drop_keys k (select (λ j. is_stale now window (history j store)) (keys store)) store,
  contains-select (λ j. is_stale now window (history j store)) k (keys store),
)

-- Cleaning leaves the times in the window.
pub clean_up-select :
    (m now window : ℕ) (k : String) (store : Store)
    → IsSorted (history k store)
    → select (in_window now window) (history k (clean_up m now window store))
      ≡ select (in_window now window) (history k store)
clean_up-select m now window k store s =
    ground
      (arith, history-clean_up m now window k store, stale-select now window (history k store) s)

lookup-append :
    (j k : String) (v : List ℕ) (d : Store)
    → lookup j (d ++ ((k, v) ∷ []))
      ≡ elim (lookup j d) [ none ↦ if j == k then some v else none | some w ↦ some w ]
unfolding lookup
lookup-append j k v [] = ground arith
lookup-append j k v ((i, w) ∷ d) = ground (arith, lookup-append j k v d)

pub history-put_last :
    (j k : String) (ts : List ℕ) (store : Store)
    → history j (put_last k ts store) ≡ (if j == k then ts else history j store)
unfolding history put_last
history-put_last j k ts store =
    ground (arith, lookup-append j k ts (erase k store), lookup-erase j k store)
