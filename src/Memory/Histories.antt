-- ===== src/Memory/Histories.antt =====
-- The lists of checkpoints of memory/in_memory.py and of the abstract store.
use enterprise_multi_agent_o.Base.{
  String, ◌≡◌, ◌⊎◌, refl, Bool, true, false, not, Option, none, some, List, [], ◌∷◌, ◌++◌, ◌==◌,
  if◌then◌else◌, string_eq, contains, arith, ap, inl, inr, ==-cases, ==-self, or_else,
}
use enterprise_multi_agent_o.Base.Lists.{select, All}
use enterprise_multi_agent_o.Base.Dict.{Dict, lookup, erase, lookup-erase}
use enterprise_multi_agent_o.Core.Types.{truthy}
use enterprise_multi_agent_o.Memory.{Checkpoint, present, pop_all}
use enterprise_multi_agent_o.Memory.Spec.{of_run, find}

abbrev pub ids : List Checkpoint → List String
ids [] = []
ids (cp ∷ saved) = cp.checkpoint_id ∷ ids saved

-- What `_run_checkpoints` holds for a run.
abbrev pub listed : List Checkpoint → Option (List String)
listed [] = none
listed (cp ∷ saved) = some (cp.checkpoint_id ∷ ids saved)

abbrev pub AreDistinct : List Checkpoint → Type 0
AreDistinct [] = Unit
AreDistinct (cp ∷ saved) = (find cp.checkpoint_id saved ≡ none) × AreDistinct saved

abbrev pub of : String → List Checkpoint → List Checkpoint
of run_id saved = select (of_run run_id) saved

abbrev pub without : String → List Checkpoint → List Checkpoint
without run_id saved = select (λ cp. not (of_run run_id cp)) saved

pub listed-or_else : (saved : List Checkpoint) → or_else (listed saved) [] ≡ ids saved
listed-or_else [] = refl
listed-or_else (_ ∷ _) = refl

-- Saving.
pub find-snoc :
    (i : String) (cp : Checkpoint) (saved : List Checkpoint)
    → find cp.checkpoint_id saved ≡ none
    → find i (saved ++ cp ∷ []) ≡ (if i == cp.checkpoint_id then some cp else find i saved)
unfolding find
find-snoc i cp [] h = refl
find-snoc i cp (c ∷ saved) h = ground (
  arith,
  find-snoc i cp saved,
  ==-cases i cp.checkpoint_id,
  ==-cases i c.checkpoint_id,
  ==-cases cp.checkpoint_id c.checkpoint_id,
)

pub of-snoc :
    (r : String) (cp : Checkpoint) (saved : List Checkpoint)
    → of r (saved ++ cp ∷ []) ≡ (if r == cp.run_id then of r saved ++ cp ∷ [] else of r saved)
of-snoc r cp [] = refl
of-snoc r cp (c ∷ saved) = ground (arith, of-snoc r cp saved)

ids-snoc :
    (cp : Checkpoint) (saved : List Checkpoint)
    → ids (saved ++ cp ∷ []) ≡ ids saved ++ cp.checkpoint_id ∷ []
ids-snoc cp [] = refl
ids-snoc cp (c ∷ saved) = ap (λ l. c.checkpoint_id ∷ l) (ids-snoc cp saved)

pub listed-snoc :
    (cp : Checkpoint) (saved : List Checkpoint)
    → listed (saved ++ cp ∷ []) ≡ some (ids saved ++ cp.checkpoint_id ∷ [])
listed-snoc cp [] = refl
listed-snoc cp (c ∷ saved) = ap (λ l. some (c.checkpoint_id ∷ l)) (ids-snoc cp saved)

pub distinct-snoc :
    (cp : Checkpoint) (saved : List Checkpoint)
    → find cp.checkpoint_id saved ≡ none
    → AreDistinct saved
    → AreDistinct (saved ++ cp ∷ [])
unfolding find
distinct-snoc cp [] h d = (refl, tt)
distinct-snoc cp (c ∷ saved) h d = ground (
  arith,
  distinct-snoc cp saved,
  find-snoc c.checkpoint_id cp saved,
  ==-cases cp.checkpoint_id c.checkpoint_id,
  ==-cases c.checkpoint_id cp.checkpoint_id,
)

-- Deleting.
contains-find :
    (r i : String) (saved : List Checkpoint)
    → find i saved ≡ none
    → contains (ids (of r saved)) i ≡ false
unfolding find
contains-find r i [] h = refl
contains-find r i (c ∷ saved) h = ground (arith, contains-find r i saved)

pub find-without :
    (r i : String) (saved : List Checkpoint)
    → AreDistinct saved
    → find i (without r saved) ≡ (if contains (ids (of r saved)) i then none else find i saved)
unfolding find
find-without r i [] d = refl
find-without r i (c ∷ saved) d =
    ground (arith, find-without r i saved d.1, contains-find r i saved, ==-cases i c.checkpoint_id)

pub of-without :
    (q r : String) (saved : List Checkpoint)
    → of q (without r saved) ≡ (if q == r then [] else of q saved)
of-without q r [] = ground arith
of-without q r (c ∷ saved) =
    ground (arith, of-without q r saved, ==-cases q c.run_id, ==-cases r c.run_id, ==-cases q r)

find-select :
    (p : Checkpoint → Bool) (i : String) (saved : List Checkpoint)
    → find i saved ≡ none
    → find i (select p saved) ≡ none
unfolding find
find-select p i [] h = refl
find-select p i (c ∷ saved) h = ground (arith, find-select p i saved)

pub distinct-select :
    (p : Checkpoint → Bool) (saved : List Checkpoint)
    → AreDistinct saved
    → AreDistinct (select p saved)
distinct-select p [] d = tt
distinct-select p (c ∷ saved) d =
    ground (arith, distinct-select p saved d.1, find-select p c.checkpoint_id saved d.0)

pub lookup-pop_all :
    (i : String) (cp_ids : List String) (d : Dict String Checkpoint)
    → lookup i (pop_all cp_ids d) ≡ (if contains cp_ids i then none else lookup i d)
unfolding pop_all
lookup-pop_all i [] d = refl
lookup-pop_all i (c ∷ cp_ids) d =
    ground (arith, lookup-pop_all i cp_ids (erase c d), lookup-erase i c d)

-- Listing.
pub present-ids :
    (d : Dict String Checkpoint) (saved : List Checkpoint)
    → All (λ cp. lookup cp.checkpoint_id d ≡ some cp) saved
    → present (ids saved) d ≡ saved
unfolding present
present-ids d [] h = refl
present-ids d (c ∷ saved) h = ground (arith, present-ids d saved h.1, h.0)

pub All-select :
    (P : Checkpoint → Type 0) (p : Checkpoint → Bool) (saved : List Checkpoint)
    → All P saved
    → All P (select p saved)
All-select P p [] h = tt
All-select P p (c ∷ saved) h =
    elim (p c) as (λ b. All P (if b then c ∷ select p saved else select p saved)) [
      | true ↦ (h.0, All-select P p saved h.1)
      | false ↦ All-select P p saved h.1
    ]

find-later :
    (c : Checkpoint) (saved : List Checkpoint) (i : String) (cp : Checkpoint)
    → find c.checkpoint_id saved ≡ none
    → find i saved ≡ some cp
    → find i (c ∷ saved) ≡ some cp
unfolding find
find-later c saved i cp n e = ground (arith, ==-cases i c.checkpoint_id)

find-first : (c : Checkpoint) (saved : List Checkpoint) → find c.checkpoint_id (c ∷ saved) ≡ some c
unfolding find
find-first c saved = ground (arith, ==-self c.checkpoint_id)

pub found-All :
    (d : Dict String Checkpoint) (saved : List Checkpoint)
    → AreDistinct saved
    → ((i : String) (cp : Checkpoint) → find i saved ≡ some cp → lookup i d ≡ some cp)
    → All (λ cp. lookup cp.checkpoint_id d ≡ some cp) saved
found-All d [] n h = tt
found-All d (c ∷ saved) n h = (
  h c.checkpoint_id c (find-first c saved),
  found-All d saved n.1 (λ i cp e. h i cp (find-later c saved i cp n.0 e)),
)

pub listed-cases :
    (saved : List Checkpoint)
    → (saved ≡ []) × (listed saved ≡ none)
      ⊎ (truthy saved ≡ true) × (listed saved ≡ some (ids saved))
listed-cases [] = inl (refl, refl)
listed-cases (_ ∷ _) = inr (refl, refl)
