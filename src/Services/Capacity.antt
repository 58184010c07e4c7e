-- ===== src/Services/Capacity.antt =====
-- services/orchestration_service.py: lists of queues within a limit, with no more than 100 events.
use enterprise_multi_agent_o.Base.{
  ℕ, suc, ◌≤◌, String, ◌≡◌, refl, Bool, true, false, Option, none, some, List, [], ◌∷◌, ◌==◌,
  if◌then◌else◌, string_eq, nat_eq, or_else, arith, subst, sym, ap,
}
use enterprise_multi_agent_o.Base.Lists.{All, length, drop, length-append, length-drop}
use enterprise_multi_agent_o.Base.Dict.{Dict, lookup, insert, erase, lookup-insert, lookup-erase}
use enterprise_multi_agent_o.Services.Events.{
  EventPayload, EventQueue, Channels, queue_full, offer, offer_all, remove_queue, get_item,
  put_queues,
}

abbrev pub IsSmall : EventQueue → Type 0
IsSmall q = length q.items ≤ 100

-- No more queues than the limit, none with more than 100 events.
abbrev pub AreBounded : ℕ → List EventQueue → Type 0
AreBounded limit qs = (length qs ≤ limit) × All IsSmall qs

abbrev pub Entry : ℕ → Option (List EventQueue) → Type 0
Entry limit none = Unit
Entry limit (some qs) = AreBounded limit qs

abbrev pub HasBounds : ℕ → Dict String (List EventQueue) → Type 0
HasBounds limit d = (r : String) → Entry limit (lookup r d)

-- Every run has no more queues than the limit, and no queue has more than 100 events.
abbrev pub IsBounded : ℕ → Channels → Type 0
IsBounded limit c = HasBounds limit c.event_queues

pub offer-IsSmall : (e : EventPayload) (q : EventQueue) → IsSmall q → IsSmall (offer e q)
unfolding offer queue_full
offer-IsSmall e q h = ground (
  arith,
  h,
  length-append (drop 1 q.items) (e ∷ []),
  length-append q.items (e ∷ []),
  length-drop 1 q.items,
)

pub offer_all-AreBounded :
    (limit : ℕ) (e : EventPayload) (qs : List EventQueue)
    → AreBounded limit qs
    → AreBounded limit (offer_all e qs)
unfolding offer_all
offer_all-AreBounded limit e qs h = (omega (arith, same qs, h.0), small qs h.1)
  where
    same : (qs : List EventQueue) → length (offer_all e qs) ≡ length qs
    same [] = refl
    same (q ∷ qs) = ap suc (same qs)

    small : (qs : List EventQueue) → All IsSmall qs → All IsSmall (offer_all e qs)
    small [] h = tt
    small (q ∷ qs) h = (offer-IsSmall e q h.0, small qs h.1)

pub remove_queue-AreBounded :
    (limit id : ℕ) (qs : List EventQueue)
    → AreBounded limit qs
    → AreBounded limit (remove_queue id qs)
unfolding remove_queue
remove_queue-AreBounded limit id qs h = (omega (arith, shorter qs, h.0), small qs h.1)
  where
    shorter : (qs : List EventQueue) → length (remove_queue id qs) ≤ length qs
    shorter [] = omega arith
    shorter (q ∷ qs) = ground (arith, shorter qs)

    small : (qs : List EventQueue) → All IsSmall qs → All IsSmall (remove_queue id qs)
    small [] h = tt
    small (q ∷ qs) h = ground (arith, small qs h.1, h)

pub get_item-AreBounded :
    (limit id : ℕ) (qs : List EventQueue)
    → AreBounded limit qs
    → AreBounded limit (get_item id qs).1
unfolding get_item
get_item-AreBounded limit id qs h = (omega (arith, same qs, h.0), small qs h.1)
  where
    same : (qs : List EventQueue) → length (get_item id qs).1 ≡ length qs
    same [] = refl
    same (q ∷ qs) = ground (arith, same qs)

    small : (qs : List EventQueue) → All IsSmall qs → All IsSmall (get_item id qs).1
    small [] h = tt
    small (q ∷ qs) h = ground (arith, small qs h.1, h)

pub insert-HasBounds :
    (limit : ℕ) (k : String) (qs : List EventQueue) (d : Dict String (List EventQueue))
    → AreBounded limit qs
    → HasBounds limit d
    → HasBounds limit (insert k qs d)
insert-HasBounds limit k qs d h b r =
    subst (Entry limit) (sym (lookup-insert r k qs d)) (either (r == k))
  where
    either : (same : Bool) → Entry limit (if same then some qs else lookup r d)
    either true = h
    either false = b r

pub erase-HasBounds :
    (limit : ℕ) (k : String) (d : Dict String (List EventQueue))
    → HasBounds limit d
    → HasBounds limit (erase k d)
erase-HasBounds limit k d b r = subst (Entry limit) (sym (lookup-erase r k d)) (either (r == k))
  where
    either : (same : Bool) → Entry limit (if same then none else lookup r d)
    either true = tt
    either false = b r

pub found-AreBounded :
    (limit : ℕ) (k : String) (qs : List EventQueue) (d : Dict String (List EventQueue))
    → HasBounds limit d
    → lookup k d ≡ some qs
    → AreBounded limit qs
found-AreBounded limit k qs d b e = subst (Entry limit) e (b k)

pub put_queues-HasBounds :
    (limit : ℕ) (k : String) (qs : List EventQueue) (d : Dict String (List EventQueue))
    → AreBounded limit qs
    → HasBounds limit d
    → HasBounds limit (put_queues k qs d)
unfolding put_queues
put_queues-HasBounds limit k [] d h b = erase-HasBounds limit k d b
put_queues-HasBounds limit k (q ∷ qs) d h b = insert-HasBounds limit k (q ∷ qs) d h b

pub if-IsBounded :
    (limit : ℕ) (b : Bool) (c d : Channels)
    → IsBounded limit c
    → IsBounded limit d
    → IsBounded limit (if b then c else d)
if-IsBounded limit true c d h k = h
if-IsBounded limit false c d h k = k

pub queues-IsSmall :
    (o : Option (List EventQueue)) (limit : ℕ) → Entry limit o → All IsSmall (or_else o [])
queues-IsSmall none limit h = tt
queues-IsSmall (some qs) limit h = h.1
