-- ===== src/Services/Delivery.antt =====
-- services/orchestration_service.py, `_publish_event`: what reaches the subscribers.
use enterprise_multi_agent_o.Base.{
  ℕ, String, ◌≡◌, refl, ◌⊎◌, inl, inr, true, some, List, [], ◌∷◌, ◌++◌, string_eq, nat_eq, arith,
  ==-cases, ==-self, Bool-cases, ap, ◌∙◌,
}
use enterprise_multi_agent_o.Base.Lists.{All, drop, last?}
use enterprise_multi_agent_o.Base.Dict.{lookup, lookup-insert}
use enterprise_multi_agent_o.Services.Events.{
  EventPayload, EventQueue, Channels, is_critical, queue_full, offer, offer_all, publish_event,
}

last-snoc : {A : Type 0} (xs : List A) (x : A) → last? (xs ++ x ∷ []) ≡ some x
last-snoc [] x = refl
last-snoc (y ∷ []) x = refl
last-snoc (y ∷ z ∷ xs) x = last-snoc (z ∷ xs) x

abbrev pub queue_ids : List EventQueue → List ℕ
queue_ids [] = []
queue_ids (q ∷ qs) = q.id ∷ queue_ids qs

offer-last :
    (e : EventPayload) (q : EventQueue)
    → is_critical e.event ≡ true
    → (last? (offer e q).items ≡ some e) × ((offer e q).id ≡ q.id)
unfolding offer
offer-last e q h =
    ground (arith, h, Bool-cases (queue_full q), last-snoc (drop 1 q.items) e, last-snoc q.items e)

offer_all-last :
    (e : EventPayload) (qs : List EventQueue)
    → is_critical e.event ≡ true
    → All (λ q. last? q.items ≡ some e) (offer_all e qs)
      × (queue_ids (offer_all e qs) ≡ queue_ids qs)
unfolding offer_all
offer_all-last e [] h = (tt, refl)
offer_all-last e (q ∷ qs) h =
    let (one, same) = offer-last e q h in
    let (rest, ids) = offer_all-last e qs h in
    ((one, rest), ap (λ i. i ∷ queue_ids (offer_all e qs)) same ∙ ap (λ l. q.id ∷ l) ids)

-- A critical event that is published for a run with subscribers is the last item of each of their
-- queues, full or not, which stay the same queues in the same order, and the queues of every other
-- run are as they were.
pub publish_event-critical :
    (run_id event_type : String) (c : Channels) (qs : List EventQueue)
    → lookup run_id c.event_queues ≡ some qs
    → is_critical event_type ≡ true
    → let after = publish_event run_id event_type c in
      ((qs' : List EventQueue) × (lookup run_id after.event_queues ≡ some qs')
        × (queue_ids qs' ≡ queue_ids qs)
        × All (λ q. last? q.items ≡ some (record { event = event_type; run_id = run_id })) qs')
      × ((r : String) → (r ≡ run_id) ⊎ (lookup r after.event_queues ≡ lookup r c.event_queues))
unfolding publish_event
publish_event-critical run_id event_type c qs found h =
    let e : EventPayload = record { event = event_type; run_id = run_id } in
    let (last, same) = offer_all-last e qs h in
    (
      (
        offer_all e qs,
        ground (
          arith,
          found,
          lookup-insert run_id run_id (offer_all e qs) c.event_queues,
          ==-self run_id,
        ),
        same,
        last,
      ),
      λ r. elim (==-cases r run_id) [
        | inl (_, p) ↦ inl p
        | inr (differ, _) ↦
            inr (
              ground (arith, found, differ, lookup-insert r run_id (offer_all e qs) c.event_queues))
      ],
    )
