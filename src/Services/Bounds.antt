-- ===== src/Services/Bounds.antt =====
-- services/orchestration_service.py: how much the channels hold.
use enterprise_multi_agent_o.Base.{
  ℕ, String, ◌≡◌, refl, inl, inr, Option, none, some, List, [], ◌∷◌, ◌++◌, ◌==◌, leb, string_eq,
  nat_eq, arith, Bool-cases, Option-cases, subst,
}
use enterprise_multi_agent_o.Base.Lists.{All-snoc, length, any, length-append}
use enterprise_multi_agent_o.Base.Dict.{lookup, insert}
use enterprise_multi_agent_o.Core.State.{OrchestrationState, is_terminal}
use enterprise_multi_agent_o.Services.Events.{
  EventQueue, Channels, offer_all, publish_event, subscribe, remove_queue, unsubscribe, get_item,
  receive, time_out, close_if_over, is_last_event, put_queues, queues_of,
}
use enterprise_multi_agent_o.Services.Capacity.{
  IsSmall, HasBounds, IsBounded, offer_all-AreBounded, remove_queue-AreBounded, get_item-AreBounded,
  insert-HasBounds, found-AreBounded, put_queues-HasBounds, queues-IsSmall, if-IsBounded,
}

-- What publishers, subscribers and the event loop do to the channels.
pub data Action : Type 0 where
  publishing : (run_id event_type : String) → Action
  subscribing : (run_id : String) → Option OrchestrationState → Action
  receiving : (run_id : String) (id : ℕ) → Action
  timing_out : (run_id : String) (id : ℕ) → Option OrchestrationState → Action
  closing : (run_id : String) (id : ℕ) → OrchestrationState → Action
  leaving : (run_id : String) (id : ℕ) → Action

module _ (show : ℕ → String) (max_subscribers : ℕ) where
  unfoldable pub act : Action → Channels → Channels
  unfolding publish_event subscribe receive time_out close_if_over unsubscribe
  act (publishing run_id event_type) c = publish_event run_id event_type c
  act (subscribing run_id state) c = (subscribe show max_subscribers run_id state c).1
  act (receiving run_id id) c = (receive run_id id c).1
  act (timing_out run_id id state) c = time_out run_id id state c
  act (closing run_id id state) c = (close_if_over run_id id state c).1
  act (leaving run_id id) c = unsubscribe run_id id c

  unfoldable pub act_all : List Action → Channels → Channels
  unfolding act
  act_all [] c = c
  act_all (a ∷ actions) c = act_all actions (act a c)

module _ (limit : ℕ) where
  publish_event-IsBounded :
      (run_id event_type : String) (c : Channels)
      → IsBounded limit c
      → IsBounded limit (publish_event run_id event_type c)
  unfolding publish_event
  publish_event-IsBounded run_id event_type c b =
      elim (lookup run_id c.event_queues)
          as (λ o.
            lookup run_id c.event_queues ≡ o
            → IsBounded limit (elim o [
              | none ↦ c
              | some qs ↦ record c {
                event_queues =
                    insert run_id (offer_all (record { event = event_type; run_id = run_id }) qs)
                      c.event_queues;
              }
            ])) [
              | none ↦ λ e. b
              | some qs ↦ λ e.
                  insert-HasBounds limit run_id _ c.event_queues
                    (offer_all-AreBounded limit _ qs
                      (found-AreBounded limit run_id qs c.event_queues b e))
                    b
            ]
        refl

  unsubscribe-IsBounded :
      (run_id : String) (id : ℕ) (c : Channels)
      → IsBounded limit c
      → IsBounded limit (unsubscribe run_id id c)
  unfolding unsubscribe
  unsubscribe-IsBounded run_id id c b = elim (Option-cases (lookup run_id c.event_queues)) [
    | inl nothing ↦
        let e : c ≡ unsubscribe run_id id c = ground (arith, nothing) in subst (IsBounded limit) e b
    | inr (qs, found) ↦ elim (Bool-cases (any (λ q. q.id == id) qs)) [
      | inr absent ↦
          let e : c ≡ unsubscribe run_id id c = ground (arith, found, absent) in
          subst (IsBounded limit) e b
      | inl present ↦
          let d = put_queues run_id (remove_queue id qs) c.event_queues in
          let e : d ≡ (unsubscribe run_id id c).event_queues = ground (arith, found, present) in
          subst (HasBounds limit) e (
            put_queues-HasBounds limit run_id (remove_queue id qs) c.event_queues
              (remove_queue-AreBounded limit id qs
                (found-AreBounded limit run_id qs c.event_queues b found))
              b)
    ]
  ]

  receive-IsBounded :
      (run_id : String) (id : ℕ) (c : Channels)
      → IsBounded limit c
      → IsBounded limit (receive run_id id c).1
  unfolding receive
  receive-IsBounded run_id id c b = elim (Option-cases (lookup run_id c.event_queues)) [
    | inl nothing ↦
        let e : c ≡ (receive run_id id c).1 = ground (arith, nothing) in subst (IsBounded limit) e b
    | inr (qs, found) ↦
        let rest = (get_item id qs).1 in
        let after : Channels = record c { event_queues = insert run_id rest c.event_queues } in
        let kept : IsBounded limit after =
          insert-HasBounds limit run_id rest c.event_queues
            (get_item-AreBounded limit id qs
              (found-AreBounded limit run_id qs c.event_queues b found))
            b in
        elim (Option-cases (get_item id qs).0) [
          | inl empty ↦
              let e : c ≡ (receive run_id id c).1 = ground (arith, found, empty) in
              subst (IsBounded limit) e b
          | inr (item, got) ↦ elim (Bool-cases (is_last_event item.event)) [
            | inl final ↦
                let e : unsubscribe run_id id after ≡ (receive run_id id c).1 =
                  ground (arith, found, got, final) in
                subst (IsBounded limit) e (unsubscribe-IsBounded run_id id after kept)
            | inr going ↦
                let e : after ≡ (receive run_id id c).1 = ground (arith, found, got, going) in
                subst (IsBounded limit) e kept
          ]
        ]
  ]

  subscribe-IsBounded :
      (show : ℕ → String) (run_id : String) (state : Option OrchestrationState) (c : Channels)
      → IsBounded limit c
      → IsBounded limit (subscribe show limit run_id state c).1
  unfolding subscribe queues_of
  subscribe-IsBounded show run_id none c b = b
  subscribe-IsBounded show run_id (some state) c b =
      let qs = queues_of run_id c in
      let added : EventQueue = record { id = c.next_id; items = [] } in
      elim (Bool-cases (leb limit (length qs))) [
        | inl many ↦
            let e : c ≡ (subscribe show limit run_id (some state) c).1 = ground (arith, many) in
            subst (IsBounded limit) e b
        | inr room ↦
            let e : insert run_id (qs ++ added ∷ []) c.event_queues
                ≡ (subscribe show limit run_id (some state) c).1.event_queues =
              ground (arith, room) in
            subst (HasBounds limit) e (
              insert-HasBounds limit run_id (qs ++ added ∷ []) c.event_queues
                (
                  ground (arith, room, length-append qs (added ∷ [])),
                  All-snoc IsSmall qs added
                      (queues-IsSmall (lookup run_id c.event_queues) limit (b run_id))
                      (omega arith),
                )
                b)
      ]

  time_out-IsBounded :
      (run_id : String) (id : ℕ) (state : Option OrchestrationState) (c : Channels)
      → IsBounded limit c
      → IsBounded limit (time_out run_id id state c)
  unfolding time_out
  time_out-IsBounded run_id id none c b = b
  time_out-IsBounded run_id id (some state) c b =
      if-IsBounded limit (is_terminal state.metadata.status) (unsubscribe run_id id c) c
        (unsubscribe-IsBounded run_id id c b) b

  close_if_over-IsBounded :
      (run_id : String) (id : ℕ) (state : OrchestrationState) (c : Channels)
      → IsBounded limit c
      → IsBounded limit (close_if_over run_id id state c).1
  unfolding close_if_over
  close_if_over-IsBounded run_id id state c b =
      elim (Bool-cases (is_terminal state.metadata.status)) [
        | inl over ↦
            let e : unsubscribe run_id id c ≡ (close_if_over run_id id state c).1 =
              ground (arith, over) in
            subst (IsBounded limit) e (unsubscribe-IsBounded run_id id c b)
        | inr live ↦
            let e : c ≡ (close_if_over run_id id state c).1 = ground (arith, live) in
            subst (IsBounded limit) e b
      ]

  act-IsBounded :
      (show : ℕ → String) (a : Action) (c : Channels)
      → IsBounded limit c
      → IsBounded limit (act show limit a c)
  unfolding act
  act-IsBounded show (publishing r t) c b = publish_event-IsBounded r t c b
  act-IsBounded show (subscribing r s) c b = subscribe-IsBounded show r s c b
  act-IsBounded show (receiving r i) c b = receive-IsBounded r i c b
  act-IsBounded show (timing_out r i s) c b = time_out-IsBounded r i s c b
  act-IsBounded show (closing r i s) c b = close_if_over-IsBounded r i s c b
  act-IsBounded show (leaving r i) c b = unsubscribe-IsBounded r i c b

-- Publications, subscriptions and what they receive, in any order, keep every run within the limit
-- of subscribers and every queue within 100 events.
pub act_all-IsBounded :
    (show : ℕ → String) (limit : ℕ) (actions : List Action) (c : Channels)
    → IsBounded limit c
    → IsBounded limit (act_all show limit actions c)
unfolding act_all
act_all-IsBounded show limit [] c b = b
act_all-IsBounded show limit (a ∷ actions) c b =
    act_all-IsBounded show limit actions (act show limit a c) (act-IsBounded limit show a c b)
