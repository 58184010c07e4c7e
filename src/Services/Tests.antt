-- ===== src/Services/Tests.antt =====
-- A run with one subscriber.
use enterprise_multi_agent_o.Base.{
  ℕ, String, ◌≡◌, refl, ◌⊎◌, true, none, some, List, [], ◌∷◌, string_eq, nat_eq,
}
use enterprise_multi_agent_o.Base.Lists.{All, last?}
use enterprise_multi_agent_o.Base.Dict.{lookup}
use enterprise_multi_agent_o.Core.State.{create_initial}
use enterprise_multi_agent_o.Services.Events.{EventQueue, Channels, publish_event, is_critical}
use enterprise_multi_agent_o.Services.Delivery.{queue_ids, publish_event-critical}
use enterprise_multi_agent_o.Services.Capacity.{IsBounded}
use enterprise_multi_agent_o.Services.Bounds.{
  Action, subscribing, publishing, receiving, leaving, act_all, act_all-IsBounded,
}

abbrev queues : List EventQueue
queues = record { id = 0; items = [] } ∷ []

abbrev followed : Channels
followed = record { event_queues = ("r", queues) ∷ []; next_id = 1 }

followed-queues : lookup "r" followed.event_queues ≡ some queues
unfolding lookup string_eq
followed-queues = refl

completed-critical : is_critical "run_completed" ≡ true
unfolding is_critical string_eq
completed-critical = refl

publish_event-critical_example :
    ((qs : List EventQueue) × (lookup "r" (publish_event "r" "run_completed" followed).event_queues
        ≡ some qs)
      × (queue_ids qs ≡ queue_ids queues)
      × All (λ q. last? q.items ≡ some (record { event = "run_completed"; run_id = "r" })) qs)
    × ((s : String)
        → (s ≡ "r")
          ⊎ (lookup s (publish_event "r" "run_completed" followed).event_queues
              ≡ lookup s followed.event_queues))
publish_event-critical_example =
    publish_event-critical "r" "run_completed" followed queues followed-queues completed-critical

abbrev unfollowed : Channels
unfollowed = record { event_queues = []; next_id = 0 }

unfollowed-IsBounded : IsBounded 10 unfollowed
unfolding lookup
unfollowed-IsBounded r = tt

abbrev digits : ℕ → String
digits n = "10"

abbrev actions : List Action
actions =
    subscribing "r" (some (create_initial 1 "r" "Do it" none none 3 none))
    ∷ publishing "r" "run_started"
    ∷ receiving "r" 0
    ∷ leaving "r" 0
    ∷ []

act_all-IsBounded_example : IsBounded 10 (act_all digits 10 actions unfollowed)
act_all-IsBounded_example = act_all-IsBounded digits 10 actions unfollowed unfollowed-IsBounded
