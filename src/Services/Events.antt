-- ===== src/Services/Events.antt =====
-- services/orchestration_service.py: `_publish_event`, `subscribe_events` and
-- `get_pending_human_review`. A subscription is a generator; what it does between two of its
-- awaits is one step.
use enterprise_multi_agent_o.Base.{
  ℕ, suc, String, ◌<>◌, Bool, Option, none, some, List, [], ◌∷◌, ◌++◌, leb, ◌==◌, if◌then◌else◌,
  string_eq, nat_eq, or_else, contains,
}
use enterprise_multi_agent_o.Base.Dict.{Dict, lookup, insert, erase}
use enterprise_multi_agent_o.Base.Lists.{length, drop, any, last?}
use enterprise_multi_agent_o.Core.State.{OrchestrationState, HumanEscalationRequest, is_terminal}

-- The payload of an event: "event" and "run_id". The time and the data are left out.
pub record EventPayload : Type 0 where
  pub event : String
  pub run_id : String

-- An `asyncio.Queue`, by its identity, with what it holds.
pub record EventQueue : Type 0 where
  pub id : ℕ
  pub items : List EventPayload

-- The service's channels: the queues of each run, and the identity of the next queue.
pub record Channels : Type 0 where
  pub event_queues : Dict String (List EventQueue)
  pub next_id : ℕ

-- CRITICAL_EVENTS
abbrev pub critical_events : List String
critical_events =
    "run_started" ∷ "human_review_required" ∷ "human_decision_submitted" ∷ "run_completed"
    ∷ "run_failed" ∷ "run_cancelled" ∷ "stream_closed" ∷ []

unfoldable pub is_critical : String → Bool
is_critical = contains critical_events

-- `asyncio.Queue(maxsize=100)`
abbrev pub maxsize : ℕ
maxsize = 100

unfoldable pub queue_full : EventQueue → Bool
queue_full q = leb maxsize (length q.items)

-- The body of the loop over the queues. A queue that is full is not empty, and has room again once
-- its oldest item is out.
unfoldable pub offer : EventPayload → EventQueue → EventQueue
unfolding queue_full is_critical
offer e q =
    if queue_full q
    then (if is_critical e.event then record q { items = drop 1 q.items ++ e ∷ [] } else q)
    else record q { items = q.items ++ e ∷ [] }

unfoldable pub offer_all : EventPayload → List EventQueue → List EventQueue
unfolding offer
offer_all e [] = []
offer_all e (q ∷ qs) = offer e q ∷ offer_all e qs

-- `_publish_event`: the queues of the run, which are shared objects, change in place.
unfoldable pub publish_event : (run_id event_type : String) → Channels → Channels
unfolding lookup insert offer_all
publish_event run_id event_type c = elim (lookup run_id c.event_queues) [
  | none ↦ c
  | some qs ↦ record c {
    event_queues =
        insert run_id (offer_all (record { event = event_type; run_id = run_id }) qs)
          c.event_queues;
  }
]

-- What a generator yields, and whether it goes on.
pub data Step : Type 0 where
  yields : EventPayload → (id : ℕ) → Step
  refuses : (message : String) → Step

unfoldable pub queues_of : String → Channels → List EventQueue
unfolding lookup
queues_of run_id c = or_else (lookup run_id c.event_queues) []

-- `subscribe_events` up to its first yield: an error event, or the subscription and its status.
-- `show` prints a number.
unfoldable pub subscribe :
    (show : ℕ → String) (max_subscribers_per_run : ℕ) (run_id : String)
    → Option OrchestrationState
    → Channels
    → Step × Channels
unfolding queues_of insert
subscribe show max_subscribers run_id none c = (refuses ("Run '" <> run_id <> "' not found."), c)
subscribe show max_subscribers run_id (some state) c =
    if leb max_subscribers (length (queues_of run_id c))
    then (
      refuses (
          "Maximum concurrent SSE subscribers ("
          <> show max_subscribers
          <> ") reached for run '"
          <> run_id
          <> "'."),
      c,
    )
    else (
      yields (record { event = "run_status"; run_id = run_id }) c.next_id,
      record {
        event_queues =
            insert run_id (queues_of run_id c ++ record { id = c.next_id; items = [] } ∷ [])
              c.event_queues;
        next_id = suc c.next_id;
      },
    )

-- `self._event_queues[run_id].remove(queue)`
unfoldable pub remove_queue : ℕ → List EventQueue → List EventQueue
remove_queue id [] = []
remove_queue id (q ∷ qs) = let rest = remove_queue id qs in if q.id == id then qs else q ∷ rest

-- The list of a run that has lost a queue: the key goes with the last one.
unfoldable pub put_queues :
    String → List EventQueue → Dict String (List EventQueue) → Dict String (List EventQueue)
unfolding insert erase
put_queues run_id [] d = erase run_id d
put_queues run_id (q ∷ qs) d = insert run_id (q ∷ qs) d

-- The `finally` of `subscribe_events`.
unfoldable pub unsubscribe : (run_id : String) (id : ℕ) → Channels → Channels
unfolding lookup remove_queue put_queues
unsubscribe run_id id c = elim (lookup run_id c.event_queues) [
  | none ↦ c
  | some qs ↦
      if any (λ q. q.id == id) qs
      then record c { event_queues = put_queues run_id (remove_queue id qs) c.event_queues }
      else c
]

-- `queue.get()` where the queue has an item: the item and the queues without it.
unfoldable pub get_item : ℕ → List EventQueue → Option EventPayload × List EventQueue
get_item id [] = (none, [])
get_item id (q ∷ qs) =
    let (found, rest) = get_item id qs in
    if q.id == id
    then (elim q.items [
      | [] ↦ (none, q ∷ qs)
      | e ∷ items ↦ (some e, record q { items = items } ∷ qs)
    ])
    else (found, q ∷ rest)

-- The events after which a subscription breaks off.
abbrev pub is_last_event : String → Bool
is_last_event e = contains ("run_completed" ∷ "run_failed" ∷ "run_cancelled" ∷ []) e

-- A pass of the loop that takes an event: it is yielded, and after a last one the queue is removed.
unfoldable pub receive : (run_id : String) (id : ℕ) → Channels → Option EventPayload × Channels
unfolding lookup insert get_item unsubscribe
receive run_id id c = elim (lookup run_id c.event_queues) [
  | none ↦ (none, c)
  | some qs ↦
      let (found, rest) = get_item id qs in
      let after = record c { event_queues = insert run_id rest c.event_queues } in
      elim found [
        | none ↦ (none, c)
        | some e ↦ (some e, if is_last_event e.event then unsubscribe run_id id after else after)
      ]
]

-- A pass that times out: the subscription ends if the run is over.
unfoldable pub time_out :
    (run_id : String) (id : ℕ) → Option OrchestrationState → Channels → Channels
unfolding unsubscribe
time_out run_id id none c = c
time_out run_id id (some state) c =
    if is_terminal state.metadata.status then unsubscribe run_id id c else c

-- After the status of a run that was over at the subscription: the stream closes.
unfoldable pub close_if_over :
    (run_id : String) (id : ℕ) → OrchestrationState → Channels → Option EventPayload × Channels
unfolding unsubscribe
close_if_over run_id id state c =
    if is_terminal state.metadata.status
    then (some (record { event = "stream_closed"; run_id = run_id }), unsubscribe run_id id c)
    else (none, c)

-- `get_pending_human_review`, for the stored state.
unfoldable pub get_pending_human_review : Option OrchestrationState → Option HumanEscalationRequest
get_pending_human_review none = none
get_pending_human_review (some state) =
    if state.requires_human then last? state.human_requests else none
