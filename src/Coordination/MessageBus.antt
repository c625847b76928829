-- ===== src/Coordination/MessageBus.antt =====
-- src/agent/coordination/message_bus.py: publish and subscribe over topics, with a queue, a dispatch
-- loop and a bounded history. `P` is the type of payloads. A subscription carries the identity of
-- its object (`self_id`), which `unsubscribe` compares by `is`; identities are given out in order
-- (`created`). What a callback does is outside, and an exception of it is caught: the calls of
-- callbacks are the list `delivered`. A filter may raise, and that is not caught. No callback
-- changes the bus while one message is handed round.
pub mod Subscriptions
pub mod Dispatch
pub mod History
mod Tests
use kryvaracode.Common.{
  ℕ, ◌+◌, String, Bool, true, false, not, Option, none, some, List, [], ◌∷◌, ◌++◌, map, eqb, ◌==◌,
  if◌then◌else◌, length, keep, last_slice, push_bounded,
}
use kryvaracode.Common.Dict.{Dict, lookup, insert, without, values}
use kryvaracode.Common.Int.{ℤ}
use kryvaracode.Coordination.Topics.{codes, topic_matches}

pub data MessageType : Type 0 where
  agent_msg task_request task_result state_update heartbeat system : MessageType

pub record Message (P : Type 0) : Type 0 where
  pub topic : String
  pub sender : String
  pub payload : P
  pub msg_type : MessageType
  pub message_id : String
  pub timestamp : ℕ
  pub priority : ℤ
  pub reply_to : Option String

-- A filter gives `none` where it raises.
pub record Subscription (P : Type 0) : Type 0 where
  pub self_id : ℕ
  pub subscriber_id : String
  pub topic_pattern : String
  pub filter_fn : Option (Message P → Option Bool)

-- The task of the dispatch loop: none, waiting for a message, or ended by an exception.
pub data DispatchTask : Type 0 where
  no_task looping died : DispatchTask

-- `soon` holds the calls that `call_soon_threadsafe` has handed to the event loop.
pub record MessageBus (P : Type 0) : Type 0 where
  pub subscribers : Dict (List (Subscription P))
  pub queue : List (Message P)
  pub soon : List (Message P)
  pub running : Bool
  pub dispatch_task : DispatchTask
  pub history : List (Message P)
  pub created : ℕ
  pub delivered : List (ℕ × Message P)

-- `deque(maxlen=1000)`
abbrev pub history_limit : ℕ
history_limit = 1000

module _ {P : Type 0} where
  -- `__init__`
  unfoldable pub new_bus : MessageBus P
  new_bus = record {
    subscribers = [];
    queue = [];
    soon = [];
    running = false;
    dispatch_task = no_task;
    history = [];
    created = 0;
    delivered = [];
  }

  -- `d.get(pattern, [])`
  abbrev pub subs_of : Dict (List (Subscription P)) → String → List (Subscription P)
  subs_of d pattern = elim (lookup pattern d) [ none ↦ [] | some subs ↦ subs ]

  unfoldable pub subscribe :
      String
      → String
      → Option (Message P → Option Bool)
      → MessageBus P
      → MessageBus P × Subscription P
  subscribe subscriber_id topic_pattern filter_fn bus =
      let sub : Subscription P = record {
        self_id = bus.created;
        subscriber_id = subscriber_id;
        topic_pattern = topic_pattern;
        filter_fn = filter_fn;
      } in
      (
        record bus {
          subscribers =
              insert topic_pattern (subs_of bus.subscribers topic_pattern ++ sub ∷ [])
                bus.subscribers;
          created = bus.created + 1;
        },
        sub,
      )

  -- The list of a pattern without one subscription.
  abbrev pub others : Subscription P → List (Subscription P) → List (Subscription P)
  others sub subs = keep (λ s. not (eqb s.self_id sub.self_id)) subs

  -- The entry of a pattern after its new list is known: an empty list is deleted.
  unfoldable pub store_subs :
      String → List (Subscription P) → Dict (List (Subscription P)) → Dict (List (Subscription P))
  store_subs pattern [] d = without pattern (insert pattern [] d)
  store_subs pattern (s ∷ subs) d = insert pattern (s ∷ subs) d

  unfoldable pub unsubscribe : Subscription P → MessageBus P → MessageBus P
  unfolding store_subs
  unsubscribe sub bus = record bus {
    subscribers =
        store_subs sub.topic_pattern (others sub (subs_of bus.subscribers sub.topic_pattern))
          bus.subscribers;
  }

  unfoldable pub publish : Message P → MessageBus P → MessageBus P
  publish message bus = record bus { queue = bus.queue ++ message ∷ [] }

  -- With a running event loop the put is handed to it, else it is made at once.
  unfoldable pub publish_sync : Bool → Message P → MessageBus P → MessageBus P
  unfolding publish
  publish_sync loop_running message bus =
      if loop_running then record bus { soon = bus.soon ++ message ∷ [] } else publish message bus

  -- The event loop makes the calls that were handed to it, in their order.
  unfoldable pub run_soon : MessageBus P → MessageBus P
  run_soon bus = record bus { queue = bus.queue ++ bus.soon; soon = [] }

  unfoldable pub start : MessageBus P → MessageBus P
  start bus = if bus.running then bus else record bus { running = true; dispatch_task = looping }

  -- `true` if `stop` raises: awaiting a task that has died raises its exception.
  unfoldable pub stop : MessageBus P → MessageBus P × Bool
  stop bus = elim bus.dispatch_task [
    | no_task ↦ (record bus { running = false }, false)
    | looping ↦ (record bus { running = false; dispatch_task = no_task }, false)
    | died ↦ (record bus { running = false }, true)
  ]

  -- The tests that a subscription has to pass, in the loop's order; `none` if its filter raises.
  unfoldable pub wants : Message P → String → Subscription P → Option Bool
  wants message pattern sub =
      if not (topic_matches (codes message.topic) (codes pattern))
      then some false
      else elim sub.filter_fn [ none ↦ some true | some filter_fn ↦ filter_fn message ]

  -- The inner loop: the identities that are called, and whether a filter raised.
  unfoldable pub offer : Message P → String → List (Subscription P) → List ℕ × Bool
  unfolding wants
  offer message pattern [] = ([], false)
  offer message pattern (sub ∷ subs) =
      let rest = offer message pattern subs in
      elim (wants message pattern sub) [
        | none ↦ ([], true)
        | some false ↦ rest
        | some true ↦ (sub.self_id ∷ rest.0, rest.1)
      ]

  -- The outer loop, over the items of the dictionary.
  unfoldable pub fan_out : Message P → Dict (List (Subscription P)) → List ℕ × Bool
  unfolding offer
  fan_out message [] = ([], false)
  fan_out message ((pattern, subs) ∷ d) =
      let rest = fan_out message d in
      let here = offer message pattern subs in if here.1 then here else (here.0 ++ rest.0, rest.1)

  -- One round of `_dispatch_loop`. With an empty queue the task goes on waiting.
  unfoldable pub dispatch_one : MessageBus P → MessageBus P
  unfolding fan_out push_bounded
  dispatch_one bus = elim bus.dispatch_task [
    | looping ↦ elim bus.queue [
      | [] ↦ bus
      | message ∷ queue ↦
          let called = fan_out message bus.subscribers in
          record bus {
            queue = queue;
            history = push_bounded history_limit bus.history message;
            dispatch_task = if called.1 then died else looping;
            delivered = bus.delivered ++ map (λ i. (i, message)) called.0;
          }
    ]
    | _ ↦ bus
  ]

  unfoldable pub get_history : Option String → ℕ → MessageBus P → List (Message P)
  unfolding last_slice
  get_history topic limit bus = elim topic [
    | none ↦ last_slice limit bus.history
    | some t ↦ last_slice limit (keep (λ m. m.topic == t) bus.history)
  ]

  unfoldable pub pending_count : MessageBus P → ℕ
  pending_count bus = length bus.queue

  unfoldable pub total : List (List (Subscription P)) → ℕ
  total [] = 0
  total (subs ∷ l) = length subs + total l

  unfoldable pub subscriber_count : MessageBus P → ℕ
  unfolding total
  subscriber_count bus = total (values bus.subscribers)
