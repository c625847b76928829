-- ===== src/Nerve.antt =====
-- src/agent/nerve/event_bus.py: system events, their bus and the bridge from the file watcher. A callback is
-- an identity; an exception of it is caught, what it does is outside, and the calls made of it are the
-- list `called`. The payload that the code builds is the name of the action. The tasks that the watcher
-- creates run in the order in which they were created, so they are emissions in that order.
pub mod Delivery
pub mod Stopping
mod Tests
use kryvaracode.Common.{
  ℕ, zero, suc, ◌+◌, String, Bool, true, false, Option, none, some, List, [], ◌∷◌, ◌++◌, map,
  if◌then◌else◌, is_some,
}
use kryvaracode.Common.Dict.{Dict, lookup, insert}

pub record SystemEvent : Type 0 where
  pub event_type : String
  pub source : String
  pub payload : String
  pub timestamp : ℕ
  pub priority : String

-- `loops` counts the coroutines of `start_dispatch_loop` that wait for an event.
pub record EventBus : Type 0 where
  pub subscribers : Dict (List ℕ)
  pub event_queue : List SystemEvent
  pub running : Bool
  pub loops : ℕ
  pub called : List (ℕ × SystemEvent)

-- `__init__`
unfoldable pub new_bus : EventBus
new_bus = record { subscribers = []; event_queue = []; running = false; loops = 0; called = [] }

-- The list of an event type, empty if there is none.
abbrev pub listeners : String → Dict (List ℕ) → List ℕ
listeners event_type d = elim (lookup event_type d) [ none ↦ [] | some callbacks ↦ callbacks ]

unfoldable pub subscribe : String → ℕ → EventBus → EventBus
subscribe event_type callback bus =
    let known : Dict (List ℕ) =
      if is_some (lookup event_type bus.subscribers)
      then bus.subscribers
      else insert event_type [] bus.subscribers in
    record bus {
      subscribers = insert event_type (listeners event_type known ++ callback ∷ []) known;
    }

unfoldable pub emit : SystemEvent → EventBus → EventBus
emit event bus = record bus { event_queue = bus.event_queue ++ event ∷ [] }

-- Up to the first `get`.
unfoldable pub start_dispatch_loop : EventBus → EventBus
start_dispatch_loop bus = record bus { running = true; loops = bus.loops + 1 }

-- The calls of one event: its own subscribers, then the universal ones.
abbrev pub notified : SystemEvent → Dict (List ℕ) → List ℕ
notified event d = listeners event.event_type d ++ listeners "*" d

-- What a waiting loop does with the next event, up to its next `get` or its end.
unfoldable pub dispatch_one : EventBus → EventBus
dispatch_one bus = elim bus.loops [
  | zero ↦ bus
  | suc others ↦ elim bus.event_queue [
    | [] ↦ bus
    | event ∷ rest ↦ record bus {
      event_queue = rest;
      called = bus.called ++ map (λ callback. (callback, event)) (notified event bus.subscribers);
      loops = if bus.running then suc others else others;
    }
  ]
]

-- `CancelledError` in a loop that waits.
unfoldable pub cancel_loop : EventBus → EventBus
cancel_loop bus = elim bus.loops [
  | zero ↦ bus
  | suc others ↦ record bus { running = false; loops = others }
]

unfoldable pub stop : EventBus → EventBus
stop bus = record bus { running = false }

-- What the watcher reads of a file system event.
pub record FileSystemEvent : Type 0 where
  pub is_directory : Bool
  pub src_path : String

abbrev pub file_event : String → String → FileSystemEvent → ℕ → SystemEvent
file_event event_type action event now = record {
  event_type = event_type;
  source = event.src_path;
  payload = action;
  timestamp = now;
  priority = "medium";
}

unfoldable pub on_modified : FileSystemEvent → ℕ → EventBus → EventBus
unfolding emit
on_modified event now bus =
    if event.is_directory then bus else emit (file_event "file_modified" "modified" event now) bus

unfoldable pub on_created : FileSystemEvent → ℕ → EventBus → EventBus
unfolding emit
on_created event now bus = emit (file_event "file_created" "created" event now) bus
