-- ===== src/Nerve/Tests.antt =====
-- A bus with one waiting loop for event_bus.py.
use kryvaracode.Common.{ℕ, ◌≤◌, ◌≡◌, refl, String, true, List, [], ◌∷◌, ◌++◌}
use kryvaracode.Common.Dict.{lookup, insert}
use kryvaracode.Nerve.{SystemEvent, EventBus, new_bus, subscribe, stop, dispatch_one}
use kryvaracode.Nerve.Delivery.{calls, drain, subscribe_all, drain-calls}
use kryvaracode.Nerve.Stopping.{Event, Handles, handled, emit_all, stop-handled}

abbrev event : String → SystemEvent
event type = record {
  event_type = type;
  source = "src/a.py";
  payload = "";
  timestamp = 100;
  priority = "medium";
}

abbrev bus : EventBus
bus = record {
  subscribers = ("*", 7 ∷ []) ∷ ("file_created", 1 ∷ 2 ∷ []) ∷ [];
  event_queue = event "file_created" ∷ event "*" ∷ [];
  running = true;
  loops = 1;
  called = [];
}

-- An event whose type is the star is handed to the universal subscribers twice.
twice :
    (drain 2 bus).called
    ≡ (1, event "file_created")
      ∷ (2, event "file_created")
      ∷ (7, event "file_created")
      ∷ (7, event "*")
      ∷ (7, event "*")
      ∷ []
unfolding drain dispatch_one lookup
twice = refl

-- The subscriptions of the bus, in another order than its dictionary.
abbrev subscriptions : List (String × ℕ)
subscriptions = ("*", 7) ∷ ("file_created", 1) ∷ ("file_created", 2) ∷ []

drain-calls_example :
    ((drain 2 bus).called ≡ calls bus.event_queue subscriptions)
    × ((drain 2 bus).event_queue ≡ [])
    × ((drain 2 bus).loops ≡ 1)
unfolding subscribe_all subscribe new_bus insert lookup
drain-calls_example = drain-calls subscriptions bus.event_queue [] 0 bus refl refl refl refl

stop-handled_example :
    Handles subscriptions 3 [] 1
      (bus.event_queue ++ event "x" ∷ [])
      (drain 3 (emit_all (event "x" ∷ []) (stop bus)))
    × ((es : List Event) → handled es (stop bus) ≤ 1)
unfolding subscribe_all subscribe new_bus insert lookup
stop-handled_example = stop-handled subscriptions (event "x" ∷ []) 3 bus refl
