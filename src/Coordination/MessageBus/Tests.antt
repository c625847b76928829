-- ===== src/Coordination/MessageBus/Tests.antt =====
-- A test bus for message_bus.py: two subscriptions, and one more whose filter raises.
use kryvaracode.Common.{
  ℕ, String, Bool, true, ◌≡◌, refl, Option, none, some, List, [], ◌∷◌, ◌++◌, eqb, length,
}
use kryvaracode.Common.Int.{pos}
use kryvaracode.Coordination.Topics.{topic_matches}
use kryvaracode.Coordination.MessageBus.{
  Message, agent_msg, Subscription, MessageBus, looping, stop, dispatch_one,
}
use kryvaracode.Coordination.MessageBus.Dispatch.{
  Event, started, published, dispatched, reacts, drain, deliveries, IsDead, drain-deliveries,
  dispatch_one-IsDead,
}

abbrev note : String → Message ℕ
note topic = record {
  topic = topic;
  sender = "agent";
  payload = 1;
  msg_type = agent_msg;
  message_id = "m1";
  timestamp = 100;
  priority = pos 0;
  reply_to = none;
}

abbrev sub : ℕ → String → Option (Message ℕ → Option Bool) → Subscription ℕ
sub id pattern filter_fn = record {
  self_id = id;
  subscriber_id = "agent";
  topic_pattern = pattern;
  filter_fn = filter_fn;
}

abbrev bus : MessageBus ℕ
bus = record {
  subscribers =
      ("*", sub 0 "*" none ∷ [])
      ∷ ("agent.task", sub 1 "agent.task" (some (λ m. some (eqb m.payload 1))) ∷ [])
      ∷ [];
  queue = note "agent.task" ∷ note "system" ∷ [];
  soon = [];
  running = true;
  dispatch_task = looping;
  history = [];
  created = 2;
  delivered = [];
}

abbrev faulty : MessageBus ℕ
faulty = record bus { subscribers = ("*", sub 0 "*" (some (λ m. none)) ∷ []) ∷ [] }

drain-deliveries_example :
    ((drain (length bus.queue) bus).delivered
      ≡ bus.delivered ++ deliveries bus.queue bus.subscribers)
    × ((drain (length bus.queue) bus).queue ≡ [])
    × ((drain (length bus.queue) bus).dispatch_task ≡ looping)
unfolding topic_matches
drain-deliveries_example = drain-deliveries bus.queue [] bus refl refl (refl, (refl, tt))

abbrev later : List (Event ℕ)
later = started ∷ published (note "agent.task") ∷ dispatched ∷ []

dispatch_one-IsDead_example :
    IsDead (reacts later (dispatch_one faulty))
    × ((reacts later (dispatch_one faulty)).delivered ≡ (dispatch_one faulty).delivered)
    × ((stop (reacts later (dispatch_one faulty))).1 ≡ true)
unfolding topic_matches
dispatch_one-IsDead_example =
    dispatch_one-IsDead faulty (note "agent.task") (note "system" ∷ []) later refl refl refl refl
