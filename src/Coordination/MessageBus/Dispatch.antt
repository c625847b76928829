-- ===== src/Coordination/MessageBus/Dispatch.antt =====
-- message_bus.py: who receives a message, and what a raising filter does to the bus.
use mathlib.Core.List.{append_assoc, append-nil}
use kryvaracode.Common.{
  push_bounded, zero, suc, is_none, ◌||◌, ℕ, ◌≡◌, refl, ◌∙◌, String, Bool, true, false, ◌&&◌,
  Option, none, some, List, [], ◌∷◌, ◌++◌, map, arith, keep, All, length,
}
use kryvaracode.Common.Dict.{Dict}
use kryvaracode.Coordination.Topics.{codes, topic_matches}
use kryvaracode.Coordination.MessageBus.{
  Message, Subscription, MessageBus, looping, died, wants, offer, fan_out, dispatch_one, start,
  stop, history_limit, publish, publish_sync, subscribe, unsubscribe,
}

-- A call of the bus by its users, or a round of its loop.
pub data Event (P : Type 0) : Type 0 where
  published : Message P → Event P
  published_sync : Bool → Message P → Event P
  subscribed : String → String → Option (Message P → Option Bool) → Event P
  unsubscribed : Subscription P → Event P
  started dispatched : Event P

module _ {P : Type 0} where
  -- Whether a filter lets a message through; a filter that raises does not.
  abbrev pub passes : Option (Message P → Option Bool) → Message P → Bool
  passes none m = true
  passes (some f) m = elim (f m) [ none ↦ false | some b ↦ b ]

  -- The subscription is meant for the message: its pattern matches and its filter agrees.
  abbrev pub interested : Message P → String → Subscription P → Bool
  interested m pattern sub = topic_matches (codes m.topic) (codes pattern) && passes sub.filter_fn m

  -- The pattern of the subscription matches, and its filter raises.
  abbrev pub raises : Message P → String → Subscription P → Bool
  raises m pattern sub =
      topic_matches (codes m.topic) (codes pattern)
      && (elim sub.filter_fn [ none ↦ false | some f ↦ is_none (f m) ])

  abbrev pub some_raises : Message P → String → List (Subscription P) → Bool
  some_raises m pattern [] = false
  some_raises m pattern (s ∷ subs) = raises m pattern s || some_raises m pattern subs

  abbrev pub any_raises : Message P → Dict (List (Subscription P)) → Bool
  any_raises m [] = false
  any_raises m ((pattern, subs) ∷ d) = some_raises m pattern subs || any_raises m d

  -- The interested subscriptions of every pattern, in the order of the dictionary.
  abbrev pub audience : Message P → Dict (List (Subscription P)) → List ℕ
  audience m [] = []
  audience m ((pattern, subs) ∷ d) =
      map (λ s. s.self_id) (keep (interested m pattern) subs) ++ audience m d

  offer-some_raises :
      (m : Message P) (pattern : String) (subs : List (Subscription P))
      → (offer m pattern subs).1 ≡ some_raises m pattern subs
  unfolding offer wants
  offer-some_raises m pattern [] = refl
  offer-some_raises m pattern (sub ∷ subs) = ground (arith, offer-some_raises m pattern subs)

  fan_out-any_raises :
      (m : Message P) (d : Dict (List (Subscription P))) → (fan_out m d).1 ≡ any_raises m d
  unfolding fan_out
  fan_out-any_raises m [] = refl
  fan_out-any_raises m ((pattern, subs) ∷ d) =
      ground (arith, offer-some_raises m pattern subs, fan_out-any_raises m d)

  offer-audience :
      (m : Message P) (pattern : String) (subs : List (Subscription P))
      → some_raises m pattern subs ≡ false
      → (offer m pattern subs).0 ≡ map (λ s. s.self_id) (keep (interested m pattern) subs)
  unfolding offer wants
  offer-audience m pattern [] h = refl
  offer-audience m pattern (sub ∷ subs) h = ground (arith, offer-audience m pattern subs)

  fan_out-audience :
      (m : Message P) (d : Dict (List (Subscription P)))
      → any_raises m d ≡ false
      → fan_out m d ≡ (audience m d, false)
  unfolding fan_out
  fan_out-audience m [] h = refl
  fan_out-audience m ((pattern, subs) ∷ d) h =
      ground (
        arith,
        offer-some_raises m pattern subs,
        offer-audience m pattern subs,
        fan_out-audience m d,
      )

  -- Where no filter raises, one round of the loop takes the oldest message of the queue and calls
  -- every interested subscription once and no other, pattern by pattern in the order of the
  -- dictionary; it adds the message to the history, and goes on.
  dispatch_one-audience :
      (bus : MessageBus P) (m : Message P) (rest : List (Message P))
      → bus.dispatch_task ≡ looping
      → bus.queue ≡ m ∷ rest
      → any_raises m bus.subscribers ≡ false
      → ((dispatch_one bus).delivered
          ≡ bus.delivered ++ map (λ i. (i, m)) (audience m bus.subscribers))
        × ((dispatch_one bus).queue ≡ rest)
        × ((dispatch_one bus).dispatch_task ≡ looping)
        × ((dispatch_one bus).history ≡ push_bounded history_limit bus.history m)
  unfolding dispatch_one
  dispatch_one-audience bus m rest loops e h =
      let called = fan_out-audience m bus.subscribers h in
      (
        ground (arith, called),
        ground (arith, called),
        ground (arith, called),
        ground (arith, called),
      )

  subscribers-dispatch_one : (bus : MessageBus P) → (dispatch_one bus).subscribers ≡ bus.subscribers
  unfolding dispatch_one
  subscribers-dispatch_one bus = ground arith

  -- A number of rounds of the loop.
  unfoldable pub drain : ℕ → MessageBus P → MessageBus P
  drain zero bus = bus
  drain (suc n) bus = drain n (dispatch_one bus)

  -- The calls for a list of messages: all of one message, then all of the next.
  abbrev pub deliveries : List (Message P) → Dict (List (Subscription P)) → List (ℕ × Message P)
  deliveries [] d = []
  deliveries (m ∷ ms) d = map (λ i. (i, m)) (audience m d) ++ deliveries ms d

  -- First in, first out: where no filter raises, as many rounds as there are messages at the
  -- front of the queue deliver these messages in their order, each to its whole audience before
  -- the next, and leave the rest of the queue.
  pub drain-deliveries :
      (ms rest : List (Message P)) (bus : MessageBus P)
      → bus.dispatch_task ≡ looping
      → bus.queue ≡ ms ++ rest
      → All (λ m. any_raises m bus.subscribers ≡ false) ms
      → ((drain (length ms) bus).delivered ≡ bus.delivered ++ deliveries ms bus.subscribers)
        × ((drain (length ms) bus).queue ≡ rest)
        × ((drain (length ms) bus).dispatch_task ≡ looping)
  unfolding drain
  drain-deliveries [] rest bus loops e h = (rw append-nil, e, loops)
  drain-deliveries (m ∷ ms) rest bus loops e h =
      let same = subscribers-dispatch_one bus in
      let (first, left, goes_on, _) = dispatch_one-audience bus m (ms ++ rest) loops e h.0 in
      let (later, left', goes_on') =
        drain-deliveries ms rest (dispatch_one bus) goes_on left (rw same h.1) in
      (later ∙ rw (first, same) (append_assoc bus.delivered _ _), left', goes_on')

  unfoldable pub react : Event P → MessageBus P → MessageBus P
  react (published m) bus = publish m bus
  react (published_sync b m) bus = publish_sync b m bus
  react (subscribed i pattern f) bus = (subscribe i pattern f bus).0
  react (unsubscribed sub) bus = unsubscribe sub bus
  react started bus = start bus
  react dispatched bus = dispatch_one bus

  unfoldable pub reacts : List (Event P) → MessageBus P → MessageBus P
  unfolding react
  reacts [] bus = bus
  reacts (e ∷ es) bus = reacts es (react e bus)

  -- The bus is dead: its loop has ended by an exception, and it still counts as running.
  pub record IsDead (bus : MessageBus P) : Type 0 where
    pub over : bus.dispatch_task ≡ died
    pub claims : bus.running ≡ true

  react-IsDead :
      (e : Event P) (bus : MessageBus P)
      → IsDead bus
      → IsDead (react e bus) × ((react e bus).delivered ≡ bus.delivered)
  unfolding react publish publish_sync subscribe unsubscribe start dispatch_one
  react-IsDead (published m) bus h = (record { over = h.over; claims = h.claims }, refl)
  react-IsDead (published_sync b m) bus h =
      (record { over = ground arith; claims = ground arith }, ground arith)
  react-IsDead (subscribed i pattern f) bus h = (record { over = h.over; claims = h.claims }, refl)
  react-IsDead (unsubscribed sub) bus h = (record { over = h.over; claims = h.claims }, refl)
  react-IsDead started bus h = (record { over = ground arith; claims = ground arith }, ground arith)
  react-IsDead dispatched bus h =
      (record { over = ground arith; claims = ground arith }, ground arith)

  reacts-IsDead :
      (es : List (Event P)) (bus : MessageBus P)
      → IsDead bus
      → IsDead (reacts es bus) × ((reacts es bus).delivered ≡ bus.delivered)
  unfolding reacts
  reacts-IsDead [] bus h = (h, refl)
  reacts-IsDead (e ∷ es) bus h =
      let (dead, same) = react-IsDead e bus h in
      let (dead', same') = reacts-IsDead es (react e bus) dead in (dead', same' ∙ same)

  -- If a matching subscription has a filter that raises on the message, the round that hands the
  -- message round ends the loop for good: whatever is called afterwards, `start` included and
  -- `stop` excepted, no message is delivered any more, and `stop` itself raises.
  pub dispatch_one-IsDead :
      (bus : MessageBus P) (m : Message P) (rest : List (Message P)) (es : List (Event P))
      → bus.dispatch_task ≡ looping
      → bus.running ≡ true
      → bus.queue ≡ m ∷ rest
      → any_raises m bus.subscribers ≡ true
      → IsDead (reacts es (dispatch_one bus))
        × ((reacts es (dispatch_one bus)).delivered ≡ (dispatch_one bus).delivered)
        × ((stop (reacts es (dispatch_one bus))).1 ≡ true)
  unfolding dispatch_one stop
  dispatch_one-IsDead bus m rest es loops runs e h =
      let now_dead : IsDead (dispatch_one bus) = record {
        over = ground (arith, fan_out-any_raises m bus.subscribers);
        claims = ground arith;
      } in
      let (dead, same) = reacts-IsDead es (dispatch_one bus) now_dead in
      (dead, same, rw (dead.over, stop))
