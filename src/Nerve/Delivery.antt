-- ===== src/Nerve/Delivery.antt =====
-- event_bus.py: which callbacks are called, and in which order.
use mathlib.Core.List.{append_assoc, append-nil}
use kryvaracode.Common.{
  ℕ, zero, suc, ◌≡◌, refl, sym, subst, ◌∙◌, String, true, List, [], ◌∷◌, ◌++◌, map, ap, arith,
  eq_iff, ◌==◌, if◌then◌else◌, length, Option-cases, inl, inr, Bool-cases,
}
use kryvaracode.Common.Dict.{lookup, insert, lookup-insert}
use kryvaracode.Nerve.{SystemEvent, EventBus, listeners, new_bus, subscribe, dispatch_one}

-- The callbacks that subscribed for a type, in the order of their subscriptions.
abbrev pub audience : String → List (String × ℕ) → List ℕ
audience event_type [] = []
audience event_type (s ∷ subscriptions) =
    let later = audience event_type subscriptions in
    if s.0 == event_type then s.1 ∷ later else later

-- The calls of one event: those who subscribed for its type, then those who subscribed for every type.
abbrev pub calls_of : List (String × ℕ) → SystemEvent → List (ℕ × SystemEvent)
calls_of subscriptions event =
    map (λ callback. (callback, event))
      (audience event.event_type subscriptions ++ audience "*" subscriptions)

abbrev pub calls : List SystemEvent → List (String × ℕ) → List (ℕ × SystemEvent)
calls [] subscriptions = []
calls (event ∷ events) subscriptions = calls_of subscriptions event ++ calls events subscriptions

unfoldable pub subscribe_all : List (String × ℕ) → EventBus → EventBus
subscribe_all [] bus = bus
subscribe_all (s ∷ subscriptions) bus = subscribe_all subscriptions (subscribe s.0 s.1 bus)

unfoldable pub drain : ℕ → EventBus → EventBus
drain zero bus = bus
drain (suc n) bus = drain n (dispatch_one bus)

-- A subscription is called after those before it for its type, and no other type's list changes.
listeners-subscribe :
    (event_type other : String) (callback : ℕ) (bus : EventBus)
    → listeners other (subscribe event_type callback bus).subscribers ≡ (
        if event_type == other
        then listeners other bus.subscribers ++ callback ∷ []
        else listeners other bus.subscribers)
unfolding subscribe
listeners-subscribe event_type other callback bus =
    elim (Option-cases (lookup event_type bus.subscribers)) [
      | inl e ↦
          let known = insert event_type [] bus.subscribers in
          let now = listeners event_type known ++ callback ∷ [] in
          rw e (
            ground (
              arith,
              e,
              eq_iff event_type other,
              eq_iff event_type event_type,
              lookup-insert event_type other now known,
              lookup-insert event_type event_type [] bus.subscribers,
              lookup-insert event_type other [] bus.subscribers,
            ))
      | inr (old, e) ↦ rw e (
          ground (
            arith,
            e,
            eq_iff event_type other,
            lookup-insert event_type other (old ++ callback ∷ []) bus.subscribers,
          ))
    ]

listeners-subscribe_all :
    (event_type : String) (subscriptions : List (String × ℕ)) (bus : EventBus)
    → listeners event_type (subscribe_all subscriptions bus).subscribers
      ≡ listeners event_type bus.subscribers ++ audience event_type subscriptions
unfolding subscribe_all
listeners-subscribe_all event_type [] bus = sym (append-nil (listeners event_type bus.subscribers))
listeners-subscribe_all event_type (s ∷ subscriptions) bus =
    let old = listeners event_type bus.subscribers in
    let later = audience event_type subscriptions in
    listeners-subscribe_all event_type subscriptions (subscribe s.0 s.1 bus)
    ∙ ap (λ l. l ++ later) (listeners-subscribe s.0 event_type s.1 bus)
    ∙ elim (Bool-cases (s.0 == event_type)) [
      | inl own ↦ rw own (append_assoc old (s.1 ∷ []) later)
      | inr other ↦ rw other refl
    ]

-- The subscribers of the bus are those of a list of subscriptions to a new one.
abbrev pub HasSubscribed : List (String × ℕ) → EventBus → Type 0
HasSubscribed subscriptions bus =
    bus.subscribers ≡ (subscribe_all subscriptions new_bus).subscribers

listeners-audience :
    (event_type : String) (subscriptions : List (String × ℕ)) (bus : EventBus)
    → HasSubscribed subscriptions bus
    → listeners event_type bus.subscribers ≡ audience event_type subscriptions
unfolding new_bus lookup
listeners-audience event_type subscriptions bus h =
    ap (listeners event_type) h ∙ listeners-subscribe_all event_type subscriptions new_bus

-- What a round makes of a bus: the loop goes on if the bus runs, else it ends.
abbrev pub one_round : List (String × ℕ) → SystemEvent → List SystemEvent → ℕ → EventBus → EventBus
one_round subscriptions event rest n bus = record bus {
  event_queue = rest;
  called = bus.called ++ calls_of subscriptions event;
  loops = if bus.running then suc n else n;
}

pub dispatch_one-one_round :
    (subscriptions : List (String × ℕ)) (event : SystemEvent) (rest : List SystemEvent) (n : ℕ)
    (bus : EventBus)
    → HasSubscribed subscriptions bus
    → bus.loops ≡ suc n
    → bus.event_queue ≡ event ∷ rest
    → dispatch_one bus ≡ one_round subscriptions event rest n bus
unfolding dispatch_one
dispatch_one-one_round subscriptions event rest n bus s l q =
    let own = listeners-audience event.event_type subscriptions bus s in
    let universal = listeners-audience "*" subscriptions bus s in rw (l, q, own, universal) refl

-- A started loop takes the events of the queue in their order and calls for each first those who
-- subscribed for its type, then those who subscribed for every type, both in the order in which they
-- subscribed; it goes on as long as the bus runs.
pub drain-calls :
    (subscriptions : List (String × ℕ)) (events rest : List SystemEvent) (n : ℕ) (bus : EventBus)
    → HasSubscribed subscriptions bus
    → bus.running ≡ true
    → bus.loops ≡ suc n
    → bus.event_queue ≡ events ++ rest
    → ((drain (length events) bus).called ≡ bus.called ++ calls events subscriptions)
      × ((drain (length events) bus).event_queue ≡ rest)
      × ((drain (length events) bus).loops ≡ suc n)
unfolding drain
drain-calls subscriptions [] rest n bus s r l q = (sym (append-nil bus.called), q, l)
drain-calls subscriptions (event ∷ events) rest n bus s r l q =
    let mine = calls_of subscriptions event in
    let next = one_round subscriptions event (events ++ rest) n bus in
    let going : next.loops ≡ suc n = rw r refl in
    let (called, queue, loops) = drain-calls subscriptions events rest n next s r going refl in
    let step = dispatch_one-one_round subscriptions event (events ++ rest) n bus s l q in
    subst
      (λ b.
        ((drain (length events) b).called ≡ bus.called ++ (mine ++ calls events subscriptions))
        × ((drain (length events) b).event_queue ≡ rest)
        × ((drain (length events) b).loops ≡ suc n))
      (sym step) (called ∙ append_assoc bus.called mine (calls events subscriptions), queue, loops)
