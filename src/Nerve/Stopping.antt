-- ===== src/Nerve/Stopping.antt =====
-- event_bus.py: what the waiting loops still do after `stop`.
use mathlib.Core.List.{append_assoc, append-nil}
use kryvaracode.Common.{
  ℕ, zero, suc, ◌+◌, ◌-◌, ◌≤◌, min, ◌≡◌, ◌⊎◌, refl, ap, sym, subst, ◌∙◌, String, false, List, [],
  ◌∷◌, ◌++◌, arith, length, take, drop, inl, inr, Bool-cases,
}
use kryvaracode.Nerve.{
  SystemEvent, EventBus, FileSystemEvent, subscribe, emit, file_event, dispatch_one, cancel_loop,
  stop, on_modified, on_created,
}
use kryvaracode.Nerve.Delivery.{
  calls_of, calls, drain, HasSubscribed, one_round, dispatch_one-one_round,
}

zero_or_suc : (n : ℕ) → (n ≡ 0) ⊎ ((m : ℕ) × (n ≡ suc m))
zero_or_suc zero = inl refl
zero_or_suc (suc m) = inr (m, refl)

queue-cases :
    (q : List SystemEvent)
    → (q ≡ []) ⊎ ((e : SystemEvent) × (rest : List SystemEvent) × (q ≡ e ∷ rest))
queue-cases [] = inl refl
queue-cases (e ∷ rest) = inr (e, rest, refl)

-- What goes on around a loop, without another start.
pub data Event : Type 0 where
  emitted : SystemEvent → Event
  modified created : FileSystemEvent → ℕ → Event
  subscribed : String → ℕ → Event
  dispatched cancelled stopped : Event

unfoldable pub react : Event → EventBus → EventBus
react (emitted event) bus = emit event bus
react (modified event now) bus = on_modified event now bus
react (created event now) bus = on_created event now bus
react (subscribed event_type callback) bus = subscribe event_type callback bus
react dispatched bus = dispatch_one bus
react cancelled bus = cancel_loop bus
react stopped bus = stop bus

unfoldable pub reacts : List Event → EventBus → EventBus
unfolding react
reacts [] bus = bus
reacts (e ∷ es) bus = reacts es (react e bus)

-- One if the next round handles an event.
abbrev pub rounds : EventBus → ℕ
rounds bus = elim bus.loops [ zero ↦ 0 | suc _ ↦ elim bus.event_queue [ [] ↦ 0 | ◌∷◌ _ _ ↦ 1 ] ]

dispatch_one-loops :
    (bus : EventBus)
    → bus.running ≡ false
    → ((dispatch_one bus).running ≡ false) × (rounds bus + (dispatch_one bus).loops ≤ bus.loops)
unfolding dispatch_one
dispatch_one-loops bus r = elim (zero_or_suc bus.loops) [
  | inl l ↦ rw l (r, omega (arith, l))
  | inr (n, l) ↦ elim (queue-cases bus.event_queue) [
    | inl q ↦ rw (l, q) (r, omega (arith, l))
    | inr (event, rest, q) ↦ rw (l, q, r) (refl, omega arith)
  ]
]

cancel_loop-loops :
    (bus : EventBus)
    → bus.running ≡ false
    → ((cancel_loop bus).running ≡ false) × ((cancel_loop bus).loops ≤ bus.loops)
unfolding cancel_loop
cancel_loop-loops bus r = elim (zero_or_suc bus.loops) [
  | inl l ↦ rw l (r, omega (arith, l))
  | inr (n, l) ↦ rw l (refl, omega arith)
]

-- The number of rounds that handle an event.
pub handled : List Event → EventBus → ℕ
handled [] bus = 0
handled (e ∷ es) bus =
    let later = handled es (react e bus) in elim e [ dispatched ↦ later + rounds bus | _ ↦ later ]

handled-le_loops :
    (es : List Event) (bus : EventBus)
    → bus.running ≡ false
    → (handled es bus + (reacts es bus).loops ≤ bus.loops)
unfolding handled reacts stop emit subscribe on_modified on_created
handled-le_loops [] bus r = omega arith
handled-le_loops (emitted event ∷ es) bus r = handled-le_loops es (emit event bus) r
handled-le_loops (modified event now ∷ es) bus r = elim (Bool-cases event.is_directory) [
  | inl e ↦ rw e (handled-le_loops es bus r)
  | inr e ↦
      rw e (handled-le_loops es (emit (file_event "file_modified" "modified" event now) bus) r)
]
handled-le_loops (created event now ∷ es) bus r =
    handled-le_loops es (emit (file_event "file_created" "created" event now) bus) r
handled-le_loops (subscribed event_type callback ∷ es) bus r =
    handled-le_loops es (subscribe event_type callback bus) r
handled-le_loops (stopped ∷ es) bus r = handled-le_loops es (stop bus) refl
handled-le_loops (cancelled ∷ es) bus r =
    let (halted, fewer) = cancel_loop-loops bus r in
    omega (arith, handled-le_loops es (cancel_loop bus) halted, fewer)
handled-le_loops (dispatched ∷ es) bus r =
    let (halted, fewer) = dispatch_one-loops bus r in
    omega (arith, handled-le_loops es (dispatch_one bus) halted, fewer)

-- Events that are emitted one after the other.
unfoldable pub emit_all : List SystemEvent → EventBus → EventBus
emit_all [] bus = bus
emit_all (event ∷ events) bus = emit_all events (emit event bus)

emit_all_lem :
    (events : List SystemEvent) (bus : EventBus)
    → emit_all events bus ≡ record bus { event_queue = bus.event_queue ++ events }
unfolding emit_all emit
emit_all_lem [] bus = ap (λ q. record bus { event_queue = q }) (sym (append-nil bus.event_queue))
emit_all_lem (event ∷ events) bus =
    emit_all_lem events (emit event bus)
    ∙ ap (λ q. record bus { event_queue = q }) (append_assoc bus.event_queue (event ∷ []) events)

take_nil : (n : ℕ) → take {A = SystemEvent} n [] ≡ []
take_nil zero = refl
take_nil (suc n) = refl

drop_nil : (n : ℕ) → drop {A = SystemEvent} n [] ≡ []
drop_nil zero = refl
drop_nil (suc n) = refl

-- What rounds of a stopped bus do: as many events as there are waiting loops, rounds and events.
abbrev pub Handles :
    List (String × ℕ) → ℕ → List (ℕ × SystemEvent) → ℕ → List SystemEvent → EventBus → Type 0
Handles subscriptions rounds called loops queue after =
    (after.called ≡ called ++ calls (take (min rounds loops) queue) subscriptions)
    × (after.event_queue ≡ drop (min rounds loops) queue)
    × (after.loops ≡ loops - min rounds (length queue))

drain-Handles :
    (subscriptions : List (String × ℕ)) (k n : ℕ) (q : List SystemEvent) (bus : EventBus)
    → HasSubscribed subscriptions bus
    → bus.running ≡ false
    → bus.loops ≡ n
    → bus.event_queue ≡ q
    → Handles subscriptions k bus.called n q (drain k bus)
unfolding drain dispatch_one
drain-Handles subscriptions zero n q bus s r l e =
    let none_left : min 0 n ≡ 0 = omega arith in
    rw none_left (sym (append-nil bus.called), e, omega (arith, l))
drain-Handles subscriptions (suc k) zero q bus s r l e =
    let idle : dispatch_one bus ≡ bus = rw l refl in
    let fewer : min (suc k) 0 ≡ min k 0 = omega arith in
    let (called, queue, loops) = drain-Handles subscriptions k 0 q bus s r l e in
    subst (λ b. Handles subscriptions (suc k) bus.called 0 q (drain k b)) (sym idle)
      (rw fewer (called, queue, omega (arith, loops)))
drain-Handles subscriptions (suc k) (suc n) [] bus s r l e =
    let idle : dispatch_one bus ≡ bus = ground (arith, l, e) in
    let (called, queue, loops) = drain-Handles subscriptions k (suc n) [] bus s r l e in
    let part = λ (m : ℕ). ap (λ t. bus.called ++ calls t subscriptions) (take_nil m) in
    subst (λ b. Handles subscriptions (suc k) bus.called (suc n) [] (drain k b)) (sym idle)
      (
        called ∙ part (min k (suc n)) ∙ sym (part (min (suc k) (suc n))),
        queue ∙ drop_nil (min k (suc n)) ∙ sym (drop_nil (min (suc k) (suc n))),
        omega (arith, loops),
      )
drain-Handles subscriptions (suc k) (suc n) (event ∷ q) bus s r l e =
    let next = one_round subscriptions event q n bus in
    let step = dispatch_one-one_round subscriptions event q n bus s l e in
    let ended : next.loops ≡ n = rw r refl in
    let more : min (suc k) (suc n) ≡ suc (min k n) = omega arith in
    let (called, queue, loops) = drain-Handles subscriptions k n q next s r ended refl in
    let mine = calls_of subscriptions event in
    subst (λ b. Handles subscriptions (suc k) bus.called (suc n) (event ∷ q) (drain k b)) (sym step)
      (rw more (
        called ∙ append_assoc bus.called mine (calls (take (min k n) q) subscriptions),
        queue,
        omega (arith, loops),
      ))

-- After `stop` each loop that waits still handles one event if one comes, and then ends: with events that
-- are queued or emitted later, the next rounds handle the first events, in their order and with all the
-- calls for each, up to the number of the loops that waited, and each of these rounds ends one loop. And
-- in no order of emissions, file events, subscriptions, rounds, cancellations and stops, without another
-- start, do rounds handle more events than loops waited.
pub stop-handled :
    (subscriptions : List (String × ℕ)) (later : List SystemEvent) (rounds : ℕ) (bus : EventBus)
    → HasSubscribed subscriptions bus
    → Handles subscriptions rounds bus.called bus.loops
        (bus.event_queue ++ later)
        (drain rounds (emit_all later (stop bus)))
      × ((es : List Event) → handled es (stop bus) ≤ bus.loops)
unfolding stop
stop-handled subscriptions later rounds bus s =
    let queued = record (stop bus) { event_queue = bus.event_queue ++ later } in
    let emitted = emit_all_lem later (stop bus) in
    (
      rw emitted (
          drain-Handles subscriptions rounds bus.loops (bus.event_queue ++ later) queued s refl refl
            refl),
      λ es. omega (arith, handled-le_loops es (stop bus) refl),
    )
