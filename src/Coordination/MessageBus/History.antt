-- ===== src/Coordination/MessageBus/History.antt =====
-- message_bus.py: what a request for the history answers.
use kryvaracode.Common.{
  ℕ, ◌≡◌, String, Option, none, some, List, ◌++◌, if◌then◌else◌, length, keep, eqb, min, ◌==◌,
  last_slice_suffix, length-last_slice,
}
use kryvaracode.Coordination.MessageBus.{Message, MessageBus, get_history}

module _ {P : Type 0} where
  -- The dispatched messages that a history request is about.
  abbrev pub chosen : Option String → List (Message P) → List (Message P)
  chosen none ms = ms
  chosen (some topic) ms = keep (λ m. m.topic == topic) ms

  -- A history request answers an end of the kept messages of its topic, or of all of them. A
  -- positive limit bounds the answer, and shorter histories come whole; the limit 0 bounds
  -- nothing: it answers all.
  get_history-suffix :
      (topic : Option String) (limit : ℕ) (bus : MessageBus P)
      → ((older : List (Message P)) × (chosen topic bus.history
            ≡ older ++ get_history topic limit bus))
        × (length (get_history topic limit bus) ≡ (
            if eqb limit 0
            then length (chosen topic bus.history)
            else min limit (length (chosen topic bus.history))))
  unfolding get_history
  get_history-suffix none limit bus =
      (last_slice_suffix limit bus.history, length-last_slice limit bus.history)
  get_history-suffix (some t) limit bus =
      let kept = keep (λ m. m.topic == t) bus.history in
      (last_slice_suffix limit kept, length-last_slice limit kept)
