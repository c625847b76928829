-- ===== src/Coordination/SharedState/Sweeps.antt =====
-- shared_state.py: `keys`, `items` and `_cleanup_expired`, which remove every expired entry.
use mathlib.Core.Option
use mathlib.Core.List.{append_assoc, append-nil}
use kryvaracode.Common.{
  ℕ, ◌≤◌, String, ◌≡◌, refl, none, some, List, [], ◌∷◌, ◌++◌, map, arith, if◌then◌else◌, is_some,
  keep, Option-cases, inl, inr,
}
use kryvaracode.Common.Dict.{Dict, lookup, values, IsDistinct, member, member-keys}
use kryvaracode.Common.Dict.Sweep.{
  keys_where, lookup-delete_all, member-keys_where, delete_all-keys_where, others,
}
use kryvaracode.Coordination.SharedState.{
  StateEntry, StateChangeEvent, SharedState, is_expired, sweep_expired_unlocked, keys, items,
  expiry_event, announce, announce_expired, cleanup_expired,
}
use kryvaracode.Coordination.SharedState.Views.{view, is_expired_mono}

module _ {V : Type 0} where
  lookup-sweep :
      (now : ℕ) (s : SharedState V) (j : String)
      → IsDistinct s.store
      → lookup j (sweep_expired_unlocked now s).store ≡ (elim (lookup j s.store) [
        | none ↦ none
        | some e ↦ if is_expired e now then none else some e
      ])
  unfolding sweep_expired_unlocked
  lookup-sweep now s j d =
      let p = λ (e : StateEntry V). is_expired e now in
      ground
        (arith, lookup-delete_all (keys_where p s.store) s.store j, member-keys_where p j s.store d)

  view-sweep :
      (now later : ℕ) (s : SharedState V) (j : String)
      → IsDistinct s.store
      → now ≤ later
      → view (sweep_expired_unlocked now s) later j ≡ view s later j
  view-sweep now later s j d h = elim (Option-cases (lookup j s.store)) [
    | inl e ↦ ground (arith, lookup-sweep now s j d)
    | inr (entry, e) ↦ ground (arith, lookup-sweep now s j d, is_expired_mono entry now later)
  ]

  lookup-values :
      (m : Dict (StateEntry V)) (j : String)
      → lookup j (map (λ e. (e.0, e.1.value)) m) ≡ Option.map (λ e. e.value) (lookup j m)
  unfolding lookup
  lookup-values [] j = refl
  lookup-values ((k, e) ∷ m) j = ground (arith, lookup-values m j)

  -- `keys` answers exactly the keys that a reader sees a value under, and `items` is the map that
  -- a reader sees; neither changes that map, then or later.
  pub snapshot-eq-view :
      (now later : ℕ) (s : SharedState V) (j : String)
      → IsDistinct s.store
      → now ≤ later
      → (member j (keys now s).1 ≡ is_some (view s now j))
        × (lookup j (items now s).1 ≡ view s now j)
        × (view (keys now s).0 later j ≡ view s later j)
        × (view (items now s).0 later j ≡ view s later j)
  unfolding keys items
  snapshot-eq-view now later s j d h =
      let s' = sweep_expired_unlocked now s in
      let swept = lookup-sweep now s j d in
      (
        ground (arith, member-keys s'.store j, swept),
        ground (arith, lookup-values s'.store j, swept),
        view-sweep now later s j d h,
        view-sweep now later s j d h,
      )

  -- The calls of observers for a list of expired entries: all observers for one, then the next.
  abbrev pub expiry_calls : List (StateEntry V) → List ℕ → ℕ → List (ℕ × StateChangeEvent V)
  expiry_calls [] obs now = []
  expiry_calls (e ∷ es) obs now = map (λ o. (o, expiry_event e now)) obs ++ expiry_calls es obs now

  pub announce_expired-effects :
      (es : List (StateEntry V)) (now : ℕ) (s : SharedState V)
      → ((announce_expired es now s).store ≡ s.store)
        × ((announce_expired es now s).notified ≡ s.notified ++ expiry_calls es s.observers now)
  unfolding announce_expired announce
  announce_expired-effects [] now s = (refl, rw append-nil)
  announce_expired-effects (e ∷ es) now s =
      let ih = announce_expired-effects es now (announce (expiry_event e now) s) in
      (ih.0, rw (ih.1, append_assoc))

  -- A cleanup removes exactly the expired entries, keeps the order of the others, and tells every
  -- observer of each removed entry once, entry by entry in the order of the store.
  cleanup_expired-effects :
      (now : ℕ) (s : SharedState V)
      → IsDistinct s.store
      → ((cleanup_expired now s).store ≡ others (λ e. is_expired e now) s.store)
        × ((cleanup_expired now s).notified
            ≡ s.notified
              ++ expiry_calls (keep (λ e. is_expired e now) (values s.store)) s.observers now)
  unfolding cleanup_expired
  cleanup_expired-effects now s d =
      let p = λ (e : StateEntry V). is_expired e now in
      let (stored, told) =
        announce_expired-effects (keep p (values s.store)) now (sweep_expired_unlocked now s) in
      (rw stored (unfold sweep_expired_unlocked in delete_all-keys_where p s.store d), told)
