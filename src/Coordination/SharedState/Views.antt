-- ===== src/Coordination/SharedState/Views.antt =====
-- shared_state.py: what the store promises to a reader is a map from keys to values at an instant.
-- The reading methods answer from it, and the removals that they make do not change it.
use mathlib.Core.Option
use kryvaracode.Common.{
  ℕ, ◌≤◌, String, ◌≡◌, true, Option, none, some, arith, eq_iff, if◌then◌else◌, is_some,
  Option-cases, inl, inr,
}
use kryvaracode.Common.Dict.{lookup, lookup-without}
use kryvaracode.Coordination.SharedState.{
  StateEntry, SharedState, is_expired, delete_unlocked, get, get_entry, exists,
}

module _ {V : Type 0} where
  -- The value of an entry, unless it is expired.
  abbrev pub live : Option (StateEntry V) → ℕ → Option V
  live none now = none
  live (some e) now = if is_expired e now then none else some e.value

  abbrev pub view : SharedState V → ℕ → String → Option V
  view s now k = live (lookup k s.store) now

  -- What is expired stays expired as time goes on.
  pub is_expired_mono :
      (e : StateEntry V) (now later : ℕ)
      → now ≤ later
      → is_expired e now ≡ true
      → is_expired e later ≡ true
  unfolding is_expired
  is_expired_mono e now later h x = ground arith

  view-delete_unlocked :
      (k j : String) (now later : ℕ) (s : SharedState V) (e : StateEntry V)
      → now ≤ later
      → lookup k s.store ≡ some e
      → is_expired e now ≡ true
      → view (delete_unlocked k s) later j ≡ view s later j
  unfolding delete_unlocked
  view-delete_unlocked k j now later s e h found x =
      ground (arith, eq_iff k j, lookup-without k j s.store, is_expired_mono e now later)

  -- A reader of a key: the answers of `get`, `get_entry` and `exists` are those of the view.
  reads-eq-view :
      (k : String) (now : ℕ) (s : SharedState V)
      → ((get k now s).1 ≡ view s now k)
        × (Option.map (λ e. e.value) (get_entry k now s).1 ≡ view s now k)
        × ((exists k now s).1 ≡ is_some (view s now k))
        × ((get_entry k now s).0 ≡ (get k now s).0)
        × ((exists k now s).0 ≡ (get k now s).0)
  unfolding get get_entry exists
  reads-eq-view k now s = (ground arith, ground arith, ground arith, ground arith, ground arith)

  -- Reading a key changes nothing that can be read, of any key, then or later, and it logs and
  -- notifies nothing, although it may remove the key's expired entry.
  get-keeps_views :
      (k j : String) (now later : ℕ) (s : SharedState V)
      → now ≤ later
      → (view (get k now s).0 later j ≡ view s later j)
        × ((get k now s).0.change_log ≡ s.change_log)
        × ((get k now s).0.notified ≡ s.notified)
  unfolding get
  get-keeps_views k j now later s h = elim (Option-cases (lookup k s.store)) [
    | inl e ↦ (ground arith, ground arith, ground arith)
    | inr (entry, e) ↦
        (ground (arith, view-delete_unlocked k j now later s entry), ground arith, ground arith)
  ]
