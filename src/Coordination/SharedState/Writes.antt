-- ===== src/Coordination/SharedState/Writes.antt =====
-- shared_state.py: the writing methods as updates of the map that a reader sees.
use kryvaracode.Common.{
  ℕ, ◌-◌, String, ◌≡◌, Bool, true, false, not, ◌&&◌, Option, none, some, arith, eq_iff, ◌==◌,
  if◌then◌else◌, is_some, ltb, Option-cases, inl, inr,
}
use kryvaracode.Common.Dict.{lookup, lookup-insert, lookup-without}
use kryvaracode.Coordination.SharedState.{
  StateEntry, SharedState, Update, missing, raised, updated, is_expired, written, set, delete,
  bumped, atomic_update, compare_and_set,
}
use kryvaracode.Coordination.SharedState.Views.{view}

-- The lifetime of a value written at `now`.
abbrev pub lives : Option ℕ → ℕ → ℕ → Bool
lives none now later = true
lives (some ttl) now later = not (ltb ttl (later - now))

module _ {V : Type 0} where
  -- The time-to-live that is in force after a `set`: the new one, or else that of the old entry,
  -- expired or not.
  abbrev pub effective_ttl : SharedState V → String → Option ℕ → Option ℕ
  effective_ttl s k (some ttl) = some ttl
  effective_ttl s k none = elim (lookup k s.store) [ none ↦ none | some e ↦ e.ttl_seconds ]

  lookup-set :
      (k j source : String) (v : V) (ttl : Option ℕ) (now : ℕ) (s : SharedState V)
      → lookup j (set k v source ttl now s).0.store ≡ (
          if k == j then some (written (lookup k s.store) k v source ttl now) else lookup j s.store)
  unfolding set
  lookup-set k j source v ttl now s =
      lookup-insert k j (written (lookup k s.store) k v source ttl now) s.store

  -- A `set` without a time-to-live leaves the one in force on each key as it is.
  pub effective_ttl-set :
      (k j source : String) (v : V) (now : ℕ) (s : SharedState V)
      → effective_ttl (set k v source none now s).0 j none ≡ effective_ttl s j none
  unfolding written
  effective_ttl-set k j source v now s = elim (Option-cases (lookup k s.store)) [
    | inl e ↦ ground (arith, eq_iff k j, lookup-set k j source v none now s)
    | inr (old, e) ↦ ground (arith, eq_iff k j, lookup-set k j source v none now s)
  ]

  -- After a `set`, a later reader sees the value under its key until its time-to-live has passed,
  -- and every other key as if nothing had been written.
  pub view-set :
      (k j source : String) (v : V) (ttl : Option ℕ) (now later : ℕ) (s : SharedState V)
      → view (set k v source ttl now s).0 later j ≡ (
          if k == j
          then (if lives (effective_ttl s k ttl) now later then some v else none)
          else view s later j)
  unfolding set is_expired written
  view-set k j source v none now later s = ground (
    arith,
    eq_iff k j,
    lookup-insert k j (written (lookup k s.store) k v source none now) s.store,
  )
  view-set k j source v (some ttl) now later s = ground (
    arith,
    eq_iff k j,
    lookup-insert k j (written (lookup k s.store) k v source (some ttl) now) s.store,
  )

  -- `delete` answers whether the key stands in the store, expired or not, and afterwards a reader
  -- sees nothing under it and every other key as before.
  view-delete :
      (k j source : String) (now later : ℕ) (s : SharedState V)
      → ((delete k source now s).1 ≡ is_some (lookup k s.store))
        × (view (delete k source now s).0 later j ≡ (if k == j then none else view s later j))
  unfolding delete
  view-delete k j source now later s =
      (ground arith, ground (arith, eq_iff k j, lookup-without k j s.store))

  is_expired-bumped :
      (e : StateEntry V) (v : V) (source : String) (now : ℕ)
      → is_expired (bumped e v source now) now ≡ false
  unfolding is_expired
  is_expired-bumped e v source now = ground arith

  -- Whether a compare-and-set at an instant goes through, by the map that a reader sees.
  abbrev pub matches : (V → V → Bool) → Option V → V → Bool
  matches differs none expected = false
  matches differs (some v) expected = not (differs v expected)

  -- `compare_and_set` succeeds exactly when the key has a live value that equals the expected
  -- one. Then a reader sees the new value under the key, and all else as before; if it fails, a
  -- reader sees no change at all.
  pub view-compare_and_set :
      (differs : V → V → Bool) (k j source : String) (expected v : V) (now : ℕ) (s : SharedState V)
      → ((compare_and_set differs k expected v source now s).1
          ≡ matches differs (view s now k) expected)
        × (view (compare_and_set differs k expected v source now s).0 now j
            ≡ (if matches differs (view s now k) expected && k == j then some v else view s now j))
  unfolding compare_and_set
  view-compare_and_set differs k j source expected v now s =
      elim (Option-cases (lookup k s.store)) [
        | inl e ↦ (ground arith, ground arith)
        | inr (entry, e) ↦ (
          ground arith,
          ground (
            arith,
            eq_iff k j,
            lookup-without k j s.store,
            lookup-insert k j (bumped entry v source now) s.store,
            is_expired-bumped entry v source now,
          ),
        )
      ]

  -- The answer of an updater that found a value.
  abbrev pub answer : Option V → Update V
  answer none = raised
  answer (some v) = updated v

  abbrev pub apply_updater : (V → Option V) → Option V → Update V
  apply_updater f none = missing
  apply_updater f (some v) = answer (f v)

  -- The value that a key has for a reader after an update with this answer.
  abbrev pub after : Option V → Update V → Option V
  after old (updated v) = some v
  after old _ = old

  -- `atomic_update` applies the updater to the value that a reader sees. Where it returns, the
  -- reader sees what it returned; where the key is missing or expired, or the updater raises, a
  -- reader sees no change. Other keys never change.
  pub view-atomic_update :
      (f : V → Option V) (k j source : String) (now : ℕ) (s : SharedState V)
      → ((atomic_update k f source now s).1 ≡ apply_updater f (view s now k))
        × (view (atomic_update k f source now s).0 now j ≡ (
            if k == j then after (view s now k) (apply_updater f (view s now k)) else view s now j))
  unfolding atomic_update
  view-atomic_update f k j source now s = elim (Option-cases (lookup k s.store)) [
    | inl e ↦ (ground arith, ground (arith, eq_iff k j))
    | inr (entry, e) ↦ elim (Option-cases (f entry.value)) [
      | inl r ↦ (ground arith, ground (arith, eq_iff k j, lookup-without k j s.store))
      | inr (v, r) ↦ (
        ground arith,
        ground (
          arith,
          eq_iff k j,
          lookup-without k j s.store,
          lookup-insert k j (bumped entry v source now) s.store,
          is_expired-bumped entry v source now,
        ),
      )
    ]
  ]
