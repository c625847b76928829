-- ===== src/Coordination/SharedState/Versions.antt =====
-- shared_state.py: the version of a key, from write to write.
use kryvaracode.Common.{
  ℕ, ◌+◌, ◌≤◌, String, ◌≡◌, refl, ap, Bool, Option, none, some, List, ◌++◌, map, arith, eq_iff,
  ◌==◌, if◌then◌else◌, Option-cases, Bool-cases, inl, inr, ◌⊎◌, push_bounded, keep,
}
use kryvaracode.Common.Dict.{Dict, values, lookup, lookup-insert, lookup-without}
use kryvaracode.Common.Dict.Sweep.{delete_all, keys_where, lookup-delete_all}
use kryvaracode.Coordination.SharedState.{
  StateEntry, StateChangeEvent, SharedState, set_change, is_expired, delete_unlocked, announce,
  written, set, old_of, get, delete, sweep_expired_unlocked, keys, clear, bumped, overwrite,
  atomic_update, compare_and_set, observe, unobserve, cleanup_expired, log_limit,
}
use kryvaracode.Coordination.SharedState.Sweeps.{announce_expired-effects}
use kryvaracode.Coordination.SharedState.Log.{
  Call, write, read, remove, list_keys, clear_all, update, swap, watch, unwatch, cleanup, step,
}

-- A version is gone, or it has not fallen.
abbrev pub Rises : ℕ → ℕ → Type 0
Rises n m = (m ≡ 0) ⊎ (n ≤ m)

module _ {V : Type 0} where
  -- The version under a key; 0 where there is no entry.
  abbrev pub version_of : Dict (StateEntry V) → String → ℕ
  version_of m k = elim (lookup k m) [ none ↦ 0 | some e ↦ e.version ]

  -- The event that a `set` of a key announces, for the version that it wrote.
  abbrev pub set_event : String → String → V → ℕ → SharedState V → ℕ → StateChangeEvent V
  set_event k source v now s version = record {
    change_type = set_change;
    key = k;
    value = some v;
    old_value = old_of (lookup k s.store);
    version = version;
    timestamp = now;
    source = source;
  }

  version-written :
      (k source : String) (v : V) (ttl : Option ℕ) (now : ℕ) (s : SharedState V)
      → (written (lookup k s.store) k v source ttl now).version ≡ version_of s.store k + 1
  unfolding written
  version-written k source v ttl now s = elim (Option-cases (lookup k s.store)) [
    | inl e ↦ ground arith
    | inr (old, e) ↦ ground arith
  ]

  -- A `set` raises the version of its key by one, from 0 for a new key, and leaves the versions
  -- of the other keys. It logs one event, with the new version, the new value and the value that
  -- was overwritten, and calls every observer once with that event, in their order.
  set-set_event :
      (k source : String) (v : V) (ttl : Option ℕ) (now : ℕ) (s : SharedState V)
      → ((j : String)
          → version_of (set k v source ttl now s).0.store j
            ≡ (if k == j then version_of s.store k + 1 else version_of s.store j))
        × ((set k v source ttl now s).0.change_log
            ≡ push_bounded log_limit s.change_log
                (set_event k source v now s (version_of s.store k + 1)))
        × ((set k v source ttl now s).0.notified
            ≡ s.notified
              ++ map (λ o. (o, set_event k source v now s (version_of s.store k + 1))) s.observers)
  unfolding set announce
  set-set_event k source v ttl now s =
      let new = written (lookup k s.store) k v source ttl now in
      let version = version-written k source v ttl now s in
      (
        λ j. ground (arith, eq_iff k j, lookup-insert k j new s.store, version),
        ap (λ n. push_bounded log_limit s.change_log (set_event k source v now s n)) version,
        ap (λ n. s.notified ++ map (λ o. (o, set_event k source v now s n)) s.observers) version,
      )

  Rises-without :
      (k j : String) (s : SharedState V)
      → Rises (version_of s.store j) (version_of (delete_unlocked k s).store j)
  unfolding delete_unlocked
  Rises-without k j s = ground (arith, lookup-without k j s.store)

  Rises-delete_all :
      (ids : List String) (j : String) (m : Dict (StateEntry V))
      → Rises (version_of m j) (version_of (delete_all ids m) j)
  Rises-delete_all ids j m = ground (arith, lookup-delete_all ids m j)

  Rises-overwrite :
      (k j source : String) (v : V) (now : ℕ) (s : SharedState V) (e : StateEntry V)
      → lookup k s.store ≡ some e
      → Rises (version_of s.store j) (version_of (overwrite k e v source now s).store j)
  unfolding overwrite
  Rises-overwrite k j source v now s e found =
      ground (arith, eq_iff k j, lookup-insert k j (bumped e v source now) s.store)

  module _ (s : SharedState V) (j : String) where
    -- No version of a key in the store has fallen.
    abbrev Keeps : SharedState V → Type 0
    Keeps t = Rises (version_of s.store j) (version_of t.store j)

    get-Keeps : (k : String) (now : ℕ) → Keeps (get k now s).0
    unfolding get
    get-Keeps k now = elim (Option-cases (lookup k s.store)) [
      | inl e ↦ rw (e, get) (inr (omega arith))
      | inr (entry, e) ↦ elim (Bool-cases (is_expired entry now)) [
        | inl x ↦ rw (e, get, x) (Rises-without k j s)
        | inr x ↦ rw (e, get, x) (inr (omega arith))
      ]
    ]

    delete-Keeps : (k source : String) (now : ℕ) → Keeps (delete k source now s).0
    unfolding delete announce
    delete-Keeps k source now = elim (Option-cases (lookup k s.store)) [
      | inl e ↦ rw (e, delete) (inr (omega arith))
      | inr (entry, e) ↦ rw (e, delete) (Rises-without k j s)
    ]

    atomic_update-Keeps :
        (k : String) (f : V → Option V) (source : String) (now : ℕ)
        → Keeps (atomic_update k f source now s).0
    unfolding atomic_update
    atomic_update-Keeps k f source now = elim (Option-cases (lookup k s.store)) [
      | inl e ↦ rw (e, atomic_update) (inr (omega arith))
      | inr (entry, e) ↦ elim (Bool-cases (is_expired entry now)) [
        | inl x ↦ rw (e, atomic_update, x) (Rises-without k j s)
        | inr x ↦ elim (Option-cases (f entry.value)) [
          | inl r ↦ rw (e, atomic_update, x, r) (inr (omega arith))
          | inr (w, r) ↦ rw (e, atomic_update, x, r) (Rises-overwrite k j source w now s entry e)
        ]
      ]
    ]

    compare_and_set-Keeps :
        (differs : V → V → Bool) (k : String) (expected w : V) (source : String) (now : ℕ)
        → Keeps (compare_and_set differs k expected w source now s).0
    unfolding compare_and_set
    compare_and_set-Keeps differs k expected w source now = elim (Option-cases (lookup k s.store)) [
      | inl e ↦ rw (e, compare_and_set) (inr (omega arith))
      | inr (entry, e) ↦ elim (Bool-cases (is_expired entry now)) [
        | inl x ↦ rw (e, compare_and_set, x) (Rises-without k j s)
        | inr x ↦ elim (Bool-cases (differs entry.value expected)) [
          | inl r ↦ rw (e, compare_and_set, x, r) (inr (omega arith))
          | inr r ↦ rw (e, compare_and_set, x, r) (Rises-overwrite k j source w now s entry e)
        ]
      ]
    ]

    sweep-Keeps : (now : ℕ) → Keeps (sweep_expired_unlocked now s)
    unfolding sweep_expired_unlocked
    sweep-Keeps now = Rises-delete_all (keys_where (λ e. is_expired e now) s.store) j s.store

    cleanup_expired-Keeps : (now : ℕ) → Keeps (cleanup_expired now s)
    unfolding cleanup_expired
    cleanup_expired-Keeps now =
        let swept = sweep_expired_unlocked now s in
        let expired = keep (λ e. is_expired e now) (values s.store) in
        rw ((announce_expired-effects expired now swept).0) (sweep-Keeps now)

  -- No call lowers the version of a key that it leaves in the store.
  step-Rises :
      (c : Call V) (s : SharedState V) (j : String)
      → Rises (version_of s.store j) (version_of (step c s).store j)
  unfolding step keys clear observe unobserve
  step-Rises (write k v source ttl now) s j =
      ground (arith, (set-set_event k source v ttl now s).0 j, eq_iff k j)
  step-Rises (read k now) s j = get-Keeps s j k now
  step-Rises (remove k source now) s j = delete-Keeps s j k source now
  step-Rises (list_keys now) s j = sweep-Keeps s j now
  step-Rises clear_all s j = inl (unfold lookup in refl)
  step-Rises (update k f source now) s j = atomic_update-Keeps s j k f source now
  step-Rises (swap differs k expected v source now) s j =
      compare_and_set-Keeps s j differs k expected v source now
  step-Rises (watch o) s j = inr (omega arith)
  step-Rises (unwatch o) s j = inr (omega arith)
  step-Rises (cleanup now) s j = cleanup_expired-Keeps s j now
