-- ===== src/Coordination/SharedState/Log.antt =====
-- shared_state.py: the calls on a store, and what holds of the store after any of them.
use kryvaracode.Common.{
  ℕ, ◌≤◌, String, ◌≡◌, refl, Bool, Option, some, List, [], ◌∷◌, ◌++◌, arith, if◌then◌else◌, min,
  eqb, keep, length, length-push_bounded, last_slice_suffix, length-last_slice, Option-cases,
  Bool-cases, inl, inr,
}
use kryvaracode.Common.Dict.{lookup, insert, values, IsDistinct, insert-IsDistinct}
use kryvaracode.Common.Dict.Sweep.{
  AllAt, AllAt-nil, AllAt-insert, AllAt-delete_all, delete_all, keys_where, delete_all-IsDistinct,
}
use kryvaracode.Coordination.SharedState.{
  StateEntry, StateChangeEvent, SharedState, log_limit, new_state, is_expired, delete_unlocked,
  announce, written, set, get, delete, sweep_expired_unlocked, keys, clear, bumped, overwrite,
  atomic_update, compare_and_set, observe, unobserve, get_change_history, announce_expired,
  expiry_event, cleanup_expired,
}

-- The calls of `get_entry` and `exists` act on the store as `get` does, and those of `items` as
-- `keys` does.
pub data Call (V : Type 0) : Type 0 where
  write : String → V → String → Option ℕ → ℕ → Call V
  read : String → ℕ → Call V
  remove : String → String → ℕ → Call V
  list_keys : ℕ → Call V
  clear_all : Call V
  update : String → (V → Option V) → String → ℕ → Call V
  swap : (V → V → Bool) → String → V → V → String → ℕ → Call V
  watch unwatch : ℕ → Call V
  cleanup : ℕ → Call V

module _ {V : Type 0} where
  unfoldable pub step : Call V → SharedState V → SharedState V
  step (write k v source ttl now) s = (set k v source ttl now s).0
  step (read k now) s = (get k now s).0
  step (remove k source now) s = (delete k source now s).0
  step (list_keys now) s = (keys now s).0
  step clear_all s = (clear s).0
  step (update k f source now) s = (atomic_update k f source now s).0
  step (swap differs k expected v source now) s =
      (compare_and_set differs k expected v source now s).0
  step (watch o) s = observe o s
  step (unwatch o) s = unobserve o s
  step (cleanup now) s = cleanup_expired now s

  unfoldable pub steps : List (Call V) → SharedState V → SharedState V
  unfolding step
  steps [] s = s
  steps (c ∷ cs) s = steps cs (step c s)

  -- An entry stands under its own key, and its version is at least 1.
  abbrev pub IsNamed : String → StateEntry V → Type 0
  IsNamed k e = (e.key ≡ k) × (1 ≤ e.version)

  pub record IsValid (s : SharedState V) : Type 0 where
    pub distinct : IsDistinct s.store
    pub named : AllAt IsNamed s.store
    pub bounded : length s.change_log ≤ log_limit

  new_state-IsValid : IsValid new_state
  unfolding new_state
  new_state-IsValid = record { distinct = tt; named = AllAt-nil; bounded = omega arith }

  announce-IsValid :
      (event : StateChangeEvent V) (s : SharedState V) → IsValid s → IsValid (announce event s)
  unfolding announce
  announce-IsValid event s v = record {
    distinct = v.distinct;
    named = v.named;
    bounded = omega (arith, length-push_bounded log_limit s.change_log event);
  }

  insert-IsValid :
      (k : String) (e : StateEntry V) (s : SharedState V)
      → IsNamed k e
      → IsValid s
      → IsValid (record s { store = insert k e s.store })
  insert-IsValid k e s n v = record {
    distinct = insert-IsDistinct k e s.store v.distinct;
    named = AllAt-insert k e s.store n v.named;
    bounded = v.bounded;
  }

  delete_all-IsValid :
      (ids : List String) (s : SharedState V)
      → IsValid s
      → IsValid (record s { store = delete_all ids s.store })
  delete_all-IsValid ids s v = record {
    distinct = delete_all-IsDistinct ids s.store v.distinct;
    named = AllAt-delete_all ids s.store v.named;
    bounded = v.bounded;
  }

  delete_unlocked-IsValid :
      (k : String) (s : SharedState V) → IsValid s → IsValid (delete_unlocked k s)
  unfolding delete_unlocked delete_all
  delete_unlocked-IsValid k s v = delete_all-IsValid (k ∷ []) s v

  overwrite-IsValid :
      (k : String) (e : StateEntry V) (v : V) (source : String) (now : ℕ) (s : SharedState V)
      → lookup k s.store ≡ some e
      → IsValid s
      → IsValid (overwrite k e v source now s)
  unfolding overwrite
  overwrite-IsValid k e v source now s found valid =
      announce-IsValid _ _ (
        insert-IsValid k (bumped e v source now) s ((valid.named.at k e found).0, omega arith)
          valid)

  announce_expired-IsValid :
      (es : List (StateEntry V)) (now : ℕ) (s : SharedState V)
      → IsValid s
      → IsValid (announce_expired es now s)
  unfolding announce_expired
  announce_expired-IsValid [] now s v = v
  announce_expired-IsValid (e ∷ es) now s v =
      announce_expired-IsValid es now (announce (expiry_event e now) s)
        (announce-IsValid (expiry_event e now) s v)

  sweep-IsValid : (now : ℕ) (s : SharedState V) → IsValid s → IsValid (sweep_expired_unlocked now s)
  unfolding sweep_expired_unlocked
  sweep-IsValid now s v = delete_all-IsValid (keys_where (λ e. is_expired e now) s.store) s v

  set-IsValid :
      (k : String) (v : V) (source : String) (ttl : Option ℕ) (now : ℕ) (s : SharedState V)
      → IsValid s
      → IsValid (set k v source ttl now s).0
  unfolding set
  set-IsValid k v source ttl now s valid =
      announce-IsValid _ _
        (insert-IsValid k (written (lookup k s.store) k v source ttl now) s named valid)
    where
      named : IsNamed k (written (lookup k s.store) k v source ttl now)
      named =
          unfold written in
          elim (Option-cases (lookup k s.store)) [
            | inl e ↦ rw (e, written) (refl, omega arith)
            | inr (old, e) ↦ rw (e, written) ((valid.named.at k old e).0, omega arith)
          ]

  get-IsValid : (k : String) (now : ℕ) (s : SharedState V) → IsValid s → IsValid (get k now s).0
  unfolding get
  get-IsValid k now s v = elim (Option-cases (lookup k s.store)) [
    | inl e ↦ rw (e, get) v
    | inr (entry, e) ↦ elim (Bool-cases (is_expired entry now)) [
      | inl x ↦ rw (e, get, x) (delete_unlocked-IsValid k s v)
      | inr x ↦ rw (e, get, x) v
    ]
  ]

  delete-IsValid :
      (k source : String) (now : ℕ) (s : SharedState V)
      → IsValid s
      → IsValid (delete k source now s).0
  unfolding delete
  delete-IsValid k source now s v = elim (Option-cases (lookup k s.store)) [
    | inl e ↦ rw (e, delete) v
    | inr (entry, e) ↦ rw (e, delete) (announce-IsValid _ _ (delete_unlocked-IsValid k s v))
  ]

  atomic_update-IsValid :
      (k : String) (f : V → Option V) (source : String) (now : ℕ) (s : SharedState V)
      → IsValid s
      → IsValid (atomic_update k f source now s).0
  unfolding atomic_update
  atomic_update-IsValid k f source now s v = elim (Option-cases (lookup k s.store)) [
    | inl e ↦ rw (e, atomic_update) v
    | inr (entry, e) ↦ elim (Bool-cases (is_expired entry now)) [
      | inl x ↦ rw (e, atomic_update, x) (delete_unlocked-IsValid k s v)
      | inr x ↦ elim (Option-cases (f entry.value)) [
        | inl r ↦ rw (e, atomic_update, x, r) v
        | inr (w, r) ↦ rw (e, atomic_update, x, r) (overwrite-IsValid k entry w source now s e v)
      ]
    ]
  ]

  compare_and_set-IsValid :
      (differs : V → V → Bool) (k : String) (expected w : V) (source : String) (now : ℕ)
      (s : SharedState V)
      → IsValid s
      → IsValid (compare_and_set differs k expected w source now s).0
  unfolding compare_and_set
  compare_and_set-IsValid differs k expected w source now s v =
      elim (Option-cases (lookup k s.store)) [
        | inl e ↦ rw (e, compare_and_set) v
        | inr (entry, e) ↦ elim (Bool-cases (is_expired entry now)) [
          | inl x ↦ rw (e, compare_and_set, x) (delete_unlocked-IsValid k s v)
          | inr x ↦ elim (Bool-cases (differs entry.value expected)) [
            | inl r ↦ rw (e, compare_and_set, x, r) v
            | inr r ↦ rw (e, compare_and_set, x, r) (overwrite-IsValid k entry w source now s e v)
          ]
        ]
      ]

  step-IsValid : (c : Call V) (s : SharedState V) → IsValid s → IsValid (step c s)
  unfolding step keys clear observe unobserve cleanup_expired
  step-IsValid (write k v source ttl now) s h = set-IsValid k v source ttl now s h
  step-IsValid (read k now) s h = get-IsValid k now s h
  step-IsValid (remove k source now) s h = delete-IsValid k source now s h
  step-IsValid (list_keys now) s h = sweep-IsValid now s h
  step-IsValid clear_all s h = record { distinct = tt; named = AllAt-nil; bounded = h.bounded }
  step-IsValid (update k f source now) s h = atomic_update-IsValid k f source now s h
  step-IsValid (swap differs k expected v source now) s h =
      compare_and_set-IsValid differs k expected v source now s h
  step-IsValid (watch o) s h = record {
    distinct = h.distinct;
    named = h.named;
    bounded = h.bounded;
  }
  step-IsValid (unwatch o) s h = record {
    distinct = h.distinct;
    named = h.named;
    bounded = h.bounded;
  }
  step-IsValid (cleanup now) s h =
      announce_expired-IsValid (keep (λ e. is_expired e now) (values s.store)) now
        (sweep_expired_unlocked now s) (sweep-IsValid now s h)

  steps-IsValid_from : (cs : List (Call V)) (s : SharedState V) → IsValid s → IsValid (steps cs s)
  unfolding steps
  steps-IsValid_from [] s h = h
  steps-IsValid_from (c ∷ cs) s h = steps-IsValid_from cs (step c s) (step-IsValid c s h)

  -- After any calls on a new store: no key stands twice, every entry stands under its own key
  -- with a version of at least 1, and the change log holds at most 1000 events.
  pub steps-IsValid : (cs : List (Call V)) → IsValid (steps cs new_state)
  steps-IsValid cs = steps-IsValid_from cs new_state new_state-IsValid

  -- The history is an end of the change log. A positive limit bounds it, and a log that is no
  -- longer comes whole; the limit 0 bounds nothing: it answers the whole log.
  get_change_history-suffix :
      (limit : ℕ) (s : SharedState V)
      → ((older : List (StateChangeEvent V)) × (s.change_log ≡ older ++ get_change_history limit s))
        × (length (get_change_history limit s)
            ≡ (if eqb limit 0 then length s.change_log else min limit (length s.change_log)))
  unfolding get_change_history
  get_change_history-suffix limit s =
      (last_slice_suffix limit s.change_log, length-last_slice limit s.change_log)
