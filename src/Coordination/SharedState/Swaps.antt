-- ===== src/Coordination/SharedState/Swaps.antt =====
-- shared_state.py: writers that compete with `compare_and_set` for one value.
use kryvaracode.Common.{
  ℕ, ◌+◌, ◌≤◌, ◌≡◌, refl, String, Bool, true, false, Option, none, some, List, [], ◌∷◌, All, arith,
  eq_self, if◌then◌else◌, Bool-cases, Option-cases, inl, inr,
}
use kryvaracode.Common.Dict.{lookup, lookup-insert, lookup-without}
use kryvaracode.Coordination.SharedState.{
  StateEntry, SharedState, is_expired, bumped, compare_and_set,
}

-- A write that is tried: its time, its source and the new value.
pub record Swap (V : Type 0) : Type 0 where
  pub now : ℕ
  pub source : String
  pub value : V

module _ {V : Type 0} (differs : V → V → Bool) (k : String) (expected : V) where
  abbrev pub tried : Swap V → SharedState V → SharedState V × Bool
  tried w s = compare_and_set differs k expected w.value w.source w.now s

  -- How many of the writes succeed, one after the other.
  unfoldable pub successes : List (Swap V) → SharedState V → ℕ
  successes [] s = 0
  successes (w ∷ ws) s = (if (tried w s).1 then 1 else 0) + successes ws (tried w s).0

  -- The key has no entry, or one with another value than the expected one.
  abbrev IsLost : Option (StateEntry V) → Type 0
  IsLost none = Unit
  IsLost (some entry) = differs entry.value expected ≡ true

  tried-IsLost :
      (w : Swap V) (s : SharedState V)
      → IsLost (lookup k s.store)
      → ((tried w s).1 ≡ false) × IsLost (lookup k (tried w s).0.store)
  unfolding compare_and_set
  tried-IsLost w s lost = elim (Option-cases (lookup k s.store)) [
    | inl e ↦ rw (e, compare_and_set) (refl, rw e tt)
    | inr (entry, e) ↦
        let other : differs entry.value expected ≡ true = ground (arith, lost, e) in
        elim (Bool-cases (is_expired entry w.now)) [
          | inl expired ↦
              let gone : lookup k (tried w s).0.store ≡ none =
                ground (arith, e, expired, eq_self k, lookup-without k k s.store) in
              (ground (arith, e, expired), rw gone tt)
          | inr live ↦
              let kept : lookup k (tried w s).0.store ≡ some entry =
                ground (arith, e, live, other) in
              (ground (arith, e, live, other), rw kept other)
        ]
  ]

  tried-wins :
      (w : Swap V) (s : SharedState V)
      → differs w.value expected ≡ true
      → (tried w s).1 ≡ true
      → IsLost (lookup k (tried w s).0.store)
  unfolding compare_and_set
  tried-wins w s changes won = elim (Option-cases (lookup k s.store)) [
    | inl e ↦ absurd (ground (arith, e, won))
    | inr (entry, e) ↦
        let new = bumped entry w.value w.source w.now in
        let written : lookup k (tried w s).0.store ≡ some new =
          ground (arith, e, won, eq_self k, lookup-insert k k new s.store) in
        rw written changes
  ]

  successes-lost :
      (ws : List (Swap V)) (s : SharedState V) → IsLost (lookup k s.store) → successes ws s ≡ 0
  unfolding successes
  successes-lost [] s lost = refl
  successes-lost (w ∷ ws) s lost =
      let (fails, still) = tried-IsLost w s lost in
      rw fails (omega (arith, successes-lost ws (tried w s).0 still))

  -- No lost update: however many writers try, one after the other and at whatever clock readings, to
  -- replace one expected value of a key by values that differ from it, at most one of them succeeds.
  pub successes-le_one :
      (ws : List (Swap V)) (s : SharedState V)
      → All (λ w. differs w.value expected ≡ true) ws
      → successes ws s ≤ 1
  unfolding successes
  successes-le_one [] s changes = omega arith
  successes-le_one (w ∷ ws) s changes = elim (Bool-cases (tried w s).1) [
    | inl won ↦
        let later = successes-lost ws (tried w s).0 (tried-wins w s changes.0 won) in
        rw won (omega (arith, later))
    | inr failed ↦ rw failed (omega (arith, successes-le_one ws (tried w s).0 changes.1))
  ]
