-- ===== src/Common/Lists.antt =====
-- Lists measured by native numbers, Boolean filters and Python's slices.
use Prim.Native.Nat.{ℕ, zero, suc, ◌+◌, ◌-◌, min}
use mathlib.Core.Path.{◌≡◌, refl, ap}
use mathlib.Core.Bool.{Bool, true}
use mathlib.Core.Logic.{inl, inr}
use mathlib.Core.List.{List, [], ◌∷◌, ◌++◌}
use native.Mathlib.Omega.{arith}
use kryvaracode.Common.Tests.{if◌then◌else◌, eqb, Bool-cases}

module _ {ℓ} {A : Type ℓ} where
  abbrev pub length : List A → ℕ
  length [] = 0
  length (x ∷ xs) = suc (length xs)

  abbrev pub take : ℕ → List A → List A
  take zero xs = []
  take (suc n) [] = []
  take (suc n) (x ∷ xs) = x ∷ take n xs

  abbrev pub drop : ℕ → List A → List A
  drop zero xs = xs
  drop (suc n) [] = []
  drop (suc n) (x ∷ xs) = drop n xs

  pub length-append : (xs ys : List A) → length (xs ++ ys) ≡ length xs + length ys
  length-append [] ys = omega arith
  length-append (x ∷ xs) ys = omega (arith, length-append xs ys)

  pub length-drop : (n : ℕ) (xs : List A) → length (drop n xs) ≡ length xs - n
  length-drop zero xs = omega arith
  length-drop (suc n) [] = omega arith
  length-drop (suc n) (x ∷ xs) = omega (arith, length-drop n xs)

module _ {ℓ} {A : Type ℓ} where
  -- `[x for x in xs if p(x)]`
  abbrev pub keep : (A → Bool) → List A → List A
  keep p [] = []
  keep p (x ∷ xs) = let rest = keep p xs in if p x then x ∷ rest else rest

  -- `sum(1 for x in xs if p(x))`
  abbrev pub count_if : (A → Bool) → List A → ℕ
  count_if p [] = 0
  count_if p (x ∷ xs) = (if p x then 1 else 0) + count_if p xs

  -- A property of every element.
  abbrev pub All {κ} : (A → Type κ) → List A → Type κ
  All P [] = Unit
  All P (x ∷ xs) = P x × All P xs

  -- The elements behind `xs[-n:]`: Python reads `-0` as 0, so at 0 the slice is the whole list.
  unfoldable pub last_slice : ℕ → List A → List A
  last_slice n xs = if eqb n 0 then xs else drop (length xs - n) xs

  -- `deque(maxlen=n).append(x)`: the oldest elements are dropped from the left.
  unfoldable pub push_bounded : ℕ → List A → A → List A
  push_bounded n xs x = drop (length xs + 1 - n) (xs ++ x ∷ [])

  pub length-keep : (p : A → Bool) (xs : List A) → length (keep p xs) ≡ count_if p xs
  length-keep p [] = refl
  length-keep p (x ∷ xs) = ground (arith, length-keep p xs)

  pub length-push_bounded :
      (n : ℕ) (xs : List A) (x : A) → length (push_bounded n xs x) ≡ min n (length xs + 1)
  unfolding push_bounded
  length-push_bounded n xs x =
      omega (arith, length-drop (length xs + 1 - n) (xs ++ x ∷ []), length-append xs (x ∷ []))

  pub All-keep {κ} :
      {P : A → Type κ} (p : A → Bool) (xs : List A)
      → ((x : A) → p x ≡ true → P x)
      → All P (keep p xs)
  All-keep p [] h = tt
  All-keep p (x ∷ xs) h =
      let ih = All-keep p xs h in
      elim (Bool-cases (p x)) [ inl e ↦ rw e (h x e, ih) | inr e ↦ rw e ih ]

  pub length-last_slice :
      (n : ℕ) (xs : List A)
      → length (last_slice n xs) ≡ (if eqb n 0 then length xs else min n (length xs))
  unfolding last_slice
  length-last_slice n xs = ground (arith, length-drop (length xs - n) xs)

  pub drop_suffix : (n : ℕ) (xs : List A) → (ys : List A) × (xs ≡ ys ++ drop n xs)
  drop_suffix zero xs = ([], refl)
  drop_suffix (suc n) [] = ([], refl)
  drop_suffix (suc n) (x ∷ xs) = let (ys, e) = drop_suffix n xs in (x ∷ ys, ap (◌∷◌ x) e)

  pub last_slice_suffix : (n : ℕ) (xs : List A) → (ys : List A) × (xs ≡ ys ++ last_slice n xs)
  unfolding last_slice
  last_slice_suffix n xs = elim (Bool-cases (eqb n 0)) [
    | inl e ↦ ([], rw (e, last_slice))
    | inr e ↦ let (ys, p) = drop_suffix (length xs - n) xs in (ys, rw (e, last_slice) p)
  ]
