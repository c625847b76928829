-- ===== src/Common/Dict.antt =====
-- Python's `dict` with text keys, as the list of its items in insertion order. Assigning to a key
-- that is there keeps its place, a new key goes to the end, and `del` takes the key's item out.
pub mod Sweep
use Prim.Native.Nat.{◌+◌}
use Prim.Native.String.{String}
use mathlib.Core.Path.{◌≡◌, refl}
use mathlib.Core.Bool.{Bool, true, false, ◌||◌}
use mathlib.Core.Option.{Option, none, some}
use mathlib.Core.List.{List, [], ◌∷◌, map}
use native.Mathlib.Omega.{arith}
use text.Mathlib.TextEquality.{eq_iff}
use kryvaracode.Common.Tests.{◌==◌, if◌then◌else◌}
use kryvaracode.Common.Lists.{length, count_if}

abbrev pub Dict {ℓ} : Type ℓ → Type ℓ
Dict V = List (String × V)

abbrev pub member : String → List String → Bool
member k [] = false
member k (j ∷ js) = (j == k) || member k js

module _ {ℓ} {V : Type ℓ} where
  -- `d.get(k)`
  unfoldable pub lookup : String → Dict V → Option V
  lookup k [] = none
  lookup k ((j, v) ∷ m) = if j == k then some v else lookup k m

  -- `d[k] = v`
  unfoldable pub insert : String → V → Dict V → Dict V
  insert k v [] = (k, v) ∷ []
  insert k v ((j, w) ∷ m) = let rest = insert k v m in if j == k then (j, v) ∷ m else (j, w) ∷ rest

  -- `d.pop(k, None)` and `del d[k]`
  unfoldable pub without : String → Dict V → Dict V
  without k [] = []
  without k ((j, w) ∷ m) = let rest = without k m in if j == k then rest else (j, w) ∷ rest

  abbrev pub keys : Dict V → List String
  keys = map (λ e. e.0)

  abbrev pub values : Dict V → List V
  values = map (λ e. e.1)

  -- No key stands twice: what makes the list a dictionary.
  abbrev pub IsDistinct : Dict V → Type ℓ
  IsDistinct [] = Unit
  IsDistinct ((k, v) ∷ m) = (lookup k m ≡ none) × IsDistinct m

  -- An item that was written is found under its key; nothing else moves.
  pub lookup-insert :
      (k j : String) (new : V) (d : Dict V)
      → lookup j (insert k new d) ≡ (if k == j then some new else lookup j d)
  unfolding insert lookup
  lookup-insert k j new [] = ground arith
  lookup-insert k j new ((key, old) ∷ rest) =
      let tail = lookup-insert k j new rest in
      ground (arith, tail, eq_iff key j, eq_iff key k, eq_iff k j)

  pub lookup-without :
      (k j : String) (m : Dict V) → lookup j (without k m) ≡ (if k == j then none else lookup j m)
  unfolding lookup without
  lookup-without k j [] = ground arith
  lookup-without k j ((i, w) ∷ m) =
      ground (arith, eq_iff k j, eq_iff i k, eq_iff i j, lookup-without k j m)

  pub insert-IsDistinct :
      (k : String) (v : V) (m : Dict V) → IsDistinct m → IsDistinct (insert k v m)
  unfolding insert lookup
  insert-IsDistinct k v [] h = (refl, tt)
  insert-IsDistinct k v ((i, w) ∷ m) h =
      ground (arith, eq_iff i k, eq_iff k i, lookup-insert k i v m, insert-IsDistinct k v m h.1)

  pub without-IsDistinct : (k : String) (m : Dict V) → IsDistinct m → IsDistinct (without k m)
  unfolding without
  without-IsDistinct k [] h = tt
  without-IsDistinct k ((i, w) ∷ m) h =
      ground (arith, eq_iff i k, lookup-without k i m, without-IsDistinct k m h.1)

  -- Overwriting an item moves the count of a property by the two values only.
  pub count_if-insert :
      (p : V → Bool) (k : String) (v w : V) (m : Dict V)
      → lookup k m ≡ some w
      → count_if p (values (insert k v m)) + (if p w then 1 else 0)
        ≡ count_if p (values m) + (if p v then 1 else 0)
  unfolding lookup insert
  count_if-insert p k v w [] h = ground arith
  count_if-insert p k v w ((i, u) ∷ m) h = ground (arith, count_if-insert p k v w m)

  pub count_if-insert_new :
      (p : V → Bool) (k : String) (v : V) (m : Dict V)
      → lookup k m ≡ none
      → count_if p (values (insert k v m)) ≡ count_if p (values m) + (if p v then 1 else 0)
  unfolding lookup insert
  count_if-insert_new p k v [] h = ground arith
  count_if-insert_new p k v ((i, u) ∷ m) h = ground (arith, count_if-insert_new p k v m)

  pub length-insert :
      (k : String) (v : V) (m : Dict V)
      → length (insert k v m) ≡ length m + (elim (lookup k m) [ none ↦ 1 | some _ ↦ 0 ])
  unfolding lookup insert
  length-insert k v [] = refl
  length-insert k v ((i, u) ∷ m) = ground (arith, length-insert k v m)

  pub lookup-absent : (m : Dict V) (k : String) → member k (keys m) ≡ false → lookup k m ≡ none
  unfolding lookup
  lookup-absent [] k h = refl
  lookup-absent ((j, t) ∷ m) k h = ground (arith, lookup-absent m k)

  pub lookup-insert_self : (k : String) (v : V) (m : Dict V) → lookup k (insert k v m) ≡ some v
  lookup-insert_self k v m = ground (arith, eq_iff k k, lookup-insert k k v m)

  pub insert-insert : (k : String) (v w : V) (m : Dict V) → insert k v (insert k w m) ≡ insert k v m
  unfolding insert
  insert-insert k v w [] = ground (arith, eq_iff k k)
  insert-insert k v w ((j, u) ∷ m) = ground (arith, insert-insert k v w m)

  pub insert_self : (k : String) (v : V) (m : Dict V) → lookup k m ≡ some v → insert k v m ≡ m
  unfolding insert lookup
  insert_self k v [] h = cc
  insert_self k v ((j, u) ∷ m) h = ground (arith, insert_self k v m)

  pub without-insert_new :
      (k : String) (v : V) (m : Dict V) → lookup k m ≡ none → without k (insert k v m) ≡ m
  unfolding insert lookup without
  without-insert_new k v [] h = ground (arith, eq_iff k k)
  without-insert_new k v ((j, u) ∷ m) h = ground (arith, without-insert_new k v m)

  pub member-keys :
      (m : Dict V) (k : String)
      → member k (keys m) ≡ (elim (lookup k m) [ none ↦ false | some _ ↦ true ])
  unfolding lookup
  member-keys [] k = refl
  member-keys ((j, v) ∷ m) k = ground (arith, member-keys m k)
