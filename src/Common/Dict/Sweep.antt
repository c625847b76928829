-- ===== src/Common/Dict/Sweep.antt =====
-- The two loops by which the program deletes from a dictionary: collect the keys of the items to
-- go, then delete them one by one.
use kryvaracode.Common.Tests.{◌==◌, if◌then◌else◌, eq_self, Bool-cases}
use kryvaracode.Common.Lists.{length, keep, count_if}
use kryvaracode.Common.Dict.{
  Dict, lookup, insert, lookup-insert, without-IsDistinct, without, keys, values, IsDistinct,
  member, lookup-without,
}
use Prim.Native.String.{String}
use mathlib.Core.Path.{◌≡◌, refl, ap, ◌∙◌, subst₂}
use mathlib.Core.Logic.{inl, inr}
use mathlib.Core.Bool.{Bool, true, false, not}
use mathlib.Core.Option.{none, some}
use mathlib.Core.List.{List, [], ◌∷◌}
use native.Mathlib.Omega.{arith}
use text.Mathlib.TextEquality.{eq_iff}

module _ {ℓ} {V : Type ℓ} where
  -- `[k for k, v in d.items() if p(v)]`
  unfoldable pub keys_where : (V → Bool) → Dict V → List String
  keys_where p [] = []
  keys_where p ((k, v) ∷ m) = let rest = keys_where p m in if p v then k ∷ rest else rest

  -- `for k in ids: d.pop(k, None)`
  unfoldable pub delete_all : List String → Dict V → Dict V
  delete_all [] m = m
  delete_all (k ∷ ids) m = delete_all ids (without k m)

  pub lookup-delete_all :
      (ids : List String) (m : Dict V) (j : String)
      → lookup j (delete_all ids m) ≡ (if member j ids then none else lookup j m)
  unfolding delete_all
  lookup-delete_all [] m j = refl
  lookup-delete_all (i ∷ ids) m j =
      ground (arith, lookup-without i j m, lookup-delete_all ids (without i m) j)

  -- A property of every item that a lookup finds.
  pub record AllAt {κ} (P : String → V → Type κ) (m : Dict V) : Type (ℓ ⊔ κ) where
    pub at : (k : String) (v : V) → lookup k m ≡ some v → P k v

  module _ {κ} {P : String → V → Type κ} where
    pub AllAt-nil : AllAt P []
    unfolding lookup
    AllAt-nil = record { at = λ k v e. cc }

    pub AllAt-insert :
        (k : String) (v : V) (m : Dict V) → P k v → AllAt P m → AllAt P (insert k v m)
    AllAt-insert k v m p all = record {
      at = λ j w e. elim (Bool-cases (k == j)) [
        | inl same ↦
            let found : some v ≡ some w = rw (lookup-insert, same) at e in
            subst₂ P ((eq_iff k j).0 same) (cc) p
        | inr other ↦ all.at j w (rw (lookup-insert, other) at e)
      ];
    }

    pub AllAt-delete_all : (ids : List String) (m : Dict V) → AllAt P m → AllAt P (delete_all ids m)
    AllAt-delete_all ids m all = record {
      at = λ j w e. elim (Bool-cases (member j ids)) [
        | inl gone ↦ let absent : none ≡ some w = rw (lookup-delete_all, gone) at e in cc
        | inr kept ↦ all.at j w (rw (lookup-delete_all, kept) at e)
      ];
    }

    pub AllAt-without : (k : String) (m : Dict V) → AllAt P m → AllAt P (without k m)
    unfolding delete_all
    AllAt-without k m all = AllAt-delete_all (k ∷ []) m all

  pub delete_all-IsDistinct :
      (ids : List String) (m : Dict V) → IsDistinct m → IsDistinct (delete_all ids m)
  unfolding delete_all
  delete_all-IsDistinct [] m d = d
  delete_all-IsDistinct (k ∷ ids) m d =
      delete_all-IsDistinct ids (without k m) (without-IsDistinct k m d)

  pub without_absent : (k : String) (m : Dict V) → lookup k m ≡ none → without k m ≡ m
  unfolding lookup without
  without_absent k [] h = refl
  without_absent k ((j, t) ∷ m) h = ground (arith, without_absent k m)

  delete_all-cons :
      (ids : List String) (k : String) (v : V) (m : Dict V)
      → member k ids ≡ false
      → delete_all ids ((k, v) ∷ m) ≡ (k, v) ∷ delete_all ids m
  unfolding delete_all without
  delete_all-cons [] k v m h = refl
  delete_all-cons (i ∷ ids) k v m h =
      ground (arith, eq_iff i k, eq_iff k i, delete_all-cons ids k v (without i m))

  module _ (p : V → Bool) where
    not-member-keys_where :
        (k : String) (m : Dict V) → lookup k m ≡ none → member k (keys_where p m) ≡ false
    unfolding lookup keys_where
    not-member-keys_where k [] h = refl
    not-member-keys_where k ((j, t) ∷ m) h = ground (arith, not-member-keys_where k m)

    pub member-keys_where :
        (k : String) (m : Dict V)
        → IsDistinct m
        → member k (keys_where p m) ≡ (elim (lookup k m) [ none ↦ false | some v ↦ p v ])
    unfolding lookup keys_where
    member-keys_where k [] d = refl
    member-keys_where k ((j, v) ∷ m) d =
        ground (arith, eq_iff j k, not-member-keys_where j m d.0, member-keys_where k m d.1)

    -- The items that stay.
    abbrev pub others : Dict V → Dict V
    others m = keep (λ e. not (p e.1)) m

    -- On distinct keys the two loops are a filter, and keep the order.
    pub delete_all-keys_where :
        (m : Dict V) → IsDistinct m → delete_all (keys_where p m) m ≡ others m
    unfolding delete_all keys_where without
    delete_all-keys_where [] h = refl
    delete_all-keys_where ((k, v) ∷ m) h = ground (
      arith,
      eq_self k,
      without_absent k m h.0,
      not-member-keys_where k m h.0,
      delete_all-cons (keys_where p m) k v m,
      delete_all-keys_where m h.1,
    )

    pub length-keys_where : (m : Dict V) → length (keys_where p m) ≡ count_if p (values m)
    unfolding keys_where
    length-keys_where [] = refl
    length-keys_where ((k, v) ∷ m) = ground (arith, length-keys_where m)

    pub count_if-others : (m : Dict V) → count_if p (values (others m)) ≡ 0
    count_if-others [] = refl
    count_if-others ((k, v) ∷ m) = ground (arith, count_if-others m)

    lookup-others_absent :
        (m : Dict V) (k : String) → lookup k m ≡ none → lookup k (others m) ≡ none
    unfolding lookup
    lookup-others_absent [] k e = refl
    lookup-others_absent ((j, t) ∷ m) k e = ground (arith, lookup-others_absent m k)

    pub others-IsDistinct : (m : Dict V) → IsDistinct m → IsDistinct (others m)
    others-IsDistinct [] d = tt
    others-IsDistinct ((k, t) ∷ m) d =
        ground (arith, lookup-others_absent m k d.0, others-IsDistinct m d.1)

  everything : (m : Dict V) → keys m ≡ keys_where (λ _. true) m
  unfolding keys_where
  everything [] = refl
  everything ((k, v) ∷ m) = ap (◌∷◌ k) (everything m)

  nothing : (m : Dict V) → others (λ _. true) m ≡ []
  nothing [] = refl
  nothing ((k, v) ∷ m) = nothing m

  -- Deleting each key of a dictionary empties it.
  pub delete_all-keys : (m : Dict V) → IsDistinct m → delete_all (keys m) m ≡ []
  delete_all-keys m d = rw (everything m) (delete_all-keys_where (λ _. true) m d ∙ nothing m)
