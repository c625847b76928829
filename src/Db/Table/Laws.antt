-- ===== src/Db/Table/Laws.antt =====
-- The tables of src/db: a table whose keys are distinct is a map from keys to rows.
use kryvaracode.Common.{
  ℕ, ◌≡◌, refl, Bool, true, ◌&&◌, Option, none, some, [], ◌∷◌, arith, eqb, if◌then◌else◌, is_some,
  Bool-cases, inl, inr,
}
use kryvaracode.Db.Table.{Row, Table, first, get, add, put, remove}

module _ {A : Type 0} where
  abbrev pub IsKeyed : Table A → Type 0
  IsKeyed [] = Unit
  IsKeyed (r ∷ rs) = (get r.0 rs ≡ none) × IsKeyed rs

  pub get-add :
      (key j : ℕ) (a : A) (rows : Table A)
      → get key rows ≡ none
      → get j (add key a rows) ≡ (if eqb key j then some (key, a) else get j rows)
  unfolding first
  get-add key j a [] new = ground arith
  get-add key j a (r ∷ rs) new = ground (arith, get-add key j a rs)

  pub add-IsKeyed :
      (key : ℕ) (a : A) (rows : Table A)
      → get key rows ≡ none
      → IsKeyed rows
      → IsKeyed (add key a rows)
  unfolding first
  add-IsKeyed key a [] new k = (refl, tt)
  add-IsKeyed key a (r ∷ rs) new k = ground (arith, get-add key r.0 a rs, add-IsKeyed key a rs)

  pub get-put :
      (key j : ℕ) (a : A) (rows : Table A)
      → get j (put key a rows)
        ≡ (if eqb key j && is_some (get key rows) then some (key, a) else get j rows)
  unfolding first put
  get-put key j a [] = ground arith
  get-put key j a (r ∷ rs) = ground (arith, get-put key j a rs)

  pub put-IsKeyed : (key : ℕ) (a : A) (rows : Table A) → IsKeyed rows → IsKeyed (put key a rows)
  unfolding first put
  put-IsKeyed key a [] k = tt
  put-IsKeyed key a (r ∷ rs) k = ground (arith, put-IsKeyed key a rs, get-put key r.0 a rs)

  pub get-remove :
      (key j : ℕ) (rows : Table A)
      → IsKeyed rows
      → get j (remove key rows) ≡ (if eqb key j then none else get j rows)
  unfolding first remove
  get-remove key j [] k = ground arith
  get-remove key j (r ∷ rs) k = ground (arith, get-remove key j rs)

  pub remove-IsKeyed : (key : ℕ) (rows : Table A) → IsKeyed rows → IsKeyed (remove key rows)
  unfolding first remove
  remove-IsKeyed key [] k = tt
  remove-IsKeyed key (r ∷ rs) k = ground (arith, remove-IsKeyed key rs, get-remove key r.0 rs)

  -- What a filter finds satisfies it, and so its key is found.
  pub first_holds :
      (p : Row A → Bool) (rows : Table A) {r : Row A} → first p rows ≡ some r → p r ≡ true
  unfolding first
  first_holds p [] h = cc
  first_holds p (r ∷ rs) h = elim (Bool-cases (p r)) [
    | inl e ↦ ground (arith, e)
    | inr e ↦ first_holds p rs (ground (arith, e))
  ]

  -- The row that a key finds bears that key.
  pub get-key : (key : ℕ) (rows : Table A) {r : Row A} → get key rows ≡ some r → r.0 ≡ key
  get-key key rows {r} h =
      let same : eqb r.0 key ≡ true = first_holds (λ q. eqb q.0 key) rows h in ground (arith, same)

  pub get-first :
      (p : Row A → Bool) (rows : Table A) {r : Row A}
      → IsKeyed rows
      → first p rows ≡ some r
      → get r.0 rows ≡ some r
  unfolding first
  get-first p [] k h = cc
  get-first p (q ∷ rs) {r} k h = elim (Bool-cases (p q)) [
    | inl e ↦ ground (arith, e)
    | inr e ↦
        let later : first p rs ≡ some r = ground (arith, e) in
        ground (arith, get-first p rs {r = r} k.1 later)
  ]

  -- A row of the answer of a filter, after an assignment to a row.
  abbrev pub after_put : ℕ → A → Option (Row A) → Option (Row A)
  after_put key a none = none
  after_put key a (some q) = some (if eqb q.0 key then (key, a) else q)

  after_put-absent :
      (p : Row A → Bool) (key : ℕ) (a : A) (rows : Table A)
      → get key rows ≡ none
      → after_put key a (first p rows) ≡ first p rows
  unfolding first
  after_put-absent p key a [] h = refl
  after_put-absent p key a (q ∷ rs) h = ground (arith, after_put-absent p key a rs)

  -- A filter that the assignment does not change finds the same row as before.
  pub first-put :
      (p : Row A → Bool) (key : ℕ) (a : A) (rows : Table A) {r : Row A}
      → IsKeyed rows
      → get key rows ≡ some r
      → p (key, a) ≡ p r
      → first p (put key a rows) ≡ after_put key a (first p rows)
  unfolding first put
  first-put p key a [] k h same = refl
  first-put p key a (q ∷ rs) {r} k h same = elim (Bool-cases (eqb q.0 key)) [
    | inl e ↦ ground (arith, after_put-absent p key a rs)
    | inr e ↦
        let later : get key rs ≡ some r = ground (arith, e) in
        ground (arith, first-put p key a rs {r = r} k.1 later same)
  ]

  -- A filter that finds nothing finds at most the row that is written.
  pub first-put_new :
      (p : Row A → Bool) (key : ℕ) (a : A) (rows : Table A)
      → first p rows ≡ none
      → first p (put key a rows)
        ≡ (if p (key, a) && is_some (get key rows) then some (key, a) else none)
  unfolding first put
  first-put_new p key a [] h = ground arith
  first-put_new p key a (r ∷ rs) h = ground (arith, first-put_new p key a rs)

  pub put-put : (key : ℕ) (a b : A) (rows : Table A) → put key b (put key a rows) ≡ put key b rows
  unfolding put
  put-put key a b [] = refl
  put-put key a b (r ∷ rs) = ground (arith, put-put key a b rs)
