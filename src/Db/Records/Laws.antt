-- ===== src/Db/Records/Laws.antt =====
-- crud.py: what changing and deleting a row that was found makes of a table.
use kryvaracode.Common.{
  ℕ, ◌≡◌, sym, ap, true, Option, none, some, arith, eqb, if◌then◌else◌, Option-cases, inl, inr,
}
use kryvaracode.Db.Table.{Row, Table, get, put, remove}
use kryvaracode.Db.Table.Laws.{IsKeyed, get-put, put-IsKeyed, get-remove, remove-IsKeyed, get-key}
use kryvaracode.Db.Records.{changed, deleted}

module _ {A : Type 0} where
  -- The row of a key, changed if it is the one that is meant.
  abbrev pub change_at : ℕ → ℕ → (A → A) → Option (Row A) → Option (Row A)
  change_at key id f none = none
  change_at key id f (some (k, a)) = if eqb key id then some (k, f a) else some (k, a)

  get-same : (key id : ℕ) (rows : Table A) → eqb key id ≡ true → get id rows ≡ get key rows
  get-same key id rows e =
      let same : key ≡ id = ground (arith, e) in ap (λ (k : ℕ). get k rows) (sym same)

  pub get-changed :
      (key id : ℕ) (f : A → A) (rows : Table A)
      → get id (changed key f rows).0 ≡ change_at key id f (get id rows)
  get-changed key id f rows =
      let same = get-same key id rows in
      elim (Option-cases (get key rows)) [
        | inl absent ↦
            let idle : (changed key f rows).0 ≡ rows = ground (arith, absent) in
            elim (Option-cases (get id rows)) [
              | inl nothing ↦ rw idle (ground (arith, nothing))
              | inr ((k, a), there) ↦ rw idle (ground (arith, there, absent, same))
            ]
        | inr ((j, e), found) ↦
            let next : (changed key f rows).0 ≡ put j (f e) rows = ground (arith, found) in
            let own = get-key key rows found in
            let written = get-put j id (f e) rows in
            elim (Option-cases (get id rows)) [
              | inl nothing ↦ rw next (ground (arith, written, nothing, found, same, own))
              | inr ((k, a), there) ↦
                  let its = get-key id rows there in
                  let same_row : get j rows ≡ some (j, e) = rw own (ground (arith, found, own)) in
                  rw next (ground (arith, written, there, same_row, found, same, own, its))
            ]
      ]

  pub changed-IsKeyed :
      (key : ℕ) (f : A → A) (rows : Table A) → IsKeyed rows → IsKeyed (changed key f rows).0
  changed-IsKeyed key f rows k = elim (Option-cases (get key rows)) [
    | inl absent ↦ let idle : (changed key f rows).0 ≡ rows = ground (arith, absent) in rw idle k
    | inr ((j, e), found) ↦
        let next : (changed key f rows).0 ≡ put j (f e) rows = ground (arith, found) in
        rw next (put-IsKeyed j (f e) rows k)
  ]

  pub get-deleted :
      (key id : ℕ) (rows : Table A)
      → IsKeyed rows
      → get id (deleted key rows).0 ≡ (if eqb key id then none else get id rows)
  get-deleted key id rows k = elim (Option-cases (get key rows)) [
    | inl absent ↦
        let idle : (deleted key rows).0 ≡ rows = ground (arith, absent) in
        rw idle (ground (arith, absent, get-same key id rows))
    | inr ((j, e), found) ↦
        let next : (deleted key rows).0 ≡ remove j rows = ground (arith, found) in
        rw next (ground (arith, get-remove j id rows k, get-key key rows found))
  ]

  pub deleted-IsKeyed : (key : ℕ) (rows : Table A) → IsKeyed rows → IsKeyed (deleted key rows).0
  deleted-IsKeyed key rows k = elim (Option-cases (get key rows)) [
    | inl absent ↦ let idle : (deleted key rows).0 ≡ rows = ground (arith, absent) in rw idle k
    | inr ((j, e), found) ↦
        let next : (deleted key rows).0 ≡ remove j rows = ground (arith, found) in
        rw next (remove-IsKeyed j rows k)
  ]
