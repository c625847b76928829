-- ===== src/Db/Table/Listed.antt =====
-- The rows that a listing of a table of src/db answers, found again under their keys.
use kryvaracode.Common.{ℕ, zero, suc, ◌≡◌, refl, none, some, List, [], ◌∷◌, arith, take, All}
use kryvaracode.Db.Table.{Row, Table, first, get, put}
use kryvaracode.Db.Table.Laws.{IsKeyed, get-put}

module _ {A : Type 0} where
  -- The table holds each of the rows under its key.
  abbrev pub Holds : Table A → List (Row A) → Type 0
  Holds rows = All (λ r. get r.0 rows ≡ some r)

  cons-Holds :
      (x : Row A) (rows t : Table A) → get x.0 rows ≡ none → Holds t rows → Holds (x ∷ t) rows
  unfolding first
  cons-Holds x [] t apart h = tt
  cons-Holds x (r ∷ rows) t apart h = (ground (arith, h.0), cons-Holds x rows t (ground arith) h.1)

  table-Holds : (t : Table A) → IsKeyed t → Holds t t
  unfolding first
  table-Holds [] k = tt
  table-Holds (r ∷ t) k = (ground arith, cons-Holds r t t k.0 (table-Holds t k.1))

  take-Holds : (n : ℕ) (rows t : Table A) → Holds t rows → Holds t (take n rows)
  take-Holds zero rows t h = tt
  take-Holds (suc n) [] t h = tt
  take-Holds (suc n) (r ∷ rows) t h = (h.0, take-Holds n rows t h.1)

  get-take : (n key : ℕ) (rows : Table A) → get key rows ≡ none → get key (take n rows) ≡ none
  unfolding first
  get-take zero key rows h = refl
  get-take (suc n) key [] h = refl
  get-take (suc n) key (r ∷ rows) h = ground (arith, get-take n key rows)

  pub take-IsKeyed : (n : ℕ) (rows : Table A) → IsKeyed rows → IsKeyed (take n rows)
  take-IsKeyed zero rows k = tt
  take-IsKeyed (suc n) [] k = tt
  take-IsKeyed (suc n) (r ∷ rows) k = (get-take n r.0 rows k.0, take-IsKeyed n rows k.1)

  -- A listing of a table is held by it.
  pub listing-Holds : (n : ℕ) (t : Table A) → IsKeyed t → Holds t (take n t)
  listing-Holds n t k = take-Holds n t t (table-Holds t k)

  -- A write under another key leaves the rows held.
  pub put-Holds :
      (key : ℕ) (a : A) (rows t : Table A)
      → get key rows ≡ none
      → Holds t rows
      → Holds (put key a t) rows
  unfolding first
  put-Holds key a [] t apart h = tt
  put-Holds key a (r ∷ rows) t apart h =
      (ground (arith, get-put key r.0 a t, h.0), put-Holds key a rows t (ground arith) h.1)
