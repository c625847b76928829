-- ===== src/Db/Table.antt =====
-- What src/db/crud.py asks of SQLAlchemy: a table is the list of its rows in the order in which the
-- database returns them, each a primary key with the other columns. A key is given by the database, so
-- it is an argument of what adds a row. `commit` writes at once, and `refresh` reads the same row.
pub mod Laws
pub mod Listed
use kryvaracode.Common.{
  ℕ, Bool, Option, none, some, List, [], ◌∷◌, ◌++◌, eqb, if◌then◌else◌, take, drop,
}

abbrev pub Row : Type 0 → Type 0
Row A = ℕ × A

abbrev pub Table : Type 0 → Type 0
Table A = List (Row A)

module _ {A : Type 0} where
  -- `query.filter(p).first()`
  unfoldable pub first : (Row A → Bool) → Table A → Option (Row A)
  first p [] = none
  first p (r ∷ rs) = if p r then some r else first p rs

  -- `filter(model.id == key).first()`
  abbrev pub get : ℕ → Table A → Option (Row A)
  get key = first (λ r. eqb r.0 key)

  -- `add(row)` with the key that the database gives
  abbrev pub add : ℕ → A → Table A → Table A
  add key a rows = rows ++ (key, a) ∷ []

  -- An assignment to the attributes of a row that was read, committed.
  unfoldable pub put : ℕ → A → Table A → Table A
  put key a [] = []
  put key a (r ∷ rs) = let rest = put key a rs in if eqb r.0 key then (key, a) ∷ rs else r ∷ rest

  -- `delete(row)`
  unfoldable pub remove : ℕ → Table A → Table A
  remove key [] = []
  remove key (r ∷ rs) = let rest = remove key rs in if eqb r.0 key then rs else r ∷ rest

  -- `offset(skip).limit(limit).all()`. Without an ORDER BY the order of the rows is the database's; it is
  -- taken to be that of the table.
  abbrev pub page : ℕ → ℕ → Table A → Table A
  page skip limit rows = take limit (drop skip rows)
