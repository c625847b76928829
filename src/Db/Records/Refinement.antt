-- ===== src/Db/Records/Refinement.antt =====
-- crud.py: the experiments are a map from keys to rows.
use kryvaracode.Common.{
  ℕ, ◌≡◌, refl, ap, ◌∙◌, String, Option, none, some, List, [], ◌∷◌, eqb, if◌then◌else◌, Bool-cases,
  inl, inr,
}
use kryvaracode.Db.Table.{Row, get}
use kryvaracode.Db.Table.Laws.{IsKeyed, get-add, add-IsKeyed}
use kryvaracode.Db.Models.{Experiment, Json, Database}
use kryvaracode.Db.Records.Laws.{
  change_at, get-changed, changed-IsKeyed, get-deleted, deleted-IsKeyed,
}
use kryvaracode.Db.Records.{
  ExperimentField, ExperimentField.description, ExperimentField.status, ExperimentField.start_time,
  ExperimentField.end_time, ExperimentField.metrics, ExperimentField.parameters, set_experiment,
  set_all, get_experiment, create_experiment, update_experiment, delete_experiment,
}

-- The operations that change experiments; a creation with the key that the database gives.
pub data ExperimentOp : Type 0 where
  creates : ℕ → (ℕ → Experiment) → ℕ → ExperimentOp
  updates : ℕ → List ExperimentField → ExperimentOp
  deletes : ℕ → ExperimentOp

unfoldable pub perform : ExperimentOp → Database → Database
perform (creates key columns user_id) db = (create_experiment key columns user_id db).0
perform (updates key fields) db = (update_experiment key fields db).0
perform (deletes key) db = (delete_experiment key db).0

unfoldable pub perform_all : List ExperimentOp → Database → Database
perform_all [] db = db
perform_all (op ∷ ops) db = perform_all ops (perform op db)

-- No creation is given a key that is in use.
abbrev pub IsFresh : ExperimentOp → Database → Type 0
IsFresh (creates key columns user_id) db = get key db.experiments ≡ none
IsFresh _ db = Unit

abbrev pub AreFresh : List ExperimentOp → Database → Type 0
AreFresh [] db = Unit
AreFresh (op ∷ ops) db = IsFresh op db × AreFresh ops (perform op db)

-- What an update gives to a column: the last value for it that is not None.
abbrev pub latest {ℓ} : {B : Type ℓ} → (ExperimentField → Option B) → List ExperimentField → B → B
latest pick [] old = old
latest pick (field ∷ fields) old =
    latest pick fields (elim (pick field) [ none ↦ old | some new ↦ new ])

-- The value for a column, where a column that may be empty is never emptied.
abbrev pub as_given {ℓ} : {B : Type ℓ} → Option B → Option (Option B)
as_given none = none
as_given (some v) = some (some v)

abbrev pub for_description : ExperimentField → Option (Option String)
for_description (description v) = as_given v
for_description _ = none

abbrev pub for_status : ExperimentField → Option String
for_status (status v) = v
for_status _ = none

abbrev pub for_start_time : ExperimentField → Option (Option ℕ)
for_start_time (start_time v) = as_given v
for_start_time _ = none

abbrev pub for_end_time : ExperimentField → Option (Option ℕ)
for_end_time (end_time v) = as_given v
for_end_time _ = none

abbrev pub for_metrics : ExperimentField → Option (Option Json)
for_metrics (metrics v) = as_given v
for_metrics _ = none

abbrev pub for_parameters : ExperimentField → Option (Option Json)
for_parameters (parameters v) = as_given v
for_parameters _ = none

-- The row after an update, column by column.
abbrev pub revised : List ExperimentField → Experiment → Experiment
revised fields e = record {
  name = e.name;
  description = latest for_description fields e.description;
  status = latest for_status fields e.status;
  start_time = latest for_start_time fields e.start_time;
  end_time = latest for_end_time fields e.end_time;
  metrics = latest for_metrics fields e.metrics;
  parameters = latest for_parameters fields e.parameters;
  created_by = e.created_by;
}

set_all-eq-revised :
    (fields : List ExperimentField) (e : Experiment)
    → set_all set_experiment fields e ≡ revised fields e
unfolding set_all set_experiment
set_all-eq-revised [] e = refl
set_all-eq-revised (description (some v) ∷ fields) e =
    set_all-eq-revised fields (record e { description = some v })
set_all-eq-revised (status (some v) ∷ fields) e =
    set_all-eq-revised fields (record e { status = v })
set_all-eq-revised (start_time (some v) ∷ fields) e =
    set_all-eq-revised fields (record e { start_time = some v })
set_all-eq-revised (end_time (some v) ∷ fields) e =
    set_all-eq-revised fields (record e { end_time = some v })
set_all-eq-revised (metrics (some v) ∷ fields) e =
    set_all-eq-revised fields (record e { metrics = some v })
set_all-eq-revised (parameters (some v) ∷ fields) e =
    set_all-eq-revised fields (record e { parameters = some v })
set_all-eq-revised (description none ∷ fields) e = set_all-eq-revised fields e
set_all-eq-revised (status none ∷ fields) e = set_all-eq-revised fields e
set_all-eq-revised (start_time none ∷ fields) e = set_all-eq-revised fields e
set_all-eq-revised (end_time none ∷ fields) e = set_all-eq-revised fields e
set_all-eq-revised (metrics none ∷ fields) e = set_all-eq-revised fields e
set_all-eq-revised (parameters none ∷ fields) e = set_all-eq-revised fields e

-- What an operation makes of the entry of one key in a map.
abbrev pub entry : ℕ → ExperimentOp → Option (Row Experiment) → Option (Row Experiment)
entry id (creates key columns user_id) old = if eqb key id then some (key, columns user_id) else old
entry id (updates key fields) none = none
entry id (updates key fields) (some (k, e)) = some (k, if eqb key id then revised fields e else e)
entry id (deletes key) old = if eqb key id then none else old

abbrev pub entry_all : ℕ → List ExperimentOp → Option (Row Experiment) → Option (Row Experiment)
entry_all id [] old = old
entry_all id (op ∷ ops) old = entry_all id ops (entry id op old)

changed_entry :
    (key id : ℕ) (fields : List ExperimentField) (old : Option (Row Experiment))
    → change_at key id (set_all set_experiment fields) old ≡ entry id (updates key fields) old
changed_entry key id fields none = refl
changed_entry key id fields (some (k, e)) = elim (Bool-cases (eqb key id)) [
  | inl own ↦ rw own (ap (λ x. some (k, x)) (set_all-eq-revised fields e))
  | inr other ↦ rw other refl
]

get_experiment-perform :
    (op : ExperimentOp) (id : ℕ) (db : Database)
    → IsKeyed db.experiments
    → IsFresh op db
    → (get_experiment id (perform op db) ≡ entry id op (get_experiment id db))
      × IsKeyed (perform op db).experiments
unfolding get_experiment perform create_experiment update_experiment delete_experiment
get_experiment-perform (creates key columns user_id) id db k new = (
  get-add key id (columns user_id) db.experiments new,
  add-IsKeyed key (columns user_id) db.experiments new k,
)
get_experiment-perform (updates key fields) id db k _ =
    let f = set_all set_experiment fields in
    (
      get-changed key id f db.experiments ∙ changed_entry key id fields (get id db.experiments),
      changed-IsKeyed key f db.experiments k,
    )
get_experiment-perform (deletes key) id db k _ =
    (get-deleted key id db.experiments k, deleted-IsKeyed key db.experiments k)

-- Whatever experiments are created, updated and deleted, in whatever order, with keys that are not in
-- use, in a table with distinct keys: the row under a key is what the same operations make of an entry of a map, where an update gives
-- each column the last of its values that is not None, keeps a column that has none, and changes no other
-- key; and the keys stay distinct.
pub get_experiment-perform_all :
    (ops : List ExperimentOp) (id : ℕ) (db : Database)
    → IsKeyed db.experiments
    → AreFresh ops db
    → (get_experiment id (perform_all ops db) ≡ entry_all id ops (get_experiment id db))
      × IsKeyed (perform_all ops db).experiments
unfolding perform_all
get_experiment-perform_all [] id db k fresh = (refl, k)
get_experiment-perform_all (op ∷ ops) id db k fresh =
    let (here, keyed) = get_experiment-perform op id db k fresh.0 in
    let (later, all) = get_experiment-perform_all ops id (perform op db) keyed fresh.1 in
    (rw here at later, all)
