-- ===== src/Db/Records.antt =====
-- src/db/crud.py: the operations on the tables beside the users'. The key of a new row is an argument;
-- `**data` is the row's columns without the owner. An update is a list of columns, None for a value that
-- was not given.
pub mod Jobs
pub mod Laws
pub mod Refinement
mod Tests
use kryvaracode.Common.{
  ℕ, String, Bool, true, false, ◌&&◌, Option, none, some, List, [], ◌∷◌, ◌==◌, leb, is_some,
  if◌then◌else◌,
}
use kryvaracode.Db.Table.{Row, Table, first, get, add, put, remove, page}
use kryvaracode.Db.Models.{Item, ModelMetadata, Experiment, AuditLog, Dataset, Json, Database}

module _ {A : Type 0} where
  -- A row that was found is deleted and answered.
  abbrev pub deleted : ℕ → Table A → Table A × Option (Row A)
  deleted key rows = elim (get key rows) [
    | none ↦ (rows, none)
    | some row ↦ (remove row.0 rows, some row)
  ]

  -- A row that was found is changed and answered.
  abbrev pub changed : ℕ → (A → A) → Table A → Table A × Option (Row A)
  changed key f rows = elim (get key rows) [
    | none ↦ (rows, none)
    | some (k, a) ↦ (put k (f a) rows, some (k, f a))
  ]

unfoldable pub get_items : ℕ → ℕ → Database → List (Row Item)
get_items skip limit db = page skip limit db.items

unfoldable pub get_item : ℕ → Database → Option (Row Item)
get_item item_id db = get item_id db.items

unfoldable pub create_user_item : ℕ → String → Option String → ℕ → Database → Database × Row Item
create_user_item key title description user_id db =
    let item : Item = record { title = title; description = description; owner_id = user_id } in
    (record db { items = add key item db.items }, (key, item))

unfoldable pub delete_item : ℕ → Database → Database × Option (Row Item)
delete_item item_id db =
    let (rows, row) = deleted item_id db.items in (record db { items = rows }, row)

unfoldable pub get_model_metadata : ℕ → Database → Option (Row ModelMetadata)
get_model_metadata model_id db = get model_id db.model_metadata

-- `if version:` holds of a text that is not empty.
abbrev pub wants_version : Option String → Bool
wants_version none = false
wants_version (some v) = if v == "" then false else true

abbrev pub has_version : Option String → Row ModelMetadata → Bool
has_version none row = true
has_version (some v) row = row.1.version == v

abbrev pub is_model : String → Option String → Row ModelMetadata → Bool
is_model name version row =
    (row.1.name == name) && (if wants_version version then has_version version row else true)

unfoldable pub get_model_metadata_by_name :
    String → Option String → Database → Option (Row ModelMetadata)
get_model_metadata_by_name name version db = first (is_model name version) db.model_metadata

unfoldable pub get_model_metadata_list : ℕ → ℕ → Database → List (Row ModelMetadata)
get_model_metadata_list skip limit db = page skip limit db.model_metadata

unfoldable pub create_model_metadata :
    ℕ → (ℕ → ModelMetadata) → ℕ → Database → Database × Row ModelMetadata
create_model_metadata key model_data user_id db =
    let model = model_data user_id in
    (record db { model_metadata = add key model db.model_metadata }, (key, model))

unfoldable pub delete_model_metadata : ℕ → Database → Database × Option (Row ModelMetadata)
delete_model_metadata model_id db =
    let (rows, row) = deleted model_id db.model_metadata in
    (record db { model_metadata = rows }, row)

unfoldable pub get_experiment : ℕ → Database → Option (Row Experiment)
get_experiment experiment_id db = get experiment_id db.experiments

unfoldable pub get_experiments : ℕ → ℕ → Database → List (Row Experiment)
get_experiments skip limit db = page skip limit db.experiments

unfoldable pub create_experiment : ℕ → (ℕ → Experiment) → ℕ → Database → Database × Row Experiment
create_experiment key experiment_data user_id db =
    let experiment = experiment_data user_id in
    (record db { experiments = add key experiment db.experiments }, (key, experiment))

-- One item of the dictionary of an update: a column and its value.
pub data ExperimentField : Type 0 where
  description : Option String → ExperimentField
  status : Option String → ExperimentField
  start_time : Option ℕ → ExperimentField
  end_time : Option ℕ → ExperimentField
  metrics : Option Json → ExperimentField
  parameters : Option Json → ExperimentField

-- `if value is not None: setattr(db_experiment, field, value)`
unfoldable pub set_experiment : ExperimentField → Experiment → Experiment
set_experiment (description (some v)) e = record e { description = some v }
set_experiment (status (some v)) e = record e { status = v }
set_experiment (start_time (some v)) e = record e { start_time = some v }
set_experiment (end_time (some v)) e = record e { end_time = some v }
set_experiment (metrics (some v)) e = record e { metrics = some v }
set_experiment (parameters (some v)) e = record e { parameters = some v }
set_experiment _ e = e

-- The loop over the items of the dictionary.
unfoldable pub set_all {ℓ κ} : {F : Type ℓ} {A : Type κ} → (F → A → A) → List F → A → A
set_all set [] a = a
set_all set (field ∷ fields) a = set_all set fields (set field a)

unfoldable pub update_experiment :
    ℕ → List ExperimentField → Database → Database × Option (Row Experiment)
unfolding set_all set_experiment
update_experiment experiment_id experiment_data db =
    let (rows, row) =
      changed experiment_id (set_all set_experiment experiment_data) db.experiments in
    (record db { experiments = rows }, row)

unfoldable pub delete_experiment : ℕ → Database → Database × Option (Row Experiment)
delete_experiment experiment_id db =
    let (rows, row) = deleted experiment_id db.experiments in
    (record db { experiments = rows }, row)

unfoldable pub get_dataset : ℕ → Database → Option (Row Dataset)
get_dataset dataset_id db = get dataset_id db.datasets

unfoldable pub get_dataset_by_name : String → Database → Option (Row Dataset)
get_dataset_by_name name db = first (λ row. row.1.name == name) db.datasets

unfoldable pub get_datasets : ℕ → ℕ → Database → List (Row Dataset)
get_datasets skip limit db = page skip limit db.datasets

unfoldable pub create_dataset : ℕ → (ℕ → Dataset) → ℕ → Database → Database × Row Dataset
create_dataset key dataset_data user_id db =
    let dataset = dataset_data user_id in
    (record db { datasets = add key dataset db.datasets }, (key, dataset))

pub data DatasetField : Type 0 where
  description : Option String → DatasetField
  row_count : Option ℕ → DatasetField
  columns : Option (List String) → DatasetField
  status : Option String → DatasetField

unfoldable pub set_dataset : DatasetField → Dataset → Dataset
set_dataset (DatasetField.description (some v)) d = record d { description = some v }
set_dataset (row_count (some v)) d = record d { row_count = some v }
set_dataset (columns (some v)) d = record d { columns = some v }
set_dataset (DatasetField.status (some v)) d = record d { status = v }
set_dataset _ d = d

unfoldable pub update_dataset : ℕ → List DatasetField → Database → Database × Option (Row Dataset)
unfolding set_all set_dataset
update_dataset dataset_id dataset_data db =
    let (rows, row) = changed dataset_id (set_all set_dataset dataset_data) db.datasets in
    (record db { datasets = rows }, row)

unfoldable pub delete_dataset : ℕ → Database → Database × Option (Row Dataset)
delete_dataset dataset_id db =
    let (rows, row) = deleted dataset_id db.datasets in (record db { datasets = rows }, row)

unfoldable pub create_audit_entry : ℕ → AuditLog → Database → Database × Row AuditLog
create_audit_entry key entry db =
    (record db { audit_log = add key entry db.audit_log }, (key, entry))

-- `order_by(id.desc())`
unfoldable pub place_newest : {A : Type 0} → Row A → Table A → Table A
place_newest r [] = r ∷ []
place_newest r (q ∷ qs) =
    let rest = place_newest r qs in if leb q.0 r.0 then r ∷ q ∷ qs else q ∷ rest

unfoldable pub newest_first : {A : Type 0} → Table A → Table A
newest_first [] = []
newest_first (r ∷ rs) = place_newest r (newest_first rs)

unfoldable pub list_audit_entries : ℕ → ℕ → Database → List (Row AuditLog)
unfolding newest_first place_newest
list_audit_entries skip limit db = page skip limit (newest_first db.audit_log)
