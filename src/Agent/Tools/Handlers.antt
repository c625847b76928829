-- ===== src/Agent/Tools/Handlers.antt =====
-- src/agent/tools.py: the handlers over the database. An answer is the row that the source prints; a
-- page is answered with the number of all rows. `user` is the number of the authenticated user.
use Prim.Native.String.{◌++◌ as text_append}
use kryvaracode.Common.{ℕ, String, Option, none, some, List, is_some, length, if◌then◌else◌}
use kryvaracode.Core.Exceptions.{
  Result, Result.ok, Result.raised, Exception, raise_app, ErrorClass.not_found, ErrorClass.conflict,
  ErrorClass.forbidden, ErrorClass.service_unavailable,
}
use kryvaracode.Db.Table.{Row}
use kryvaracode.Db.Models.{Dataset, ModelMetadata, Experiment, Database}
use kryvaracode.Db.Records as Records
use kryvaracode.Db.Records.{
  get_datasets, get_dataset_by_name, get_model_metadata, get_model_metadata_by_name,
  get_model_metadata_list, create_model_metadata, get_experiments,
}

-- `_require_user`
unfoldable pub require_user : Option ℕ → Result ℕ
require_user none = raised (raise_app forbidden "This tool requires an authenticated user")
require_user (some user_id) = ok user_id

-- The row that was found, or the error.
abbrev pub or_not_found {ℓ} : {A : Type ℓ} → String → Option A → Result A
or_not_found message none = raised (raise_app not_found message)
or_not_found message (some row) = ok row

-- `Dataset 'name' already exists`, and its like
abbrev pub quoted : String → String → String → String
quoted before name after = text_append before (text_append name after)

unfoldable pub list_datasets : ℕ → ℕ → Database → List (Row Dataset) × ℕ
list_datasets skip limit db = (get_datasets skip limit db, length db.datasets)

unfoldable pub get_dataset : ℕ → Database → Result (Row Dataset)
get_dataset dataset_id db = or_not_found "Dataset not found" (Records.get_dataset dataset_id db)

unfoldable pub create_dataset :
    ℕ → String → (ℕ → Dataset) → Option ℕ → Database → Database × Result (Row Dataset)
unfolding require_user
create_dataset key name columns user db = elim (require_user user) [
  | raised e ↦ (db, raised e)
  | ok user_id ↦
      if is_some (get_dataset_by_name name db)
      then (db, raised (raise_app conflict (quoted "Dataset '" name "' already exists")))
      else (
        (Records.create_dataset key columns user_id db).0,
        ok (Records.create_dataset key columns user_id db).1,
      )
]

unfoldable pub list_models : ℕ → ℕ → Database → List (Row ModelMetadata) × ℕ
list_models skip limit db = (get_model_metadata_list skip limit db, length db.model_metadata)

unfoldable pub get_model : ℕ → Database → Result (Row ModelMetadata)
get_model model_id db = or_not_found "Model not found" (get_model_metadata model_id db)

unfoldable pub get_model_by_name : String → Option String → Database → Result (Row ModelMetadata)
get_model_by_name name version db =
    or_not_found (quoted "Model '" name "' not found") (get_model_metadata_by_name name version db)

unfoldable pub register_model :
    ℕ
    → String
    → String
    → (ℕ → ModelMetadata)
    → Option ℕ
    → Database
    → Database × Result (Row ModelMetadata)
unfolding require_user
register_model key name version columns user db = elim (require_user user) [
  | raised e ↦ (db, raised e)
  | ok user_id ↦
      if is_some (get_model_metadata_by_name name (some version) db)
      then (
        db,
        raised (
            raise_app conflict
              (quoted (quoted "Model '" name "' version '") version "' already registered")),
      )
      else (
        (create_model_metadata key columns user_id db).0,
        ok (create_model_metadata key columns user_id db).1,
      )
]

unfoldable pub list_experiments : ℕ → ℕ → Database → List (Row Experiment) × ℕ
list_experiments skip limit db = (get_experiments skip limit db, length db.experiments)

unfoldable pub get_experiment : ℕ → Database → Result (Row Experiment)
get_experiment experiment_id db =
    or_not_found "Experiment not found" (Records.get_experiment experiment_id db)

unfoldable pub create_experiment :
    ℕ → (ℕ → Experiment) → Option ℕ → Database → Database × Result (Row Experiment)
unfolding require_user
create_experiment key columns user db = elim (require_user user) [
  | raised e ↦ (db, raised e)
  | ok user_id ↦ (
    (Records.create_experiment key columns user_id db).0,
    ok (Records.create_experiment key columns user_id db).1,
  )
]

-- `train_model` is not implemented in the source either.
unfoldable pub train_model : Exception
train_model =
    raise_app service_unavailable "Training pipeline not implemented yet — see src/ml/training.py"
