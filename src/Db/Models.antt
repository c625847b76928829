-- ===== src/Db/Models.antt =====
-- src/db/models.py: the columns of each table beside its primary key. Times are seconds. The columns
-- `created_at` and `updated_at` are set by the database server and read by none of the operations, and
-- the relationships are queries over the foreign keys: both are left out.
use kryvaracode.Common.{ℕ, String, Bool, Option, List}
use kryvaracode.Common.Dict.{Dict}
use kryvaracode.Db.Table.{Table}

-- A JSON column holds a document as it was printed.
abbrev pub Json : Type 0
Json = String

pub record User : Type 0 where
  pub email : String
  pub username : String
  pub hashed_password : String
  pub full_name : Option String
  pub is_active : Bool
  pub is_superuser : Bool
  pub is_verified : Bool
  pub failed_login_attempts : ℕ
  pub lock_until : Option ℕ
  pub password_reset_token : Option String
  pub hashed_reset_token : Option String
  pub password_reset_expires : Option ℕ

pub record Item : Type 0 where
  pub title : String
  pub description : Option String
  pub owner_id : ℕ

pub record ModelMetadata : Type 0 where
  pub name : String
  pub version : String
  pub description : Option String
  pub file_path : String
  pub file_size : Option ℕ
  pub accuracy : Option String
  pub created_by : ℕ

pub record Experiment : Type 0 where
  pub name : String
  pub description : Option String
  pub status : String
  pub start_time : Option ℕ
  pub end_time : Option ℕ
  pub metrics : Option Json
  pub parameters : Option Json
  pub created_by : ℕ

pub record AuditLog : Type 0 where
  pub tool_name : String
  pub user_id : Option ℕ
  pub arguments : Option String
  pub success : Bool
  pub error : Option String
  pub duration_ms : Option ℕ

pub record ScheduledJob : Type 0 where
  pub name : String
  pub tool_name : String
  pub arguments : Option Json
  pub interval_seconds : ℕ
  pub trigger_condition : Option String
  pub enabled : Bool
  pub last_run_at : Option ℕ
  pub last_status : Option String
  pub created_by : Option ℕ

pub record Dataset : Type 0 where
  pub name : String
  pub description : Option String
  pub storage_uri : String
  pub format : String
  pub row_count : Option ℕ
  pub columns : Option (List String)
  pub status : String
  pub created_by : ℕ

pub record RefreshToken : Type 0 where
  pub user_id : ℕ
  pub expires_at : ℕ
  pub revoked : Bool

-- The database. The refresh tokens are keyed by their unique column `token`.
pub record Database : Type 0 where
  pub users : Table User
  pub items : Table Item
  pub model_metadata : Table ModelMetadata
  pub experiments : Table Experiment
  pub audit_log : Table AuditLog
  pub scheduled_jobs : Table ScheduledJob
  pub datasets : Table Dataset
  pub refresh_tokens : Dict RefreshToken

unfoldable pub empty_database : Database
empty_database = record {
  users = List.[];
  items = List.[];
  model_metadata = List.[];
  experiments = List.[];
  audit_log = List.[];
  scheduled_jobs = List.[];
  datasets = List.[];
  refresh_tokens = List.[];
}
