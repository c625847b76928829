-- ===== src/Db/Records/Jobs.antt =====
-- src/db/crud.py: the operations on scheduled jobs.
use kryvaracode.Common.{ℕ, String, Option, none, some, List, ◌==◌, is_some, if◌then◌else◌}
use kryvaracode.Core.Exceptions.{Result, Result.ok, Result.raised, integrity_error}
use kryvaracode.Db.Table.{Row, first, get, add, put, remove, page}
use kryvaracode.Db.Models.{ScheduledJob, Database}

unfoldable pub get_scheduled_job : ℕ → Database → Option (Row ScheduledJob)
get_scheduled_job job_id db = get job_id db.scheduled_jobs

unfoldable pub get_scheduled_job_by_name : String → Database → Option (Row ScheduledJob)
get_scheduled_job_by_name name db = first (λ row. row.1.name == name) db.scheduled_jobs

unfoldable pub list_scheduled_jobs : ℕ → ℕ → Database → List (Row ScheduledJob)
list_scheduled_jobs skip limit db = page skip limit db.scheduled_jobs

-- The column `name` is unique, on which `commit` refuses a second row.
unfoldable pub create_scheduled_job :
    ℕ → (Option ℕ → ScheduledJob) → Option ℕ → Database → Database × Result (Row ScheduledJob)
create_scheduled_job key job_data user_id db =
    let job = job_data user_id in
    if is_some (first (λ (row : Row ScheduledJob). row.1.name == job.name) db.scheduled_jobs)
    then (db, raised integrity_error)
    else (record db { scheduled_jobs = add key job db.scheduled_jobs }, ok (key, job))

-- What a run leaves of a job.
abbrev pub ran : String → ℕ → ScheduledJob → ScheduledJob
ran status run_at job = record job { last_run_at = some run_at; last_status = some status }

unfoldable pub update_scheduled_job_run :
    ℕ → String → ℕ → Database → Database × Option (Row ScheduledJob)
update_scheduled_job_run job_id status run_at db = elim (get job_id db.scheduled_jobs) [
  | none ↦ (db, none)
  | some (key, job) ↦ (
    record db { scheduled_jobs = put key (ran status run_at job) db.scheduled_jobs },
    some (key, ran status run_at job),
  )
]

unfoldable pub delete_scheduled_job : ℕ → Database → Database × Option (Row ScheduledJob)
delete_scheduled_job job_id db = elim (get job_id db.scheduled_jobs) [
  | none ↦ (db, none)
  | some row ↦ (record db { scheduled_jobs = remove row.0 db.scheduled_jobs }, some row)
]
