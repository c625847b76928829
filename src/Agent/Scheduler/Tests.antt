-- ===== src/Agent/Scheduler/Tests.antt =====
-- Two jobs, one of them due, for scheduler.py.
use kryvaracode.Common.{ℕ, ◌≡◌, refl, String, true, Option, none, some, [], ◌∷◌, is_some}
use kryvaracode.Core.Exceptions.{Exception, http, integrity_error}
use kryvaracode.Db.Models.{ScheduledJob, Json, Database, empty_database}
use kryvaracode.Db.Table.{first, put}
use kryvaracode.Db.Records.Jobs.{list_scheduled_jobs, update_scheduled_job_run}
use kryvaracode.Agent.Triggers.{evaluate, triggered, fail_count}
use kryvaracode.Agent.Scheduler.{run_job, run_jobs, run_due_jobs}

abbrev job : Option ℕ → ScheduledJob
job last = record {
  name = "nightly";
  tool_name = "predict";
  arguments = none;
  interval_seconds = 60;
  trigger_condition = none;
  enabled = true;
  last_run_at = last;
  last_status = none;
  created_by = none;
}

abbrev two_jobs : Database
unfolding empty_database
two_jobs = record empty_database { scheduled_jobs = (1, job none) ∷ (2, job (some 90)) ∷ [] }

-- Tools that always raise, one of them an error of the database.
abbrev failing : String → Option Json → Database → Database × Option Exception
failing name arguments db = (db, some (http 400 "Bad"))

abbrev broken : String → Option Json → Database → Database × Option Exception
broken name arguments db = (db, some integrity_error)

abbrev printed : Exception → String
printed e = "Error"

first_only :
    (is_some (run_due_jobs failing printed 100 two_jobs).1 ≡ true)
    × (run_due_jobs broken printed 100 two_jobs ≡ (two_jobs, none))
unfolding run_due_jobs run_jobs run_job update_scheduled_job_run list_scheduled_jobs evaluate
    triggered fail_count first put two_jobs empty_database
first_only = (refl, refl)
