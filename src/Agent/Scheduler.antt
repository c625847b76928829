-- ===== src/Agent/Scheduler.antt =====
-- src/agent/scheduler.py: the handlers of scheduled jobs and the run of those that are due. `invoke` is
-- the call of a tool for the user, `job.arguments or {}` included, which answers an exception or none;
-- `describe` prints an exception with its type. The rows of a listing are the session's objects, so a job
-- is read as the database has it when its turn comes.
pub mod Due
mod Tests
use Prim.Native.String.{◌++◌ as text_append}
use kryvaracode.Common.{
  ℕ, ◌+◌, String, Bool, true, false, not, ◌&&◌, ◌||◌, Option, none, some, List, [], ◌∷◌, leb,
  is_some, is_none, length, if◌then◌else◌,
}
use kryvaracode.Core.Exceptions.{
  Result, Result.ok, Result.raised, Exception, app, http, integrity_error, raise_app,
  ErrorClass.not_found, ErrorClass.conflict,
}
use kryvaracode.Db.Table.{Row, get}
use kryvaracode.Db.Models.{ScheduledJob, Json, Database}
use kryvaracode.Db.Records.Jobs as Jobs
use kryvaracode.Db.Records.Jobs.{get_scheduled_job_by_name, update_scheduled_job_run}
use kryvaracode.Agent.Tools.{Tool, get_tool, clip}
use kryvaracode.Agent.Triggers.{evaluate}

pub record CreateScheduledJobArgs : Type 0 where
  pub name : String
  pub tool_name : String
  pub arguments : Json
  pub interval_seconds : ℕ
  pub enabled : Bool

-- The columns of a new job.
abbrev pub job_of : CreateScheduledJobArgs → Option ℕ → ScheduledJob
job_of args user_id = record {
  name = args.name;
  tool_name = args.tool_name;
  arguments = some args.arguments;
  interval_seconds = args.interval_seconds;
  trigger_condition = none;
  enabled = args.enabled;
  last_run_at = none;
  last_status = none;
  created_by = user_id;
}

unfoldable pub create_scheduled_job :
    List Tool
    → ℕ
    → CreateScheduledJobArgs
    → Option ℕ
    → Database
    → Database × Result (Row ScheduledJob)
create_scheduled_job tools key args user db =
    if is_none (get_tool args.tool_name tools)
    then (
      db,
      raised (raise_app not_found (text_append "Unknown tool '" (text_append args.tool_name "'"))),
    )
    else (if is_some (get_scheduled_job_by_name args.name db)
        then (
          db,
          raised (
              raise_app conflict
                (text_append "Scheduled job '" (text_append args.name "' already exists"))),
        )
        else Jobs.create_scheduled_job key (job_of args) user db)

unfoldable pub list_scheduled_jobs : ℕ → ℕ → Database → List (Row ScheduledJob) × ℕ
list_scheduled_jobs skip limit db =
    let rows = Jobs.list_scheduled_jobs skip limit db in (rows, length rows)

unfoldable pub delete_scheduled_job : ℕ → Database → Database × Result (Unit {0})
delete_scheduled_job job_id db =
    let (db', row) = Jobs.delete_scheduled_job job_id db in
    if is_some row
    then (db', ok tt)
    else (db', raised (raise_app not_found "Scheduled job not found"))

-- A job that never ran is due, else one whose interval is over.
abbrev pub due_by_interval : ℕ → ScheduledJob → Bool
due_by_interval now job = elim job.last_run_at [
  | none ↦ true
  | some last ↦ leb (last + job.interval_seconds) now
]

pub record JobRun : Type 0 where
  pub job_id : ℕ
  pub name : String
  pub tool_name : String
  pub status : String
  pub trigger : String

-- The job of a listed row, as the session holds it.
abbrev pub current : Row ScheduledJob → Database → ScheduledJob
current row db = elim (get row.0 db.scheduled_jobs) [ none ↦ row.1 | some found ↦ found.1 ]

-- A failed commit leaves the session in a state in which its next query raises, since nothing on the way
-- rolls it back.
abbrev pub breaks_session : Option Exception → Bool
breaks_session none = false
breaks_session (some integrity_error) = true
breaks_session (some (app _)) = false
breaks_session (some (http _ _)) = false

abbrev pub with_run : JobRun → Option (List JobRun) → Option (List JobRun)
with_run run none = none
with_run run (some runs) = some (run ∷ runs)

module _ (invoke : String → Option Json → Database → Database × Option Exception)
    (describe : Exception → String) where
  abbrev pub status_of : Option Exception → String
  status_of none = "success"
  status_of (some e) = clip 500 (text_append "failed: " (describe e))

  -- The body of the loop for a job that is due; `none` if the session refuses the update.
  unfoldable pub run_job : ℕ → ℕ → ScheduledJob → Bool → Database → Database × Option JobRun
  run_job now job_id job by_event db =
      let called = invoke job.tool_name job.arguments db in
      let status = status_of called.1 in
      if breaks_session called.1 then (called.0, none) else (
        (update_scheduled_job_run job_id status now called.0).0,
        some (record {
          job_id = job_id;
          name = job.name;
          tool_name = job.tool_name;
          status = status;
          trigger = if by_event && not (due_by_interval now job) then "event" else "interval";
        }),
      )

  abbrev pub is_due : ℕ → ScheduledJob → Database → Bool
  is_due now job db = job.enabled && (due_by_interval now job || evaluate db job)

  -- The loop over the listed rows; `none` if an exception leaves it.
  unfoldable pub run_jobs : ℕ → List (Row ScheduledJob) → Database → Database × Option (List JobRun)
  run_jobs now [] db = (db, some [])
  run_jobs now (row ∷ rows) db =
      let job = current row db in
      let ran = run_job now row.0 job (evaluate db job) db in
      let after_run = run_jobs now rows ran.0 in
      let skipped = run_jobs now rows db in
      if is_due now job db
      then (elim ran.1 [
        | none ↦ (ran.0, none)
        | some run ↦ (after_run.0, with_run run after_run.1)
      ])
      else skipped

  unfoldable pub run_due_jobs : ℕ → Database → Database × Option (List JobRun)
  unfolding run_jobs
  run_due_jobs now db = run_jobs now (Jobs.list_scheduled_jobs 0 1000 db) db
