-- ===== src/Agent/Scheduler/Due.antt =====
-- scheduler.py: which jobs a run executes, and what it leaves of them.
use kryvaracode.Common.{
  ℕ, ◌+◌, ◌≡◌, String, Bool, false, ◌&&◌, ◌||◌, Option, none, some, List, map, leb, if◌then◌else◌,
  keep, All,
}
use kryvaracode.Core.Exceptions.{Exception}
use kryvaracode.Db.Table.{Row, get}
use kryvaracode.Db.Models.{ScheduledJob, Json, Database}
use kryvaracode.Agent.Triggers.{triggered}
use kryvaracode.Agent.Scheduler.{JobRun, breaks_session}

-- The time from which a job is due by its interval: any for a job that never ran.
abbrev pub next_due : ScheduledJob → ℕ
next_due job = elim job.last_run_at [ none ↦ 0 | some last ↦ last + job.interval_seconds ]

-- A job that a run at a time executes: enabled, and due by its interval or its condition.
abbrev pub due_now : ℕ → ScheduledJob → Bool
due_now now job = job.enabled && (leb (next_due job) now || triggered 0 job)

-- When the job under a key last ran.
abbrev pub last_run : ℕ → Database → Option (Option ℕ)
last_run key db = elim (get key db.scheduled_jobs) [
  | none ↦ none
  | some row ↦ some row.1.last_run_at
]

module _ (invoke : String → Option Json → Database → Database × Option Exception)
    (describe : Exception → String) (now : ℕ) where
  -- The tool of a job, with the arguments of the job, leaves the table of jobs alone and does not break
  -- the session.
  abbrev pub LeavesJobs : Row ScheduledJob → Type 0
  LeavesJobs row =
      (db : Database)
      → ((invoke row.1.tool_name row.1.arguments db).0.scheduled_jobs ≡ db.scheduled_jobs)
        × (breaks_session (invoke row.1.tool_name row.1.arguments db).1 ≡ false)

  -- The runs and the last times after the loop over rows that the table holds.
  abbrev pub Runs : List (Row ScheduledJob) → Database → Database × Option (List JobRun) → Type 0
  Runs rows db after =
      (runs : List JobRun) × (after.1 ≡ some runs)
      × (map (λ r. r.job_id) runs ≡ map (λ r. r.0) (keep (λ r. due_now now r.1) rows))
      × All
          (λ r. last_run r.0 after.0 ≡ some (if due_now now r.1 then some now else r.1.last_run_at))
          rows
      × ((key : ℕ) → get key rows ≡ none → last_run key after.0 ≡ last_run key db)
