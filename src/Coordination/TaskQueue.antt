-- ===== src/Coordination/TaskQueue.antt =====
-- src/agent/coordination/task_queue.py: the priority queue with dependencies, retries and dead
-- letters. `V` is the type of the tasks' results. A task's handler, arguments and metadata are
-- carried by the source and read by nothing in it, so they are left out. Clock readings are
-- arguments (`now`), in the unit of `datetime`; delays are whole numbers of the policy's unit.
pub mod Unblock
pub mod DeadLetters
pub mod Settled
pub mod Stats
pub mod Failure
pub mod Order
pub mod Accounting
pub mod Protocol
mod Tests
use kryvaracode.Common.{
  ℕ, ◌+◌, ◌-◌, ◌*◌, ◌^◌, min, String, Bool, true, false, ◌&&◌, ◌||◌, Option, none, some, List, [],
  ◌∷◌, eqb, leb, ltb, if◌then◌else◌, length, keep, count_if,
}
use kryvaracode.Common.Dict.{Dict, lookup, insert, without, keys, values}
use kryvaracode.Common.Dict.Sweep.{keys_where, delete_all}
use kryvaracode.Common.Int.{ℤ, ltb_ℤ}

pub data TaskStatus : Type 0 where
  pending waiting_deps running completed failed timeout dead_letter cancelled : TaskStatus

abbrev pub value : TaskStatus → String
value pending = "pending"
value waiting_deps = "waiting_deps"
value running = "running"
value completed = "completed"
value failed = "failed"
value timeout = "timeout"
value dead_letter = "dead_letter"
value cancelled = "cancelled"

abbrev pub index : TaskStatus → ℕ
index pending = 0
index waiting_deps = 1
index running = 2
index completed = 3
index failed = 4
index timeout = 5
index dead_letter = 6
index cancelled = 7

-- `a == b` on the enumeration.
abbrev pub is_status : TaskStatus → TaskStatus → Bool
is_status a b = eqb (index a) (index b)

pub record RetryPolicy : Type 0 where
  pub max_retries : ℕ
  pub base_delay : ℕ
  pub max_delay : ℕ
  pub backoff_factor : ℕ

pub record QueueTask (V : Type 0) : Type 0 where
  pub task_id : String
  pub name : String
  pub priority : ℤ
  pub status : TaskStatus
  pub dependencies : List String
  pub timeout : Option ℕ
  pub retry_policy : RetryPolicy
  pub retries_used : ℕ
  pub result : Option V
  pub error : Option String
  pub created_at : ℕ
  pub started_at : Option ℕ
  pub completed_at : Option ℕ

pub record TaskQueue (V : Type 0) : Type 0 where
  pub tasks : Dict (QueueTask V)
  pub max_concurrent : ℕ
  pub running_count : ℕ

-- The least number that a float of 64 bits rounds to infinity.
unfoldable pub float_bound : ℕ
float_bound = 2 ^ 1024 - 2 ^ 970

-- `min(base_delay * backoff_factor ** (retries_used - 1), max_delay)`; `none` if the power of floats
-- raises an OverflowError. A product beyond the floats is infinite, and the minimum is `max_delay`.
unfoldable pub retry_delay : RetryPolicy → ℕ → Option ℕ
retry_delay policy used =
    let power = policy.backoff_factor ^ (used - 1) in
    if leb float_bound power then none else some (min (policy.base_delay * power) policy.max_delay)

-- What `mark_failed` does beside its change of the table: it returns with no timer, returns with a timer
-- set, or leaves with the OverflowError of the delay.
pub data FailureAnswer : Type 0 where
  no_timer : FailureAnswer
  timer : ℕ → FailureAnswer
  overflow_error : FailureAnswer

abbrev pub zero_counts : Dict ℕ
zero_counts =
    ("pending", 0)
    ∷ ("waiting_deps", 0)
    ∷ ("running", 0)
    ∷ ("completed", 0)
    ∷ ("failed", 0)
    ∷ ("timeout", 0)
    ∷ ("dead_letter", 0)
    ∷ ("cancelled", 0)
    ∷ []

-- `counts[task.status.value] += 1`
unfoldable pub bump : String → Dict ℕ → Dict ℕ
bump k counts = elim (lookup k counts) [ none ↦ counts | some n ↦ insert k (n + 1) counts ]

module _ {V : Type 0} where
  -- `__init__`
  unfoldable pub new_queue : ℕ → TaskQueue V
  new_queue max_concurrent = record {
    tasks = [];
    max_concurrent = max_concurrent;
    running_count = 0;
  }

  -- The loop of `_check_dependencies`.
  unfoldable pub all_completed : Dict (QueueTask V) → List String → Bool
  all_completed tasks [] = true
  all_completed tasks (dep_id ∷ deps) =
      let rest = all_completed tasks deps in
      elim (lookup dep_id tasks) [
        | none ↦ false
        | some dep ↦ if is_status dep.status completed then rest else false
      ]

  unfoldable pub check_dependencies : Dict (QueueTask V) → QueueTask V → Bool
  check_dependencies tasks task = all_completed tasks task.dependencies

  unfoldable pub add_task : QueueTask V → TaskQueue V → TaskQueue V × String
  add_task task q =
      let task' : QueueTask V =
        if check_dependencies q.tasks task then task else record task { status = waiting_deps } in
      (record q { tasks = insert task.task_id task' q.tasks }, task.task_id)

  unfoldable pub cancel_task : String → ℕ → TaskQueue V → TaskQueue V × Bool
  cancel_task task_id now q = elim (lookup task_id q.tasks) [
    | none ↦ (q, false)
    | some task ↦
        if is_status task.status pending || is_status task.status waiting_deps
        then (
          record q {
            tasks =
                insert task_id (record task { status = cancelled; completed_at = some now })
                  q.tasks;
          },
          true,
        )
        else (q, false)
  ]

  unfoldable pub get_task : String → TaskQueue V → Option (QueueTask V)
  get_task task_id q = lookup task_id q.tasks

  -- The key of the sort is `(-priority, created_at)`: `a` comes strictly before `b`.
  abbrev pub before : QueueTask V → QueueTask V → Bool
  before a b =
      if ltb_ℤ b.priority a.priority
      then true
      else if ltb_ℤ a.priority b.priority
      then false
      else ltb a.created_at b.created_at

  -- Python's `sort` is stable: an element goes in front of those behind it with an equal key.
  unfoldable pub place : QueueTask V → List (QueueTask V) → List (QueueTask V)
  place t [] = t ∷ []
  place t (u ∷ us) = let rest = place t us in if before u t then u ∷ rest else t ∷ u ∷ us

  unfoldable pub sort : List (QueueTask V) → List (QueueTask V)
  unfolding place
  sort [] = []
  sort (t ∷ ts) = place t (sort ts)

  unfoldable pub get_ready_tasks : TaskQueue V → List (QueueTask V)
  unfolding sort
  get_ready_tasks q = sort (keep (λ t. is_status t.status pending) (values q.tasks))

  unfoldable pub mark_running : String → ℕ → TaskQueue V → TaskQueue V
  mark_running task_id now q = elim (lookup task_id q.tasks) [
    | none ↦ q
    | some task ↦ record q {
      tasks = insert task_id (record task { status = running; started_at = some now }) q.tasks;
      running_count = q.running_count + 1;
    }
  ]

  -- One round of the loop of `_unblock_dependents`: it reads the table as the rounds before left it.
  unfoldable pub unblock_one : Dict (QueueTask V) → String → Dict (QueueTask V)
  unblock_one tasks k = elim (lookup k tasks) [
    | none ↦ tasks
    | some task ↦
        if is_status task.status waiting_deps && check_dependencies tasks task
        then insert k (record task { status = pending }) tasks
        else tasks
  ]

  unfoldable pub unblock_loop : Dict (QueueTask V) → List String → Dict (QueueTask V)
  unfolding unblock_one
  unblock_loop tasks [] = tasks
  unblock_loop tasks (k ∷ ks) = unblock_loop (unblock_one tasks k) ks

  unfoldable pub unblock_dependents : Dict (QueueTask V) → Dict (QueueTask V)
  unfolding unblock_loop
  unblock_dependents tasks = unblock_loop tasks (keys tasks)

  -- The write of `mark_completed`, before the dependents are looked at.
  abbrev pub finished : QueueTask V → Option V → ℕ → QueueTask V
  finished task result now = record task {
    status = completed;
    result = result;
    completed_at = some now;
  }

  -- `max(0, n - 1)` is the subtraction of ℕ.
  unfoldable pub mark_completed : String → Option V → ℕ → TaskQueue V → TaskQueue V
  mark_completed task_id result now q = elim (lookup task_id q.tasks) [
    | none ↦ q
    | some task ↦ record q {
      tasks = unblock_dependents (insert task_id (finished task result now) q.tasks);
      running_count = q.running_count - 1;
    }
  ]

  -- The task that is queued again, and the delay of the timer that is set. The timer's callback
  -- is `lambda: None`, so nothing happens when it fires. An OverflowError leaves the task with the retry
  -- counted and all else as it was.
  unfoldable pub retry_task : QueueTask V → QueueTask V × FailureAnswer
  unfolding retry_delay
  retry_task task =
      let used = task.retries_used + 1 in
      elim (retry_delay task.retry_policy used) [
        | none ↦ (record task { retries_used = used }, overflow_error)
        | some delay ↦ (
          record task {
            status = pending;
            retries_used = used;
            error = none;
            started_at = none;
            completed_at = none;
          },
          timer delay,
        )
      ]

  -- The task that `mark_failed` leaves in the table, and what it does beside.
  unfoldable pub failure : QueueTask V → String → ℕ → QueueTask V × FailureAnswer
  unfolding retry_task
  failure task error now =
      let task' : QueueTask V = record task {
        status = failed;
        error = some error;
        completed_at = some now;
      } in
      if ltb task'.retries_used task'.retry_policy.max_retries
      then retry_task task'
      else (record task' { status = dead_letter }, no_timer)

  unfoldable pub mark_failed : String → String → ℕ → TaskQueue V → TaskQueue V × FailureAnswer
  mark_failed task_id error now q = elim (lookup task_id q.tasks) [
    | none ↦ (q, no_timer)
    | some task ↦ (
      record q {
        tasks = insert task_id (failure task error now).0 q.tasks;
        running_count = q.running_count - 1;
      },
      (failure task error now).1,
    )
  ]

  unfoldable pub dead_letter_count : TaskQueue V → ℕ
  dead_letter_count q = count_if (λ t. is_status t.status dead_letter) (values q.tasks)

  -- It collects the ids of the dead letters before it deletes any.
  unfoldable pub clear_dead_letters : TaskQueue V → TaskQueue V × ℕ
  unfolding keys_where delete_all
  clear_dead_letters q =
      let ids = keys_where (λ t. is_status t.status dead_letter) q.tasks in
      (record q { tasks = delete_all ids q.tasks }, length ids)

  unfoldable pub tally : List (QueueTask V) → Dict ℕ → Dict ℕ
  unfolding bump
  tally [] counts = counts
  tally (t ∷ ts) counts = tally ts (bump (value t.status) counts)

  unfoldable pub stats : TaskQueue V → Dict ℕ
  unfolding tally
  stats q = tally (values q.tasks) zero_counts

  -- `__len__`
  unfoldable pub len : TaskQueue V → ℕ
  len q = length q.tasks
