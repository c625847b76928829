-- ===== src/Coordination/TaskQueue/Tests.antt =====
-- Test queues for task_queue.py: two tasks, of which one depends on the other.
use mathlib.Core.List.{Perm}
use mathlib.Core.Option
use kryvaracode.Common.{
  ℕ, ◌+◌, ◌^◌, ◌<◌, ◌≤◌, min, String, true, ◌==◌, ◌≡◌, ◌⊎◌, refl, none, some, List, [], ◌∷◌, ltb,
  if◌then◌else◌, keep, arith,
}
use kryvaracode.Common.Dict.{lookup, insert, values}
use kryvaracode.Common.Int.{pos}
use kryvaracode.Coordination.TaskQueue.{
  pending, waiting_deps, running, failed, dead_letter, no_timer, timer, overflow_error, float_bound,
  retry_delay, is_status, RetryPolicy, QueueTask, TaskQueue, new_queue, unblock_dependents,
  get_ready_tasks, mark_failed, add_task, mark_running, mark_completed, check_dependencies,
  all_completed,
}
use kryvaracode.Coordination.TaskQueue.Settled.{IsSettled, steps-IsSettled}
use kryvaracode.Coordination.TaskQueue.Failure.{fail_times, mark_failed-outcome, fail_times-retries}
use kryvaracode.Coordination.TaskQueue.Order.{IsSorted, get_ready_tasks-IsSorted}
use kryvaracode.Coordination.TaskQueue.Accounting.{IsConsistent, steps-IsConsistent}
use kryvaracode.Coordination.TaskQueue.Protocol.{Call, add, run, complete, step, steps}

abbrev policy : RetryPolicy
policy = record { max_retries = 2; base_delay = 2; max_delay = 60; backoff_factor = 2 }

abbrev task : String → ℕ → List String → ℕ → QueueTask ℕ
task id priority dependencies now = record {
  task_id = id;
  name = id;
  priority = pos priority;
  status = pending;
  dependencies = dependencies;
  timeout = none;
  retry_policy = policy;
  retries_used = 0;
  result = none;
  error = none;
  created_at = now;
  started_at = none;
  completed_at = none;
}

abbrev fetch : QueueTask ℕ
fetch = task "fetch" 1 [] 10

abbrev report : QueueTask ℕ
report = record (task "report" 5 ("fetch" ∷ []) 11) { status = waiting_deps }

abbrev two_tasks : TaskQueue ℕ
two_tasks = record {
  tasks = ("fetch", fetch) ∷ ("report", report) ∷ [];
  max_concurrent = 5;
  running_count = 0;
}

abbrev one_dead : TaskQueue ℕ
one_dead = record {
  tasks = ("fetch", record fetch { status = dead_letter }) ∷ ("report", report) ∷ [];
  max_concurrent = 5;
  running_count = 0;
}

-- The calls of a worker that runs `fetch` to its end.
abbrev worker : List (Call ℕ)
worker =
    add fetch
    ∷ add (task "report" 5 ("fetch" ∷ []) 11)
    ∷ run "fetch" 12
    ∷ complete "fetch" (some 7) 13
    ∷ []

-- Completing the task releases the one that waits for it.
released :
    Option.map
      (λ t. is_status t.status pending)
      (lookup "report" (steps worker (new_queue 5)).tasks)
    ≡ some true
unfolding steps new_queue lookup insert mark_completed mark_running add_task unblock_dependents
    check_dependencies all_completed
released = refl

steps-IsSettled_example : IsSettled (steps worker (new_queue 5)).tasks
steps-IsSettled_example = steps-IsSettled worker 5 (refl, (refl, (tt, (tt, tt))))

mark_failed-outcome_example :
    (t' : QueueTask ℕ) × (lookup "fetch" (mark_failed "fetch" "timed out" 20 two_tasks).0.tasks
      ≡ some t')
    × ((fetch.retries_used < fetch.retry_policy.max_retries)
          × (float_bound ≤ fetch.retry_policy.backoff_factor ^ fetch.retries_used)
          × (t' ≡ record fetch {
            status = failed;
            retries_used = fetch.retries_used + 1;
            error = some "timed out";
            completed_at = some 20;
          })
          × ((mark_failed "fetch" "timed out" 20 two_tasks).1 ≡ overflow_error)
        ⊎ (fetch.retries_used < fetch.retry_policy.max_retries)
          × (fetch.retry_policy.backoff_factor ^ fetch.retries_used < float_bound)
          × (t' ≡ record fetch {
            status = pending;
            retries_used = fetch.retries_used + 1;
            error = none;
            started_at = none;
            completed_at = none;
          })
          × ((delay : ℕ) × ((mark_failed "fetch" "timed out" 20 two_tasks).1 ≡ timer delay)
              × (delay ≤ fetch.retry_policy.max_delay))
        ⊎ (fetch.retry_policy.max_retries ≤ fetch.retries_used)
          × (t' ≡ record fetch {
            status = dead_letter;
            error = some "timed out";
            completed_at = some 20;
          })
          × ((mark_failed "fetch" "timed out" 20 two_tasks).1 ≡ no_timer))
    × ((j : String)
        → lookup j (mark_failed "fetch" "timed out" 20 two_tasks).0.tasks
          ≡ (if "fetch" == j then some t' else lookup j two_tasks.tasks))
unfolding lookup
mark_failed-outcome_example = mark_failed-outcome "fetch" "timed out" 20 two_tasks fetch refl

-- The power of 2 overflows at the thousand and twenty-fifth retry.
delays : (retry_delay policy 1024 ≡ some 60) × (retry_delay policy 1025 ≡ none)
unfolding retry_delay float_bound
delays = (refl, refl)

fail_times-retries_example :
    (t' : QueueTask ℕ) × (lookup "fetch" (fail_times 3 "fetch" "timed out" 20 two_tasks).tasks
      ≡ some t')
    × (t'.retries_used ≡ min (fetch.retries_used + 3) fetch.retry_policy.max_retries)
    × (is_status t'.status dead_letter
        ≡ ltb fetch.retry_policy.max_retries (fetch.retries_used + 3))
unfolding lookup
fail_times-retries_example =
    fail_times-retries 2 "fetch" "timed out" 20 two_tasks fetch refl (omega arith)

get_ready_tasks-IsSorted_example :
    IsSorted (get_ready_tasks two_tasks)
    × Perm
        (get_ready_tasks two_tasks)
        (keep (λ t. is_status t.status pending) (values two_tasks.tasks))
get_ready_tasks-IsSorted_example = get_ready_tasks-IsSorted two_tasks

abbrev protocol : List (Call ℕ)
protocol = add fetch ∷ run "fetch" 12 ∷ complete "fetch" (some 7) 13 ∷ []

steps-IsConsistent_example : IsConsistent (steps protocol (new_queue 5))
unfolding lookup insert steps step new_queue add_task mark_running check_dependencies all_completed
steps-IsConsistent_example = steps-IsConsistent protocol 5 (
  (refl, refl),
  (
    (fetch, refl, refl),
    ((record fetch { status = running; started_at = some 12 }, refl, refl), tt),
  ),
)
