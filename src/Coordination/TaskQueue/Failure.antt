-- ===== src/Coordination/TaskQueue/Failure.antt =====
-- task_queue.py: `mark_failed` retries a task until its policy is used up.
use kryvaracode.Common.{
  ℕ, zero, suc, ◌+◌, ◌-◌, ◌*◌, ◌^◌, ◌≤◌, ◌<◌, min, String, ◌≡◌, none, some, arith, eq_iff, ◌==◌,
  ltb, leb, if◌then◌else◌, ◌⊎◌, inl, inr, eq_self, Bool-cases,
}
use kryvaracode.Common.Dict.{lookup, lookup-insert}
use kryvaracode.Coordination.TaskQueue.{
  QueueTask, TaskQueue, pending, failed, dead_letter, is_status, no_timer, timer, overflow_error,
  float_bound, failure, mark_failed, retry_task, retry_delay,
}

module _ {V : Type 0} where
  -- The failure of a task in the table decides its next life by the retries that are left. If one is
  -- left, it counts it, and the task is queued again at once, with its error and times erased and a timer
  -- of at most `max_delay`; or, where the power of the backoff factor is beyond the floats, the call ends
  -- in an OverflowError, which leaves the task failed, with the error and no timer. If none is left, the
  -- task is a dead letter that keeps the error, with no timer. No other task changes.
  pub mark_failed-outcome :
      (k error : String) (now : ℕ) (q : TaskQueue V) (t : QueueTask V)
      → lookup k q.tasks ≡ some t
      → (t' : QueueTask V) × (lookup k (mark_failed k error now q).0.tasks ≡ some t')
        × ((t.retries_used < t.retry_policy.max_retries)
              × (float_bound ≤ t.retry_policy.backoff_factor ^ t.retries_used)
              × (t' ≡ record t {
                status = failed;
                retries_used = t.retries_used + 1;
                error = some error;
                completed_at = some now;
              })
              × ((mark_failed k error now q).1 ≡ overflow_error)
            ⊎ (t.retries_used < t.retry_policy.max_retries)
              × (t.retry_policy.backoff_factor ^ t.retries_used < float_bound)
              × (t' ≡ record t {
                status = pending;
                retries_used = t.retries_used + 1;
                error = none;
                started_at = none;
                completed_at = none;
              })
              × ((delay : ℕ) × ((mark_failed k error now q).1 ≡ timer delay)
                  × (delay ≤ t.retry_policy.max_delay))
            ⊎ (t.retry_policy.max_retries ≤ t.retries_used)
              × (t'
                  ≡ record t { status = dead_letter; error = some error; completed_at = some now })
              × ((mark_failed k error now q).1 ≡ no_timer))
        × ((j : String)
            → lookup j (mark_failed k error now q).0.tasks
              ≡ (if k == j then some t' else lookup j q.tasks))
  unfolding mark_failed failure retry_task retry_delay
  mark_failed-outcome k error now q t e =
      let found = lookup-insert k k (failure t error now).0 q.tasks in
      elim (Bool-cases (ltb t.retries_used t.retry_policy.max_retries)) [
        | inl more ↦
            let used : t.retries_used + 1 - 1 ≡ t.retries_used = omega arith in
            let power = t.retry_policy.backoff_factor ^ t.retries_used in
            elim (Bool-cases (leb float_bound power)) [
              | inl beyond ↦ (
                (failure t error now).0,
                ground (arith, eq_self k, found),
                inl (
                  ground arith,
                  ground (arith, beyond),
                  ground (arith, beyond, used),
                  ground (arith, beyond, used),
                ),
                λ j. ground (arith, eq_iff k j, lookup-insert k j (failure t error now).0 q.tasks),
              )
              | inr within ↦ (
                (failure t error now).0,
                ground (arith, eq_self k, found),
                inr (
                    inl (
                      ground arith,
                      ground (arith, within),
                      ground (arith, within, used),
                      (
                        min (t.retry_policy.base_delay * power) t.retry_policy.max_delay,
                        ground (arith, within, used),
                        ground arith,
                      ),
                    )),
                λ j. ground (arith, eq_iff k j, lookup-insert k j (failure t error now).0 q.tasks),
              )
            ]
        | inr spent ↦ (
          (failure t error now).0,
          ground (arith, eq_self k, found),
          inr (inr (ground arith, ground arith, ground arith)),
          λ j. ground (arith, eq_iff k j, lookup-insert k j (failure t error now).0 q.tasks),
        )
      ]

  -- A task that fails `n` times in a row, with nothing else happening.
  unfoldable pub fail_times : ℕ → String → String → ℕ → TaskQueue V → TaskQueue V
  fail_times zero k error now q = q
  fail_times (suc n) k error now q = fail_times n k error now (mark_failed k error now q).0

  -- After `n + 1` failures in a row the task has used one retry for each, up to its policy's
  -- maximum, and it is a dead letter exactly when the failures outnumber the retries that it had.
  pub fail_times-retries :
      (n : ℕ) (k error : String) (now : ℕ) (q : TaskQueue V) (t : QueueTask V)
      → lookup k q.tasks ≡ some t
      → t.retries_used ≤ t.retry_policy.max_retries
      → (t' : QueueTask V) × (lookup k (fail_times (suc n) k error now q).tasks ≡ some t')
        × (t'.retries_used ≡ min (t.retries_used + suc n) t.retry_policy.max_retries)
        × (is_status t'.status dead_letter
            ≡ ltb t.retry_policy.max_retries (t.retries_used + suc n))
  unfolding fail_times
  fail_times-retries zero k error now q t e h =
      let (t', found, outcome, _) = mark_failed-outcome k error now q t e in
      (t', found, ground arith, ground arith)
  fail_times-retries (suc n) k error now q t e h =
      let (u, found, outcome, _) = mark_failed-outcome k error now q t e in
      let (t', found', used, dead) =
        fail_times-retries n k error now (mark_failed k error now q).0 u found (ground arith) in
      (t', found', ground arith, ground arith)
