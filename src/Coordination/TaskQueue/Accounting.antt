-- ===== src/Coordination/TaskQueue/Accounting.antt =====
-- task_queue.py: `_running_count` is a counter beside the table. Under the protocol it is the number
-- of running tasks.
use kryvaracode.Common.{
  ℕ, ◌+◌, String, ◌≡◌, refl, Bool, ◌||◌, Option, some, List, [], ◌∷◌, arith, if◌then◌else◌,
  count_if, Bool-cases, Option-cases, inl, inr,
}
use kryvaracode.Common.Dict.{
  Dict, lookup, insert, keys, values, IsDistinct, insert-IsDistinct, count_if-insert,
  count_if-insert_new,
}
use kryvaracode.Common.Dict.Sweep.{others-IsDistinct}
use kryvaracode.Coordination.TaskQueue.{
  QueueTask, TaskQueue, pending, waiting_deps, running, cancelled, is_status, new_queue,
  unblock_one, unblock_loop, unblock_dependents, finished, add_task, cancel_task, mark_running,
  mark_completed, retry_task, failure, mark_failed, clear_dead_letters,
}
use kryvaracode.Coordination.TaskQueue.DeadLetters.{is_dead, alive, clear_dead_letters-alive}
use kryvaracode.Coordination.TaskQueue.Protocol.{
  Call, add, cancel, run, complete, fail, clear, step, steps, IsProper, AllProper,
}

module _ {V : Type 0} where
  abbrev pub is_running : QueueTask V → Bool
  is_running t = is_status t.status running

  abbrev pub running_tasks : Dict (QueueTask V) → ℕ
  running_tasks m = count_if is_running (values m)

  pub record IsConsistent (q : TaskQueue V) : Type 0 where
    pub distinct : IsDistinct q.tasks
    pub counted : q.running_count ≡ running_tasks q.tasks

  unblock_one-keeps :
      (m : Dict (QueueTask V)) (k : String)
      → IsDistinct m
      → IsDistinct (unblock_one m k) × (running_tasks (unblock_one m k) ≡ running_tasks m)
  unfolding unblock_one
  unblock_one-keeps m k d = elim (Option-cases (lookup k m)) [
    | inl e ↦ rw (e, unblock_one) (d, refl)
    | inr (t, e) ↦
        let t' : QueueTask V = record t { status = pending } in
        let apart = insert-IsDistinct k t' m d in
        let count = count_if-insert is_running k t' t m e in
        elim (Bool-cases (is_status t.status waiting_deps)) [
          | inl waits ↦ (ground (arith, apart), ground (arith, count))
          | inr other ↦ (ground (arith, apart), ground arith)
        ]
  ]

  unblock_loop-keeps :
      (ks : List String) (m : Dict (QueueTask V))
      → IsDistinct m
      → IsDistinct (unblock_loop m ks) × (running_tasks (unblock_loop m ks) ≡ running_tasks m)
  unfolding unblock_loop
  unblock_loop-keeps [] m d = (d, refl)
  unblock_loop-keeps (k ∷ ks) m d =
      let first = unblock_one-keeps m k d in
      let rest = unblock_loop-keeps ks (unblock_one m k) first.0 in
      (rest.0, omega (arith, first.1, rest.1))

  running_tasks-alive : (m : Dict (QueueTask V)) → running_tasks (alive m) ≡ running_tasks m
  running_tasks-alive [] = refl
  running_tasks-alive ((k, t) ∷ m) = ground (arith, running_tasks-alive m)

  running_count-clear : (q : TaskQueue V) → (clear_dead_letters q).0.running_count ≡ q.running_count
  unfolding clear_dead_letters
  running_count-clear q = refl

  module _ (q : TaskQueue V) (c : IsConsistent q) where
    overwrite :
        (k : String) (t u : QueueTask V)
        → lookup k q.tasks ≡ some t
        → IsDistinct (insert k u q.tasks)
          × (running_tasks (insert k u q.tasks) + (if is_running t then 1 else 0)
              ≡ q.running_count + (if is_running u then 1 else 0))
    overwrite k t u e = (
      insert-IsDistinct k u q.tasks c.distinct,
      omega (arith, count_if-insert is_running k u t q.tasks e, c.counted),
    )

    add_task-IsConsistent :
        (task : QueueTask V) → IsProper (add task) q → IsConsistent (add_task task q).0
    unfolding add_task
    add_task-IsConsistent task p = record {
      distinct = insert-IsDistinct _ _ q.tasks c.distinct;
      counted = ground (
        arith,
        c.counted,
        count_if-insert_new is_running task.task_id task q.tasks,
        count_if-insert_new is_running task.task_id (record task { status = waiting_deps }) q.tasks,
      );
    }

    cancel_task-IsConsistent : (k : String) (now : ℕ) → IsConsistent (cancel_task k now q).0
    unfolding cancel_task
    cancel_task-IsConsistent k now = elim (Option-cases (lookup k q.tasks)) [
      | inl e ↦ rw (e, cancel_task) c
      | inr (t, e) ↦
          let w = overwrite k t (record t { status = cancelled; completed_at = some now }) e in
          elim (Bool-cases (is_status t.status pending || is_status t.status waiting_deps)) [
            | inl open_task ↦
                rw (e, cancel_task, open_task)
                  (record { distinct = w.0; counted = ground (arith, w.1) })
            | inr closed ↦ rw (e, cancel_task, closed) c
          ]
    ]

    mark_running-IsConsistent :
        (k : String) (now : ℕ) → IsProper (run k now) q → IsConsistent (mark_running k now q)
    unfolding mark_running
    mark_running-IsConsistent k now (t, e, p) =
        let w = overwrite k t (record t { status = running; started_at = some now }) e in
        rw (e, mark_running) (record { distinct = w.0; counted = ground (arith, w.1) })

    mark_completed-IsConsistent :
        (k : String) (result : Option V) (now : ℕ)
        → IsProper (complete k result now) q
        → IsConsistent (mark_completed k result now q)
    unfolding mark_completed unblock_dependents
    mark_completed-IsConsistent k result now (t, e, p) =
        let w = overwrite k t (finished t result now) e in
        let m = insert k (finished t result now) q.tasks in
        let u = unblock_loop-keeps (keys m) m w.0 in
        rw (e, mark_completed) (record { distinct = u.0; counted = ground (arith, w.1, u.1) })

    mark_failed-IsConsistent :
        (k error : String) (now : ℕ)
        → IsProper (fail k error now) q
        → IsConsistent (mark_failed k error now q).0
    unfolding mark_failed failure retry_task
    mark_failed-IsConsistent k error now (t, e, p) =
        let w = overwrite k t (failure t error now).0 e in
        rw (e, mark_failed) (record { distinct = w.0; counted = ground (arith, w.1) })

    clear_dead_letters-IsConsistent : IsConsistent (clear_dead_letters q).0
    clear_dead_letters-IsConsistent =
        let e = (clear_dead_letters-alive q c.distinct).0 in
        record {
          distinct = rw e (others-IsDistinct is_dead q.tasks c.distinct);
          counted =
              rw (running_count-clear q, e) (omega (arith, c.counted, running_tasks-alive q.tasks));
        }

  step-IsConsistent :
      (c : Call V) (q : TaskQueue V) → IsProper c q → IsConsistent q → IsConsistent (step c q)
  unfolding step
  step-IsConsistent (add task) q p c = add_task-IsConsistent q c task p
  step-IsConsistent (cancel k now) q p c = cancel_task-IsConsistent q c k now
  step-IsConsistent (run k now) q p c = mark_running-IsConsistent q c k now p
  step-IsConsistent (complete k result now) q p c = mark_completed-IsConsistent q c k result now p
  step-IsConsistent (fail k error now) q p c = mark_failed-IsConsistent q c k error now p
  step-IsConsistent clear q p c = clear_dead_letters-IsConsistent q c

  steps-IsConsistent_from :
      (cs : List (Call V)) (q : TaskQueue V)
      → AllProper cs q
      → IsConsistent q
      → IsConsistent (steps cs q)
  unfolding steps
  steps-IsConsistent_from [] q p c = c
  steps-IsConsistent_from (call ∷ cs) q p c =
      steps-IsConsistent_from cs (step call q) p.1 (step-IsConsistent call q p.0 c)

  -- On a new queue that is used by the protocol, the ids stay distinct, and the counter of
  -- running tasks is the number of tasks whose status is RUNNING.
  pub steps-IsConsistent :
      (cs : List (Call V)) (max_concurrent : ℕ)
      → AllProper cs (new_queue max_concurrent)
      → IsConsistent (steps cs (new_queue max_concurrent))
  steps-IsConsistent cs max_concurrent p =
      steps-IsConsistent_from cs (new_queue max_concurrent) p
        (unfold new_queue in record { distinct = tt; counted = refl })
