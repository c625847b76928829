-- ===== src/Coordination/TaskQueue/Settled.antt =====
-- task_queue.py: no task waits for nothing. A waiting task always has a dependency that is not
-- completed, whatever calls were made.
use kryvaracode.Common.{
  All, ◌||◌, ℕ, String, ◌≡◌, refl, true, false, Option, some, List, [], ◌∷◌, arith, Bool-cases,
  Option-cases, inl, inr,
}
use kryvaracode.Common.Dict.{Dict, lookup, insert, lookup-insert}
use kryvaracode.Coordination.TaskQueue.{
  QueueTask, TaskQueue, pending, dead_letter, waiting_deps, completed, is_status, all_completed,
  check_dependencies, new_queue, unblock_dependents, add_task, cancel_task, mark_running,
  mark_completed, mark_failed, retry_task, failure, clear_dead_letters,
}
use kryvaracode.Common.Dict.Sweep.{keys_where, delete_all, lookup-delete_all}
use kryvaracode.Coordination.TaskQueue.Unblock.{
  is_done, all_completed-ext, unblock_dependents-eq-promote,
}
use kryvaracode.Coordination.TaskQueue.Protocol.{
  Call, add, cancel, run, complete, fail, clear, step, steps,
}

module _ {V : Type 0} where
  -- Every waiting task of the table lacks a completed dependency.
  pub record IsSettled (m : Dict (QueueTask V)) : Type 0 where
    pub at :
        (k : String) (t : QueueTask V)
        → lookup k m ≡ some t
        → is_status t.status waiting_deps ≡ true
        → check_dependencies m t ≡ false

  all_completed_mono :
      (m n : Dict (QueueTask V)) (deps : List String)
      → ((j : String) → is_done n j ≡ true → is_done m j ≡ true)
      → all_completed n deps ≡ true
      → all_completed m deps ≡ true
  unfolding all_completed
  all_completed_mono m n [] h e = refl
  all_completed_mono m n (d ∷ deps) h e = ground (arith, h d, all_completed_mono m n deps h)

  is_done-unblock_dependents :
      (m : Dict (QueueTask V)) (j : String) → is_done (unblock_dependents m) j ≡ is_done m j
  is_done-unblock_dependents m j = ground (arith, unblock_dependents-eq-promote m j)

  -- Whatever the table was, the loop settles it.
  unblock_dependents-IsSettled : (m : Dict (QueueTask V)) → IsSettled (unblock_dependents m)
  unfolding check_dependencies
  unblock_dependents-IsSettled m = record {
    at = λ k t found waits.
        let same =
          all_completed-ext (unblock_dependents m) m t.dependencies
            (is_done-unblock_dependents m) in
        elim (Option-cases (lookup k m)) [
          | inl e ↦ ground (arith, unblock_dependents-eq-promote m k)
          | inr (u, e) ↦ ground (arith, same, unblock_dependents-eq-promote m k)
        ];
  }

  -- A write of a task that is not completed, and that lacks a dependency if it waits.
  insert-IsSettled :
      (m : Dict (QueueTask V)) (k : String) (t : QueueTask V)
      → IsSettled m
      → is_status t.status completed ≡ false
      → (is_status t.status waiting_deps ≡ true → check_dependencies m t ≡ false)
      → IsSettled (insert k t m)
  unfolding check_dependencies
  insert-IsSettled m k t s open_task lacks = record {
    at = λ j u found waits.
        let fewer =
          all_completed_mono m (insert k t m) u.dependencies
            (λ i d. ground (arith, lookup-insert k i t m)) in
        ground (arith, fewer, lookup-insert k j t m, s.at j u);
  }

  delete_all-IsSettled :
      (ids : List String) (m : Dict (QueueTask V)) → IsSettled m → IsSettled (delete_all ids m)
  unfolding check_dependencies
  delete_all-IsSettled ids m s = record {
    at = λ j u found waits.
        let fewer =
          all_completed_mono m (delete_all ids m) u.dependencies
            (λ i d. ground (arith, lookup-delete_all ids m i)) in
        ground (arith, fewer, lookup-delete_all ids m j, s.at j u);
  }

  -- A new task enters a queue as pending.
  abbrev pub AddsPending : Call V → Type 0
  AddsPending (add task) = task.status ≡ pending
  AddsPending _ = Unit

  module _ (q : TaskQueue V) (s : IsSettled q.tasks) where
    add_task-IsSettled :
        (task : QueueTask V) → task.status ≡ pending → IsSettled (add_task task q).0.tasks
    unfolding add_task
    add_task-IsSettled task h = elim (Bool-cases (check_dependencies q.tasks task)) [
      | inl e ↦
          rw (e, add_task)
            (insert-IsSettled q.tasks task.task_id task s (ground arith) (ground arith))
      | inr e ↦
          rw (e, add_task)
            (insert-IsSettled q.tasks task.task_id (record task { status = waiting_deps }) s refl
              (λ _. unfold check_dependencies in e))
    ]

    cancel_task-IsSettled : (k : String) (now : ℕ) → IsSettled (cancel_task k now q).0.tasks
    unfolding cancel_task
    cancel_task-IsSettled k now = elim (Option-cases (lookup k q.tasks)) [
      | inl e ↦ rw (e, cancel_task) s
      | inr (t, e) ↦
          elim (Bool-cases (is_status t.status pending || is_status t.status waiting_deps)) [
            | inl open_task ↦
                rw (e, cancel_task, open_task) (insert-IsSettled q.tasks k _ s refl (λ w. cc))
            | inr closed ↦ rw (e, cancel_task, closed) s
          ]
    ]

    mark_running-IsSettled : (k : String) (now : ℕ) → IsSettled (mark_running k now q).tasks
    unfolding mark_running
    mark_running-IsSettled k now = elim (Option-cases (lookup k q.tasks)) [
      | inl e ↦ rw (e, mark_running) s
      | inr (t, e) ↦ rw (e, mark_running) (insert-IsSettled q.tasks k _ s refl (λ w. cc))
    ]

    mark_completed-IsSettled :
        (k : String) (result : Option V) (now : ℕ) → IsSettled (mark_completed k result now q).tasks
    unfolding mark_completed
    mark_completed-IsSettled k result now = elim (Option-cases (lookup k q.tasks)) [
      | inl e ↦ rw (e, mark_completed) s
      | inr (t, e) ↦ rw (e, mark_completed) (unblock_dependents-IsSettled _)
    ]

    mark_failed-IsSettled :
        (k error : String) (now : ℕ) → IsSettled (mark_failed k error now q).0.tasks
    unfolding mark_failed failure retry_task
    mark_failed-IsSettled k error now = elim (Option-cases (lookup k q.tasks)) [
      | inl e ↦ rw (e, mark_failed) s
      | inr (t, e) ↦
          rw (e, mark_failed)
            (insert-IsSettled q.tasks k (failure t error now).0 s (ground arith)
              (λ w. ground arith))
    ]

    clear_dead_letters-IsSettled : IsSettled (clear_dead_letters q).0.tasks
    unfolding clear_dead_letters
    clear_dead_letters-IsSettled =
        delete_all-IsSettled (keys_where (λ t. is_status t.status dead_letter) q.tasks) q.tasks s

  step-IsSettled :
      (c : Call V) (q : TaskQueue V)
      → AddsPending c
      → IsSettled q.tasks
      → IsSettled (step c q).tasks
  unfolding step
  step-IsSettled (add task) q h s = add_task-IsSettled q s task h
  step-IsSettled (cancel k now) q h s = cancel_task-IsSettled q s k now
  step-IsSettled (run k now) q h s = mark_running-IsSettled q s k now
  step-IsSettled (complete k result now) q h s = mark_completed-IsSettled q s k result now
  step-IsSettled (fail k error now) q h s = mark_failed-IsSettled q s k error now
  step-IsSettled clear q h s = clear_dead_letters-IsSettled q s

  steps-IsSettled_from :
      (cs : List (Call V)) (q : TaskQueue V)
      → All AddsPending cs
      → IsSettled q.tasks
      → IsSettled (steps cs q).tasks
  unfolding steps
  steps-IsSettled_from [] q h s = s
  steps-IsSettled_from (c ∷ cs) q h s =
      steps-IsSettled_from cs (step c q) h.1 (step-IsSettled c q h.0 s)

  -- After any calls on a new queue whose added tasks are pending, no task waits for nothing:
  -- every task in WAITING_DEPS has a dependency that is missing or not completed.
  pub steps-IsSettled :
      (cs : List (Call V)) (max_concurrent : ℕ)
      → All AddsPending cs
      → IsSettled (steps cs (new_queue max_concurrent)).tasks
  unfolding new_queue lookup
  steps-IsSettled cs max_concurrent h =
      steps-IsSettled_from cs (new_queue max_concurrent) h (record { at = λ k t found waits. cc })
