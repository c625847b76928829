-- ===== src/Coordination/TaskQueue/Protocol.antt =====
-- task_queue.py as its callers see it: the calls that change a queue, and sequences of them.
use kryvaracode.Common.{ℕ, String, ◌≡◌, Option, none, some, List, [], ◌∷◌}
use kryvaracode.Common.Dict.{lookup}
use kryvaracode.Coordination.TaskQueue.{
  QueueTask, TaskQueue, pending, running, add_task, cancel_task, mark_running, mark_completed,
  mark_failed, clear_dead_letters,
}

pub data Call (V : Type 0) : Type 0 where
  add : QueueTask V → Call V
  cancel run : String → ℕ → Call V
  complete : String → Option V → ℕ → Call V
  fail : String → String → ℕ → Call V
  clear : Call V

module _ {V : Type 0} where
  unfoldable pub step : Call V → TaskQueue V → TaskQueue V
  step (add task) q = (add_task task q).0
  step (cancel k now) q = (cancel_task k now q).0
  step (run k now) q = mark_running k now q
  step (complete k result now) q = mark_completed k result now q
  step (fail k error now) q = (mark_failed k error now q).0
  step clear q = (clear_dead_letters q).0

  unfoldable pub steps : List (Call V) → TaskQueue V → TaskQueue V
  unfolding step
  steps [] q = q
  steps (c ∷ cs) q = steps cs (step c q)

  -- The calls of a worker that follows the protocol: a new task has a new id and is pending, a
  -- task is started when it is pending, and finished or failed when it is running.
  abbrev pub IsProper : Call V → TaskQueue V → Type 0
  IsProper (add task) q = (lookup task.task_id q.tasks ≡ none) × (task.status ≡ pending)
  IsProper (run k now) q = (t : QueueTask V) × (lookup k q.tasks ≡ some t) × (t.status ≡ pending)
  IsProper (complete k result now) q =
      (t : QueueTask V) × (lookup k q.tasks ≡ some t) × (t.status ≡ running)
  IsProper (fail k error now) q =
      (t : QueueTask V) × (lookup k q.tasks ≡ some t) × (t.status ≡ running)
  IsProper _ q = Unit

  abbrev pub AllProper : List (Call V) → TaskQueue V → Type 0
  AllProper [] q = Unit
  AllProper (c ∷ cs) q = IsProper c q × AllProper cs (step c q)
