-- ===== src/Coordination/TaskQueue/DeadLetters.antt =====
-- task_queue.py: `clear_dead_letters` collects ids and then deletes them one by one. Here it is
-- compared with a filter of the table.
use kryvaracode.Common.{◌≡◌, Bool}
use kryvaracode.Common.Dict.{Dict, IsDistinct}
use kryvaracode.Common.Dict.Sweep.{
  others, delete_all-keys_where, length-keys_where, count_if-others,
}
use kryvaracode.Coordination.TaskQueue.{
  QueueTask, TaskQueue, dead_letter, is_status, dead_letter_count, clear_dead_letters,
}

module _ {V : Type 0} where
  abbrev pub is_dead : QueueTask V → Bool
  is_dead t = is_status t.status dead_letter

  -- The table without its dead letters, in the same order.
  abbrev pub alive : Dict (QueueTask V) → Dict (QueueTask V)
  alive m = others is_dead m

  -- On a table with distinct ids, clearing keeps exactly the tasks that are no dead letters, in
  -- their order, answers the number of dead letters that there were, and leaves none.
  pub clear_dead_letters-alive :
      (q : TaskQueue V)
      → IsDistinct q.tasks
      → ((clear_dead_letters q).0.tasks ≡ alive q.tasks)
        × ((clear_dead_letters q).1 ≡ dead_letter_count q)
        × (dead_letter_count (clear_dead_letters q).0 ≡ 0)
  unfolding clear_dead_letters dead_letter_count
  clear_dead_letters-alive q h =
      let filtered = delete_all-keys_where is_dead q.tasks h in
      (filtered, length-keys_where is_dead q.tasks, rw filtered (count_if-others is_dead q.tasks))
