-- ===== src/Coordination/TaskQueue/Stats.antt =====
-- task_queue.py: `stats` counts the tasks of each status in one pass over a table of counters.
use kryvaracode.Common.{
  ℕ, ◌+◌, String, ◌≡◌, refl, ◌∙◌, ap, some, List, [], ◌∷◌, arith, eq_iff, ◌==◌, if◌then◌else◌,
  count_if,
}
use kryvaracode.Common.Dict.{Dict, lookup, values, lookup-insert}
use kryvaracode.Coordination.TaskQueue.{
  TaskStatus, pending, waiting_deps, running, completed, failed, timeout, dead_letter, cancelled,
  value, is_status, QueueTask, TaskQueue, zero_counts, bump, tally, stats,
}

value-eq : (s t : TaskStatus) → (value s == value t) ≡ is_status s t
value-eq pending pending = refl
value-eq waiting_deps pending = refl
value-eq running pending = refl
value-eq completed pending = refl
value-eq failed pending = refl
value-eq timeout pending = refl
value-eq dead_letter pending = refl
value-eq cancelled pending = refl
value-eq _ _ = refl

lookup-zero_counts : (s : TaskStatus) → lookup (value s) zero_counts ≡ some 0
unfolding lookup
lookup-zero_counts pending = refl
lookup-zero_counts _ = refl

lookup-bump :
    (a b : String) (counts : Dict ℕ) (n m : ℕ)
    → lookup a counts ≡ some n
    → lookup b counts ≡ some m
    → lookup a (bump b counts) ≡ some (n + (if b == a then 1 else 0))
unfolding bump
lookup-bump a b counts n m e f =
    rw (f, bump) (ground (arith, eq_iff b a, lookup-insert b a (m + 1) counts))

module _ {V : Type 0} where
  abbrev count : TaskStatus → List (QueueTask V) → ℕ
  count s ts = count_if (λ t. is_status t.status s) ts

  -- Every counter is there throughout the pass, so no key is ever missing.
  lookup-tally :
      (ts : List (QueueTask V)) (counts : Dict ℕ) (f : TaskStatus → ℕ)
      → ((s : TaskStatus) → lookup (value s) counts ≡ some (f s))
      → (s : TaskStatus) → lookup (value s) (tally ts counts) ≡ some (f s + count s ts)
  unfolding tally
  lookup-tally [] counts f h s = h s ∙ ap some (omega arith)
  lookup-tally (t ∷ ts) counts f h s =
      let bumped : (s : TaskStatus)
          → lookup (value s) (bump (value t.status) counts)
            ≡ some (f s + (if is_status t.status s then 1 else 0)) =
        λ s.
          rw (← value-eq t.status s)
            (lookup-bump (value s) (value t.status) counts (f s) (f t.status) (h s) (h t.status)) in
      lookup-tally ts (bump (value t.status) counts)
        (λ s. f s + (if is_status t.status s then 1 else 0)) bumped s
      ∙ ap some (omega arith)

  -- The statistics have a counter for every status, and it is the number of tasks of the queue in
  -- that status.
  lookup-stats :
      (q : TaskQueue V) (s : TaskStatus)
      → lookup (value s) (stats q) ≡ some (count_if (λ t. is_status t.status s) (values q.tasks))
  unfolding stats
  lookup-stats q s =
      lookup-tally (values q.tasks) zero_counts (λ _. 0) lookup-zero_counts s
      ∙ ap some (omega arith)
