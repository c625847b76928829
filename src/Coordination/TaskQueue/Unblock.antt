-- ===== src/Coordination/TaskQueue/Unblock.antt =====
-- task_queue.py: `_unblock_dependents` promotes tasks one after the other, in a loop that reads the
-- table it writes. Here it is compared with one simultaneous update.
use mathlib.Core.Option
use kryvaracode.Common.{
  String, ◌≡◌, refl, ◌∙◌, Bool, false, ◌&&◌, none, some, List, [], ◌∷◌, arith, eq_iff, ◌==◌,
  if◌then◌else◌, Bool-cases, Option-cases, inl, inr,
}
use kryvaracode.Common.Dict.{Dict, lookup, keys, member, lookup-insert, lookup-absent}
use kryvaracode.Coordination.TaskQueue.{
  QueueTask, pending, waiting_deps, completed, is_status, all_completed, check_dependencies,
  unblock_one, unblock_loop, unblock_dependents,
}

module _ {V : Type 0} where
  -- What one look at a table does to a task: it becomes pending if it waits for nothing any more.
  abbrev pub promote : Dict (QueueTask V) → QueueTask V → QueueTask V
  promote tasks t =
      if is_status t.status waiting_deps && check_dependencies tasks t
      then record t { status = pending }
      else t

  -- Whether a dependency counts as done.
  abbrev pub is_done : Dict (QueueTask V) → String → Bool
  is_done tasks k = elim (lookup k tasks) [ none ↦ false | some t ↦ is_status t.status completed ]

  is_done-unblock_one :
      (tasks : Dict (QueueTask V)) (k j : String)
      → is_done (unblock_one tasks k) j ≡ is_done tasks j
  unfolding unblock_one
  is_done-unblock_one tasks k j = elim (Option-cases (lookup k tasks)) [
    | inl e ↦ ground arith
    | inr (t, e) ↦
        ground (arith, eq_iff k j, lookup-insert k j (record t { status = pending }) tasks)
  ]

  pub all_completed-ext :
      (m n : Dict (QueueTask V)) (deps : List String)
      → ((j : String) → is_done m j ≡ is_done n j)
      → all_completed m deps ≡ all_completed n deps
  unfolding all_completed
  all_completed-ext m n [] h = refl
  all_completed-ext m n (d ∷ deps) h = ground (arith, h d, all_completed-ext m n deps h)

  promote-unblock_one :
      (tasks : Dict (QueueTask V)) (k : String) (t : QueueTask V)
      → promote (unblock_one tasks k) t ≡ promote tasks t
  unfolding check_dependencies
  promote-unblock_one tasks k t =
      rw
        (all_completed-ext (unblock_one tasks k) tasks t.dependencies (is_done-unblock_one tasks k))

  promote-promote :
      (tasks : Dict (QueueTask V)) (t : QueueTask V)
      → promote tasks (promote tasks t) ≡ promote tasks t
  promote-promote tasks t = ground arith

  lookup-unblock_one :
      (tasks : Dict (QueueTask V)) (k j : String)
      → lookup j (unblock_one tasks k)
        ≡ (if k == j then Option.map (promote tasks) (lookup j tasks) else lookup j tasks)
  unfolding unblock_one
  lookup-unblock_one tasks k j = elim (Option-cases (lookup k tasks)) [
    | inl e ↦ ground (arith, eq_iff k j)
    | inr (t, e) ↦
        ground (arith, eq_iff k j, lookup-insert k j (record t { status = pending }) tasks)
  ]

  lookup-unblock_loop :
      (ks : List String) (tasks : Dict (QueueTask V)) (j : String)
      → lookup j (unblock_loop tasks ks)
        ≡ (if member j ks then Option.map (promote tasks) (lookup j tasks) else lookup j tasks)
  unfolding unblock_loop
  lookup-unblock_loop [] tasks j = refl
  lookup-unblock_loop (k ∷ ks) tasks j =
      let ih = lookup-unblock_loop ks (unblock_one tasks k) j in
      let first = lookup-unblock_one tasks k j in
      elim (Option-cases (lookup j tasks)) [
        | inl e ↦ ground (arith, ih, first)
        | inr (t, e) ↦ ground (
          arith,
          ih,
          first,
          promote-unblock_one tasks k t,
          promote-unblock_one tasks k (promote tasks t),
          promote-promote tasks t,
        )
      ]

  -- The loop leaves every task as one look at the table before the loop leaves it: the order of the
  -- rounds does not matter, and no task is promoted because of another promotion.
  pub unblock_dependents-eq-promote :
      (tasks : Dict (QueueTask V)) (j : String)
      → lookup j (unblock_dependents tasks) ≡ Option.map (promote tasks) (lookup j tasks)
  unfolding unblock_dependents
  unblock_dependents-eq-promote tasks j = elim (Bool-cases (member j (keys tasks))) [
    | inl here ↦ lookup-unblock_loop (keys tasks) tasks j ∙ rw here
    | inr away ↦ lookup-unblock_loop (keys tasks) tasks j ∙ rw (away, lookup-absent tasks j away)
  ]
