-- ===== src/Coordination/TaskQueue/Order.antt =====
-- task_queue.py: what `get_ready_tasks` answers, and in which order.
use mathlib.Core.List.{Perm}
use mathlib.Core.List.Perm
use kryvaracode.Common.{
  ◌≡◌, true, false, List, [], ◌∷◌, arith, ◌≤◌, keep, All, Bool-cases, inl, inr,
}
use kryvaracode.Common.Dict.{values}
use kryvaracode.Common.Int.{ltb_ℤ}
use kryvaracode.Coordination.TaskQueue.{
  QueueTask, TaskQueue, pending, is_status, before, place, sort, get_ready_tasks,
}

module _ {V : Type 0} where
  -- `u` may stand behind `t`: it has no higher priority, and unless its priority is lower it was not
  -- created earlier.
  abbrev pub InOrder : QueueTask V → QueueTask V → Type 0
  InOrder t u =
      (ltb_ℤ t.priority u.priority ≡ false)
      × (ltb_ℤ u.priority t.priority ≡ false → t.created_at ≤ u.created_at)

  abbrev pub IsSorted : List (QueueTask V) → Type 0
  IsSorted [] = Unit
  IsSorted (t ∷ ts) = All (InOrder t) ts × IsSorted ts

  InOrder-before : (t u : QueueTask V) → before u t ≡ false → InOrder t u
  InOrder-before t u h = (ground arith, λ k. ground arith)

  before-InOrder : (t u : QueueTask V) → before u t ≡ true → InOrder u t
  before-InOrder t u h = (ground arith, λ k. ground arith)

  InOrder-trans : (a b c : QueueTask V) → InOrder a b → InOrder b c → InOrder a c
  InOrder-trans a b c h k = (
    ground (arith, h.0, k.0),
    λ l. elim (Bool-cases (ltb_ℤ b.priority a.priority)) [
      | inl e ↦ ground (arith, k.0)
      | inr e ↦ elim (Bool-cases (ltb_ℤ c.priority b.priority)) [
        | inl f ↦ ground (arith, h.0)
        | inr f ↦ omega (arith, h.1 e, k.1 f)
      ]
    ],
  )

  All-InOrder-trans :
      (a b : QueueTask V) (ts : List (QueueTask V))
      → InOrder a b
      → All (InOrder b) ts
      → All (InOrder a) ts
  All-InOrder-trans a b [] h all = tt
  All-InOrder-trans a b (t ∷ ts) h all =
      (InOrder-trans a b t h all.0, All-InOrder-trans a b ts h all.1)

  All-place :
      (P : QueueTask V → Type 0) (t : QueueTask V) (ts : List (QueueTask V))
      → P t
      → All P ts
      → All P (place t ts)
  unfolding place
  All-place P t [] h all = (h, tt)
  All-place P t (u ∷ us) h all = elim (Bool-cases (before u t)) [
    | inl e ↦ rw e (all.0, All-place P t us h all.1)
    | inr e ↦ rw e (h, all)
  ]

  place-IsSorted : (t : QueueTask V) (ts : List (QueueTask V)) → IsSorted ts → IsSorted (place t ts)
  unfolding place
  place-IsSorted t [] s = (tt, tt)
  place-IsSorted t (u ∷ us) s = elim (Bool-cases (before u t)) [
    | inl e ↦ rw e (All-place (InOrder u) t us (before-InOrder t u e) s.0, place-IsSorted t us s.1)
    | inr e ↦
        let order = InOrder-before t u e in rw e ((order, All-InOrder-trans t u us order s.0), s)
  ]

  sort-IsSorted : (ts : List (QueueTask V)) → IsSorted (sort ts)
  unfolding sort
  sort-IsSorted [] = tt
  sort-IsSorted (t ∷ ts) = place-IsSorted t (sort ts) (sort-IsSorted ts)

  place-perm : (t : QueueTask V) (ts : List (QueueTask V)) → Perm (place t ts) (t ∷ ts)
  unfolding place
  place-perm t [] = Perm.rfl
  place-perm t (u ∷ us) = elim (Bool-cases (before u t)) [
    | inl e ↦ rw e (Perm.trans (Perm.cons u (place-perm t us)) (Perm.swap t u us))
    | inr e ↦ rw e Perm.rfl
  ]

  sort-perm : (ts : List (QueueTask V)) → Perm (sort ts) ts
  unfolding sort
  sort-perm [] = Perm.rfl
  sort-perm (t ∷ ts) = Perm.trans (place-perm t (sort ts)) (Perm.cons t (sort-perm ts))

  -- The answer holds each pending task of the table as often as the table does, and no other, and
  -- it is sorted by falling priority, then by rising time of creation.
  pub get_ready_tasks-IsSorted :
      (q : TaskQueue V)
      → IsSorted (get_ready_tasks q)
        × Perm (get_ready_tasks q) (keep (λ t. is_status t.status pending) (values q.tasks))
  unfolding get_ready_tasks
  get_ready_tasks-IsSorted q =
      let ready = keep (λ t. is_status t.status pending) (values q.tasks) in
      (sort-IsSorted ready, sort-perm ready)
