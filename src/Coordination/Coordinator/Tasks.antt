-- ===== src/Coordination/Coordinator/Tasks.antt =====
-- coordinator.py: the routing of tasks, and the construction over the shared singletons.
use kryvaracode.Common.{
  ℕ, ◌≡◌, ◌≢◌, refl, String, Option, none, some, arith, eq_iff, ◌==◌, if◌then◌else◌, eqb, length,
  Bool-cases, Option-cases, inl, inr, ◌⊎◌,
}
use kryvaracode.Common.Dict.{lookup}
use kryvaracode.Coordination.TaskQueue
use kryvaracode.Coordination.TaskQueue.{TaskQueue, QueueTask, add_task, mark_completed, mark_failed}
use kryvaracode.Coordination.SharedState.{SharedState}
use kryvaracode.Coordination.MessageBus.{MessageBus, task_request, publish}
use kryvaracode.Coordination.Coordinator.{
  AgentCoordinator, StateValue, Payload, task_submitted, unknown_agent, accepted, announcement,
  new_coordinator, target_name, submit_task, get_agent,
}

module _ {V : Type 0} where
  -- Which tasks are refused: those for a named agent that is not registered.
  abbrev pub IsRefused : Option String → AgentCoordinator V → Type 0
  IsRefused none c = ⊥
  IsRefused (some target) c = (target ≢ "") × (get_agent target c ≡ none)

  -- A task for a named agent that is not registered is refused, with that name, and nothing at all
  -- changes. Any other task is accepted under its own id: the queue is as `add_task` leaves it,
  -- one message about it is put at the end of the bus's queue, and agents and shared state stay.
  submit_task-effects :
      (task : QueueTask V) (target : Option String) (now : ℕ) (uuid : String)
      (c : AgentCoordinator V)
      → IsRefused target c
          × (submit_task task target now uuid c ≡ (c, unknown_agent (target_name target)))
        ⊎ (¬ IsRefused target c)
          × ((submit_task task target now uuid c).1 ≡ accepted task.task_id)
          × ((submit_task task target now uuid c).0 ≡ record c {
            queue = (add_task task c.queue).0;
            bus =
                publish
                  (announcement "coordinator.task.submitted"
                    (task_submitted task.task_id target)
                    task_request
                    uuid
                    now)
                  c.bus;
          })
  unfolding submit_task get_agent add_task
  submit_task-effects task none now uuid c = inr (λ h. h, refl, refl)
  submit_task-effects task (some target) now uuid c = elim (Bool-cases (target == "")) [
    | inl empty ↦
        let e : target ≡ "" = (eq_iff target "").0 empty in
        inr (λ h. h.0 e, ground arith, ground arith)
    | inr named ↦
        let e : target ≢ "" = λ q. ground (arith, eq_iff target "") in
        elim (Option-cases (lookup target c.agents)) [
          | inl unknown ↦ inl ((e, unknown), ground arith)
          | inr (info, known) ↦ inr (λ h. ground (arith, h.1), ground arith, ground arith)
        ]
  ]

  -- A queue that is handed to the constructor is used only if it holds a task: an empty one counts
  -- as false and the module's shared queue is used in its place. An empty bus or state is used.
  new_coordinator-queue :
      (bus : MessageBus (Payload V)) (state : SharedState StateValue) (q : TaskQueue V)
      (message_bus : MessageBus (Payload V)) (shared_state : SharedState StateValue)
      (task_queue : TaskQueue V)
      → ((new_coordinator
            (some bus)
            (some state)
            (some q)
            message_bus
            shared_state
            task_queue).queue
          ≡ (if eqb (length q.tasks) 0 then task_queue else q))
        × ((new_coordinator
              (some bus)
              (some state)
              (some q)
              message_bus
              shared_state
              task_queue).bus
            ≡ bus)
        × ((new_coordinator
              (some bus)
              (some state)
              (some q)
              message_bus
              shared_state
              task_queue).state
            ≡ state)
  unfolding new_coordinator TaskQueue.len
  new_coordinator-queue bus state q message_bus shared_state task_queue = (refl, refl, refl)
