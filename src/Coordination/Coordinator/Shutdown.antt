-- ===== src/Coordination/Coordinator/Shutdown.antt =====
-- coordinator.py: `stop` deregisters every agent and then stops the bus.
use kryvaracode.Common.{ℕ, ◌≡◌, String, some}
use kryvaracode.Coordination.SharedState.{SharedState}
use kryvaracode.Coordination.SharedState.Views.{view}
use kryvaracode.Coordination.MessageBus
use kryvaracode.Coordination.MessageBus.{MessageBus}
use kryvaracode.Coordination.Coordinator.{AgentCoordinator, StateValue, text}
use kryvaracode.Coordination.Coordinator.Agents.{Stays}

-- The state shows the key as stopped, at all times from now on.
abbrev Stopped : SharedState StateValue → String → Type 0
Stopped s k = ((later : ℕ) → view s later k ≡ some (text "stopped")) × Stays s k

module _ {V : Type 0} where
  -- Deregistering only adds to the queue of the bus.
  abbrev Quiet : (c d : AgentCoordinator V) → Type 0
  Quiet c d =
      (d.running ≡ c.running)
      × (d.bus.delivered ≡ c.bus.delivered)
      × (d.heartbeat_task ≡ c.heartbeat_task)
