-- ===== src/Coordination/Coordinator/Tests.antt =====
-- A test coordinator for coordinator.py: one agent, an empty store and an empty queue.
use kryvaracode.Common.{
  ℕ, String, true, false, ◌==◌, ◌≡◌, ◌⊎◌, refl, none, some, [], ◌∷◌, ◌++◌, if◌then◌else◌, is_some,
  arith,
}
use kryvaracode.Common.Dict.{lookup}
use kryvaracode.Common.Int.{pos}
use kryvaracode.Coordination.TaskQueue.{QueueTask, pending, TaskQueue, new_queue}
use kryvaracode.Coordination.SharedState.{new_state}
use kryvaracode.Coordination.SharedState.Views.{view}
use kryvaracode.Coordination.MessageBus.{new_bus, start, agent_msg}
use kryvaracode.Coordination.Coordinator.{
  AgentCoordinator, AgentInfo, agent_deregistered, text, active, degraded, has_status, agent_key,
  new_agent, announcement, deregister_agent, get_agent, heartbeat, check_heartbeats,
}
use kryvaracode.Coordination.Coordinator.Agents.{deregister_agent-effects}
use kryvaracode.Coordination.Coordinator.Heartbeats.{heartbeat-keeps_alive}

abbrev sovereign : AgentInfo
sovereign = new_agent "sovereign" (some ("plan" ∷ [])) 100

abbrev one_agent : AgentCoordinator ℕ
one_agent = record {
  bus = new_bus;
  state = new_state;
  queue = new_queue 5;
  agents = ("sovereign", sovereign) ∷ [];
  heartbeat_task = true;
  running = true;
}

abbrev one_task : QueueTask ℕ
one_task = record {
  task_id = "t1";
  name = "fetch";
  priority = pos 1;
  status = pending;
  dependencies = [];
  timeout = none;
  retry_policy = record { max_retries = 2; base_delay = 2; max_delay = 60; backoff_factor = 2 };
  retries_used = 0;
  result = none;
  error = none;
  created_at = 100;
  started_at = none;
  completed_at = none;
}

deregister_agent-effects_example :
    (deregister_agent "sovereign" 110 "u1" one_agent ≡ (one_agent, false))
      × (get_agent "sovereign" one_agent ≡ none)
    ⊎ ((deregister_agent "sovereign" 110 "u1" one_agent).1 ≡ true)
      × (is_some (get_agent "sovereign" one_agent) ≡ true)
      × ((j : String)
          → get_agent j (deregister_agent "sovereign" 110 "u1" one_agent).0
            ≡ (if "sovereign" == j then none else get_agent j one_agent))
      × (view
            (deregister_agent "sovereign" 110 "u1" one_agent).0.state
            120
            (agent_key "sovereign" ".status")
          ≡ some (text "stopped"))
      × ((deregister_agent "sovereign" 110 "u1" one_agent).0.bus.queue
          ≡ one_agent.bus.queue
            ++ announcement "coordinator.agent.deregistered"
                (agent_deregistered "sovereign")
                agent_msg
                "u1"
                110
              ∷ [])
unfolding new_state lookup
deregister_agent-effects_example = deregister_agent-effects "sovereign" 110 120 "u1" one_agent refl

abbrev uuids : String → String
uuids name = name

-- The monitor runs, and the bus, which gets one round while it is awaited.
abbrev watched : AgentCoordinator ℕ
watched = record one_agent { heartbeat_task = true; bus = (start new_bus) }

heartbeat-keeps_alive_example :
    (info' : AgentInfo) × (get_agent "sovereign"
        (check_heartbeats 45000200 (heartbeat "sovereign" 200 one_agent))
      ≡ some info')
    × (info'.last_heartbeat ≡ 200)
    × (has_status info'.status degraded ≡ false)
    × ((has_status info'.status active ≡ true) ⊎ (info'.status ≡ sovereign.status))
unfolding lookup get_agent
heartbeat-keeps_alive_example =
    heartbeat-keeps_alive "sovereign" 200 45000200 one_agent sovereign refl (omega arith)

abbrev own_queue : TaskQueue ℕ
own_queue = new_queue 1
