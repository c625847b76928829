-- ===== src/Coordination/Coordinator.antt =====
-- src/agent/coordination/coordinator.py: the life of agents and the routing of tasks, over the bus,
-- the shared state and the queue. `V` is the type of task results. The payload dictionaries have
-- fixed keys, so each is a constructor; an agent's metadata is read by nothing and left out. The
-- clock reading `now` and the identifier `uuid` of the message that a method publishes are
-- arguments. Times are in microseconds.
pub mod Agents
pub mod Shutdown
pub mod Heartbeats
pub mod Tasks
mod Tests
use Prim.Native.String.{◌++◌ as text_append}
use kryvaracode.Common.{
  ℕ, zero, suc, ◌+◌, ◌-◌, ◌*◌, String, Bool, true, false, not, ◌&&◌, ◌||◌, Option, none, some, List,
  [], ◌∷◌, map, eqb, ltb, ◌==◌, is_none, if◌then◌else◌, length, count_if,
}
use kryvaracode.Common.Dict.{Dict, lookup, insert, without, keys, values}
use kryvaracode.Common.Int.{pos}
use kryvaracode.Coordination.TaskQueue
use kryvaracode.Coordination.TaskQueue.{
  TaskQueue, QueueTask, add_task, mark_completed, mark_failed, no_timer, timer, overflow_error,
  dead_letter_count,
}
use kryvaracode.Coordination.SharedState.{SharedState, set}
use kryvaracode.Coordination.MessageBus
use kryvaracode.Coordination.MessageBus.{
  MessageBus, Message, MessageType, agent_msg, task_request, task_result, publish, dispatch_one,
}

-- `HEARTBEAT_TIMEOUT`, 45 seconds
abbrev pub heartbeat_timeout : ℕ
heartbeat_timeout = 45000000

pub data AgentStatus : Type 0 where
  registered starting active idle degraded stopping stopped : AgentStatus

abbrev pub status_value : AgentStatus → String
status_value registered = "registered"
status_value starting = "starting"
status_value active = "active"
status_value idle = "idle"
status_value degraded = "degraded"
status_value stopping = "stopping"
status_value stopped = "stopped"

abbrev pub status_index : AgentStatus → ℕ
status_index registered = 0
status_index starting = 1
status_index active = 2
status_index idle = 3
status_index degraded = 4
status_index stopping = 5
status_index stopped = 6

abbrev pub has_status : AgentStatus → AgentStatus → Bool
has_status a b = eqb (status_index a) (status_index b)

pub record AgentInfo : Type 0 where
  pub name : String
  pub status : AgentStatus
  pub capabilities : List String
  pub registered_at : ℕ
  pub last_heartbeat : ℕ
  pub tasks_completed : ℕ
  pub tasks_failed : ℕ

-- What the coordinator writes to the shared state.
pub data StateValue : Type 0 where
  text : String → StateValue
  texts : List String → StateValue
  number : ℕ → StateValue

-- The payloads of its messages.
pub data Payload (V : Type 0) : Type 0 where
  agent_registered : String → List String → Payload V
  agent_deregistered : String → Payload V
  task_submitted : String → Option String → Payload V
  task_completed : String → Option V → Payload V
  task_failed : String → String → Payload V

pub record AgentCoordinator (V : Type 0) : Type 0 where
  pub bus : MessageBus (Payload V)
  pub state : SharedState StateValue
  pub queue : TaskQueue V
  pub agents : Dict AgentInfo
  pub heartbeat_task : Bool
  pub running : Bool

-- `f"agent.{name}.status"` and its like
abbrev pub agent_key : String → String → String
agent_key name suffix = text_append "agent." (text_append name suffix)

-- `submit_task` raises `ValueError` for an agent that it does not know.
pub data Submission : Type 0 where
  unknown_agent : String → Submission
  accepted : String → Submission

pub record Statistics : Type 0 where
  pub agents : ℕ
  pub active_agents : ℕ
  pub task_queue : Dict ℕ
  pub dead_letters : ℕ

-- `x or default`, of objects without `__len__`
abbrev pub given_or {ℓ} : {A : Type ℓ} → Option A → A → A
given_or none default = default
given_or (some a) default = a

abbrev pub new_agent : String → Option (List String) → ℕ → AgentInfo
new_agent name capabilities now = record {
  name = name;
  status = registered;
  capabilities = given_or capabilities [];
  registered_at = now;
  last_heartbeat = now;
  tasks_completed = 0;
  tasks_failed = 0;
}

-- An agent that has just been heard of.
abbrev pub refreshed : AgentInfo → ℕ → AgentInfo
refreshed info now = record info {
  last_heartbeat = now;
  status =
      if has_status info.status registered || has_status info.status degraded
      then active
      else info.status;
}

-- The body of the loop over the agents in `_heartbeat_loop`.
abbrev pub checked : ℕ → AgentInfo → AgentInfo
checked now info =
    if ltb heartbeat_timeout (now - info.last_heartbeat) && not (has_status info.status degraded)
    then record info { status = degraded }
    else info

-- `target_agent and target_agent not in self._agents`: the empty text counts as none.
abbrev pub is_unknown : Option String → Dict AgentInfo → Bool
is_unknown none agents = false
is_unknown (some target) agents = not (target == "") && is_none (lookup target agents)

abbrev pub target_name : Option String → String
target_name none = ""
target_name (some target) = target

module _ {V : Type 0} where
  -- `queue or task_queue`: an object whose `__len__` is 0 counts as false.
  unfoldable pub queue_or : Option (TaskQueue V) → TaskQueue V → TaskQueue V
  queue_or none default = default
  queue_or (some q) default = if eqb (TaskQueue.len q) 0 then default else q

  -- `__init__`; the last three arguments are the singletons of the three modules.
  unfoldable pub new_coordinator :
      Option (MessageBus (Payload V))
      → Option (SharedState StateValue)
      → Option (TaskQueue V)
      → MessageBus (Payload V)
      → SharedState StateValue
      → TaskQueue V
      → AgentCoordinator V
  unfolding queue_or
  new_coordinator bus state queue message_bus shared_state task_queue = record {
    bus = given_or bus message_bus;
    state = given_or state shared_state;
    queue = queue_or queue task_queue;
    agents = [];
    heartbeat_task = false;
    running = false;
  }

  unfoldable pub start : AgentCoordinator V → AgentCoordinator V
  start c =
      if c.running
      then c
      else record c { bus = MessageBus.start c.bus; heartbeat_task = true; running = true }

  -- A message of the coordinator.
  abbrev pub announcement : String → Payload V → MessageType → String → ℕ → Message (Payload V)
  announcement topic payload msg_type uuid now = record {
    topic = topic;
    sender = "coordinator";
    payload = payload;
    msg_type = msg_type;
    message_id = uuid;
    timestamp = now;
    priority = pos 0;
    reply_to = none;
  }

  unfoldable pub register_agent :
      String
      → Option (List String)
      → ℕ
      → String
      → AgentCoordinator V
      → AgentCoordinator V × AgentInfo
  register_agent name capabilities now uuid c =
      let info = new_agent name capabilities now in
      let noted =
        (set (agent_key name ".status") (text (status_value registered)) "coordinator" none now
          c.state).0 in
      (
        record c {
          agents = insert name info c.agents;
          state =
              (set (agent_key name ".capabilities") (texts info.capabilities) "coordinator" none now
                noted).0;
          bus =
              publish
                (announcement "coordinator.agent.registered"
                  (agent_registered name info.capabilities) agent_msg uuid now)
                c.bus;
        },
        info,
      )

  unfoldable pub deregister_agent :
      String → ℕ → String → AgentCoordinator V → AgentCoordinator V × Bool
  deregister_agent name now uuid c = elim (lookup name c.agents) [
    | none ↦ (c, false)
    | some info ↦ (
      record c {
        agents = without name c.agents;
        state =
            (set (agent_key name ".status") (text (status_value stopped)) "coordinator" none now
              c.state).0;
        bus =
            publish
              (announcement "coordinator.agent.deregistered" (agent_deregistered name) agent_msg
                uuid now)
              c.bus;
      },
      true,
    )
  ]

  -- The loop of `stop`; `uuids` gives the identifier of the message about each agent.
  unfoldable pub deregister_all :
      List String → ℕ → (String → String) → AgentCoordinator V → AgentCoordinator V
  unfolding deregister_agent
  deregister_all [] now uuids c = c
  deregister_all (name ∷ names) now uuids c =
      deregister_all names now uuids (deregister_agent name now (uuids name) c).0

  -- Rounds of the bus's dispatch loop.
  unfoldable pub dispatch_rounds : ℕ → MessageBus (Payload V) → MessageBus (Payload V)
  dispatch_rounds zero bus = bus
  dispatch_rounds (suc n) bus = dispatch_rounds n (dispatch_one bus)

  -- The bus while `stop` awaits the cancelled monitor: the dispatch loop gets its turn, and handles as
  -- many messages as its callbacks let it, `rounds`.
  abbrev pub awaited : ℕ → AgentCoordinator V → MessageBus (Payload V)
  awaited rounds c = if c.heartbeat_task then dispatch_rounds rounds c.bus else c.bus

  -- `true` if stopping the bus raises. What callbacks do during the wait is outside.
  unfoldable pub stop : ℕ → ℕ → (String → String) → AgentCoordinator V → AgentCoordinator V × Bool
  unfolding deregister_all dispatch_rounds
  stop rounds now uuids c =
      let emptied = deregister_all (keys c.agents) now uuids (record c { running = false }) in
      let (bus, raised) = MessageBus.stop (awaited rounds emptied) in
      (record emptied { heartbeat_task = false; bus = bus }, raised)

  unfoldable pub get_agent : String → AgentCoordinator V → Option AgentInfo
  get_agent name c = lookup name c.agents

  unfoldable pub list_agents : AgentCoordinator V → List AgentInfo
  list_agents c = values c.agents

  unfoldable pub heartbeat : String → ℕ → AgentCoordinator V → AgentCoordinator V
  heartbeat agent_name now c = elim (lookup agent_name c.agents) [
    | none ↦ c
    | some info ↦ record c {
      agents = insert agent_name (refreshed info now) c.agents;
      state = (set (agent_key agent_name ".heartbeat") (number now) agent_name none now c.state).0;
    }
  ]

  -- One round of `_heartbeat_loop`, after its sleep.
  unfoldable pub check_heartbeats : ℕ → AgentCoordinator V → AgentCoordinator V
  check_heartbeats now c = record c { agents = map (λ e. (e.0, checked now e.1)) c.agents }

  unfoldable pub submit_task :
      QueueTask V
      → Option String
      → ℕ
      → String
      → AgentCoordinator V
      → AgentCoordinator V × Submission
  submit_task task target_agent now uuid c =
      if is_unknown target_agent c.agents
      then (c, unknown_agent (target_name target_agent))
      else (let (queue, task_id) = add_task task c.queue in
          (
            record c {
              queue = queue;
              bus =
                  publish
                    (announcement "coordinator.task.submitted" (task_submitted task_id target_agent)
                      task_request uuid now)
                    c.bus;
            },
            accepted task_id,
          ))

  unfoldable pub complete_task :
      String → Option V → ℕ → String → AgentCoordinator V → AgentCoordinator V
  complete_task task_id result now uuid c = record c {
    queue = mark_completed task_id result now c.queue;
    bus =
        publish
          (announcement "coordinator.task.completed" (task_completed task_id result) task_result
            uuid now)
          c.bus;
  }

  -- `true` if an exception of the queue leaves it before the broadcast.
  unfoldable pub fail_task :
      String → String → ℕ → String → AgentCoordinator V → AgentCoordinator V × Bool
  fail_task task_id error now uuid c =
      let (queue, answer) = mark_failed task_id error now c.queue in
      let marked = record c { queue = queue } in
      let bus =
        publish
          (announcement "coordinator.task.failed" (task_failed task_id error) task_result uuid now)
          c.bus in
      elim answer [
        | overflow_error ↦ (marked, true)
        | no_timer ↦ (record marked { bus = bus }, false)
        | timer _ ↦ (record marked { bus = bus }, false)
      ]

  unfoldable pub stats : AgentCoordinator V → Statistics
  stats c = record {
    agents = length c.agents;
    active_agents = count_if (λ a. has_status a.status active) (values c.agents);
    task_queue = TaskQueue.stats c.queue;
    dead_letters = dead_letter_count c.queue;
  }
