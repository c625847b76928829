-- ===== src/Lib.antt =====
-- A model of the coordination layer of the agents, of the database's tables and the authentication of
-- its users, of the agents' tools, schedule and forge, of the safety scan, the swarm's loop, the memory's
-- index and the event bus around them, and of the rate limiter, with its theorems.
--
-- Parts and files. Paths are from the repository's root; a definition has the name of the function,
-- method or class that it models, without a leading underscore.
--   Coordination/TaskQueue    src/agent/coordination/task_queue.py: the priority queue of tasks with
--     dependencies, retries and dead letters. State: the dictionary of tasks and the running counter.
--   Coordination/SharedState  src/agent/coordination/shared_state.py: the key-value store with
--     versions, time-to-live, a bounded change log and observers.
--   Coordination/Topics       `_topic_matches` of src/agent/coordination/message_bus.py, on lists of
--     character codes, with `replace`, `rstrip`, `startswith` and `endswith` as it uses them.
--   Coordination/MessageBus   the rest of message_bus.py: subscriptions, the queue, the dispatch loop
--     and the bounded history.
--   Coordination/Coordinator  src/agent/coordination/coordinator.py: agents and the routing of tasks.
--     It holds a bus, a state and a queue and calls their functions, as the source does.
--   Core/RateLimit            src/core/rate_limit.py: the sliding window, the middleware and the limit's text.
--   Core/Exceptions           src/core/exceptions.py: the application's errors and what a handler answers.
--   Core/Security             src/core/security.py: password policy, hashes and tokens, over a record of
--     what bcrypt, SHA-256 and jose compute.
--   Db/Table, Db/Models       src/db/models.py, and what src/db/crud.py asks of a table.
--   Db/Users                  the operations of src/db/crud.py on users, the lockout among them.
--   Db/Records                the other operations of src/db/crud.py; Db/Records/Jobs those on jobs.
--   Agent/Tools               src/agent/tools.py: the call of a tool and its audit; Agent/Tools/Handlers the
--     handlers over the database.
--   Agent/Triggers            `EventEvaluator` of src/agent/orchestrator.py.
--   Agent/Scheduler           src/agent/scheduler.py: the run of the jobs that are due.
--   Agent/Computer            the policy of commands of src/agent/computer.py.
--   Features/Chunker          src/features/rag/chunker.py: documents cut into chunks.
--   Features/Augmenter        src/features/rag/augmenter.py: context in front of a prompt.
--   Forge/Manager             src/agent/forge/manager.py and verifier.py: how a capability goes live.
--   Api/Auth                  src/api/auth/router.py and src/api/deps.py: registration, login, reset of a
--     password, rotation of refresh tokens, the current user.
--   Aegis/Pattern             the regular expressions of src/agent/aegis/invariants.py, as a matcher.
--   Aegis/Invariants          src/agent/aegis/invariants.py and verifier.py: the scan of code.
--   Aegis/Gatekeeper          src/agent/aegis/gatekeeper.py: the approval of risky actions.
--   Aegis/Governor            src/agent/aegis/governor.py: the budget of resources.
--   Sovereign/Swarm           src/agent/sovereign/swarm_engine.py: the loop of executor and critic.
--   Sovereign/Memory          src/agent/sovereign/memory_graph.py: nodes and the index of their tags.
--   Forge/Registry            src/agent/forge/registry.py: the registry of synthesized tools.
--   Nerve                     src/agent/nerve/event_bus.py: system events and their bus.
--   Common                    shared tests, lists, dictionaries and integers. A Python dictionary is a
--     list of keys and values in the order of insertion.
--
-- In each part the module with the part's name holds the definitions, its child modules the lemmas and
-- theorems, and its module Tests runs of the definitions and instances of the theorems.
--
-- Modelling. A method is a function from state to state and answer. Readings of the clock (`now`,
-- `later`) and new identifiers (`uuid`) are arguments. Times, delays and time-to-live are natural
-- numbers of a unit that is left open, since the source compares, adds and multiplies them only; a
-- difference of times that would be negative is 0, which the tests that read it take for the same. Calls
-- of callbacks and observers are recorded in a list, in their order. A background loop is one function
-- for one round of it. The other loops of the source run over finite lists, but for the `while` of
-- `run_loop` in Sovereign/Swarm, which is on fuel: each round raises the count of iterations by one, so
-- the rounds that the limit leaves and one more are enough.
--
-- The order in which the database lists rows without an ORDER BY is that of the table. A call that suspends
-- is one step, but for the coordinator's `stop`, where the dispatch loop may run while the monitor is
-- awaited.
--
-- Not modelled: logging, locks (a method runs to its first `await` without interleaving), handlers and
-- metadata of tasks, which nothing reads, and the parts of the repository that are glue, such as the
-- routers but for authentication, the command line and the tools that call other services.
pub mod Common
pub mod Coordination
pub mod Core
pub mod Db
pub mod Api
pub mod Agent
pub mod Features
pub mod Aegis
pub mod Nerve
pub mod Sovereign
pub mod Forge
