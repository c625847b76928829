-- ===== src/Coordination.antt =====
-- src/agent/coordination: the multi-agent coordination layer.
pub mod TaskQueue
pub mod SharedState
pub mod Topics
pub mod MessageBus
pub mod Coordinator
