-- ===== src/Sovereign.antt =====
-- src/agent/sovereign: the swarm's loop.
pub mod Swarm
pub mod Memory
