-- ===== src/Aegis.antt =====
-- src/agent/aegis: the safety scan of generated code, the approval gate and the budget of resources.
pub mod Pattern
pub mod Invariants
pub mod Gatekeeper
pub mod Governor
