-- ===== src/Forge.antt =====
-- src/agent/forge: the tools that are synthesized at run time.
pub mod Registry
pub mod Manager
