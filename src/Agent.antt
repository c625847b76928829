-- ===== src/Agent.antt =====
-- src/agent: the tools that agents call, and the jobs that call them on a schedule.
pub mod Tools
pub mod Triggers
pub mod Scheduler
pub mod Computer
