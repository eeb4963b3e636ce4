-- ===== src/Orchestrator.antt =====
-- The orchestrator (src/orchestrator/orchestrator.rs): the tasks that build the jobs and how they
-- are wired up.
pub mod Task
pub mod Tree
pub mod Execution
