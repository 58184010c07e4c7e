-- ===== src/Core.antt =====
-- src/enterprise_orchestrator/core: the domain model of a run and the operations on it.
pub mod Types
pub mod Task
pub mod State
