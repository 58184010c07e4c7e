-- ===== src/Execution.antt =====
-- src/enterprise_orchestrator/execution: the boundary between the API and the runtime, which admits
-- runs to a bounded queue, drops duplicates and lets workers take them off.
pub mod Futures
pub mod Ledger
pub mod Models
pub mod Backend
mod Tests
