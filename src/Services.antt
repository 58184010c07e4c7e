-- ===== src/Services.antt =====
-- src/enterprise_orchestrator/services/orchestration_service.py: the events of a run and those who
-- follow them.
pub mod Events
pub mod Delivery
pub mod Capacity
pub mod Bounds
mod Tests
