-- ===== src/Orchestration.antt =====
-- src/enterprise_orchestrator/orchestration: the supervisor workflow, a graph of eight nodes that
-- read and change the state of a run.
pub mod Graph
pub mod Nodes
pub mod Gates
pub mod GateNode
pub mod Endings
pub mod Routing
pub mod Runnable
pub mod Dispatch
pub mod HumanGate
pub mod Decisions
pub mod Budget
pub mod Progress
pub mod Runtime
mod Tests
