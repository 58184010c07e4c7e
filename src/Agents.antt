-- ===== src/Agents.antt =====
-- src/enterprise_orchestrator/agents: what an agent returns, and the agents.
pub mod Result
pub mod Validator
pub mod ToolExecution
pub mod Retrieval
pub mod Framework
pub mod Queries
pub mod Answers
pub mod Outcomes
pub mod Searches
mod Tests
