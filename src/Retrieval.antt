-- ===== src/Retrieval.antt =====
-- src/enterprise_orchestrator/retrieval: documents are cut into chunks for the search index.
pub mod Chunking
mod Tests
