-- ===== src/Providers.antt =====
-- src/enterprise_orchestrator/providers: the language-model providers behind one router.
pub mod Router
mod Tests
