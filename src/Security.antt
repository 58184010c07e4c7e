-- ===== src/Security.antt =====
-- src/enterprise_orchestrator/security: who may do what, and how often.
pub mod RateLimiter
pub mod Roles
pub mod Authenticators
pub mod Access
mod Tests
