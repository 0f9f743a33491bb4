-- ===== src/Auth.antt =====
-- src/a2a_superhub/auth.py: principals and their scopes, the registry of principals, the bearer-token
-- check, and the limiter.
pub mod Bearer
pub mod Limiter
pub mod Grants
pub mod Registry
pub mod Scoped
mod Tests
