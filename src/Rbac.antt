-- ===== src/Rbac.antt =====
-- internal/rbac and its storage: the built-in roles, the engine, and the SQLite repository.
pub mod Permissions
pub mod Defaults
pub mod Repository
pub mod Engine
pub mod Decision
pub mod Hierarchy
pub mod Splitting
pub mod FlatRules
mod Tests
