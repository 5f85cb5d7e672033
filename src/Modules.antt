-- ===== src/Modules.antt =====
-- internal/module/registry.go: the modules and their life cycle.
pub mod Registry
pub mod Order
mod Tests
