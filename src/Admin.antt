-- ===== src/Admin.antt =====
-- internal/module/rbacmod: the administration of roles.
pub mod Dialogs
pub mod Effects
mod Tests
