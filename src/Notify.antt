-- ===== src/Notify.antt =====
-- internal/module/notify and its table: what a user wants to be told.
pub mod Preferences
pub mod Handlers
pub mod Filter
pub mod Laws
mod Tests
