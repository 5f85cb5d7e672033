-- ===== src/AuditLog.antt =====
-- internal/audit: the audit logger and its background worker.
pub mod Logger
pub mod Delivery
mod Tests
