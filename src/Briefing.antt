-- ===== src/Briefing.antt =====
-- internal/module/briefing: when the daily report is sent.
pub mod Schedule
pub mod Windows
mod Tests
