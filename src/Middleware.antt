-- ===== src/Middleware.antt =====
-- internal/bot/middleware: what every update passes before its handler.
pub mod RateLimit
pub mod Window
pub mod Auth
pub mod Registration
pub mod Audit
mod Tests
