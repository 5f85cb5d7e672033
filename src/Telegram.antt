-- ===== src/Telegram.antt =====
-- pkg/telegram and internal/bot/keyboard: listings and callback data.
pub mod Paginator
pub mod Pages
pub mod CallbackStore
pub mod Splitting
pub mod Parts
pub mod Lines
pub mod Sizes
mod Tests
