-- ===== src/Bot.antt =====
-- internal/modules/telegram_bot: what the Telegram bot does to deals, and its texts.
pub mod Start
pub mod Commands
pub mod Publishing
pub mod States
pub mod Drafting
pub mod Dialogs
pub mod Monitoring
pub mod Escape
pub mod Render
