-- ===== src/Telegram.antt =====
-- The Telegram bot service, src/iwiki_mcp/telegram_bot.
pub mod Words
pub mod Budget
pub mod Context
pub mod Services
pub mod Toy
pub mod Session
pub mod Retrieval
pub mod Conversation
pub mod Changes
pub mod Agent
pub mod Commands
pub mod Transport
