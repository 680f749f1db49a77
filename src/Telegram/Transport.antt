-- ===== src/Telegram/Transport.antt =====
-- telegram_bot/transport.py and runtime.py: from the updates of the Bot API to commands and replies.
pub mod Routing
pub mod Spaces
pub mod Roundtrip
pub mod Feedback
pub mod Delivery
pub mod Polling
pub mod Backoff
mod Examples
