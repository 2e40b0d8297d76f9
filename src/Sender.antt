-- ===== src/Sender.antt =====
-- internal/sender: the texts that the senders send.
pub mod Format
pub mod Digits
pub mod Shown
pub mod Telegram
pub mod Email
