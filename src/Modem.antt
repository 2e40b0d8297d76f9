-- ===== src/Modem.antt =====
-- internal/modem: USB GSM modems, read through AT commands.
pub mod At
pub mod Discovery
pub mod Manager
pub mod Worker
