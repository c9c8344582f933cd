-- ===== src/Relay.antt =====
-- bridge/relay.py: the relay between one Matrix room and one Telegram group.
pub mod State
pub mod Bodies
pub mod Bridge
pub mod Telegram
pub mod Matrix
pub mod Run
