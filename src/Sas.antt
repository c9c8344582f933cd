-- ===== src/Sas.antt =====
-- landing/sas_verification.py: the bot's side of the verification of devices by short strings.
pub mod Session
pub mod Mac
pub mod Manager
pub mod Frames
pub mod Vouched
pub mod Known
pub mod History
pub mod Trusted
pub mod Settled
pub mod Exchange
pub mod Complete
pub mod Cancelled
