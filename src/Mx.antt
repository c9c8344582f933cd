-- ===== src/Mx.antt =====
-- bridge/mx.py: the command line that sends to the bridge's Matrix room and prints its last messages.
pub mod Host
pub mod Config
pub mod Session
pub mod Commands
pub mod Confined
pub mod OnlyRoom
pub mod Marker
pub mod Wakes
