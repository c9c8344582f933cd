-- ===== src/Lobby.antt =====
-- The lobby flow of knock-approver/approver.py: a code posted to /join/api opens a public room, and
-- whoever joins it answers the captcha there.
pub mod Join
pub mod Rooms
pub mod Process
pub mod Resend
pub mod Sweep
pub mod Round
