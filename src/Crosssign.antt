-- ===== src/Crosssign.antt =====
-- knock-approver/approver.py, POST /signup/api/crosssign: the signing keys of an account and the
-- signature of its device.
pub mod Keys
pub mod Requests
pub mod Bootstrap
pub mod Frames
pub mod Chain
pub mod Uploads
pub mod Answers
