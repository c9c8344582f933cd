-- ===== src/Admin.antt =====
-- The admin commands of knock-approver/approver.py: !mint, !codes, !revoke and !help.
pub mod Mint
pub mod Revoke
pub mod Dispatch
