-- ===== src/Redact.antt =====
-- deploy/admin/bulk_redact.py: redacts the messages of one sender in one room and one stretch of time.
pub mod Tool
pub mod Scan
pub mod Run
pub mod Wanted
pub mod Calls
pub mod Attempts
pub mod Limits
pub mod Ends
