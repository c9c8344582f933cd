-- ===== src/Responder.antt =====
-- landing/responder.py: a bot that answers commands and takes over the history of rooms that it is
-- invited to.
pub mod Data
pub mod Bundle
pub mod Loop
pub mod Invited
pub mod History
pub mod Rejected
