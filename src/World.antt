-- ===== src/World.antt =====
-- What knock-approver/approver.py shares between its coroutines: the state files under /data, the
-- audit log, and the requests that it has made. What lies outside the program (the homeserver,
-- Wikipedia, the clock, random tokens, Unicode tables) and the configuration are one record, `Env`.
mod Data
mod Effects
pub mod Frames
pub use Data.*
unfoldable pub use Effects.{
  request, or_raise, post, send_msg, send_msg_raw, save_codes, save_signup, save_vetting,
  save_lobby, audit, clock, draw, new_code,
}
