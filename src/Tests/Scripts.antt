-- ===== src/Tests/Scripts.antt =====
-- The scripts and the bots at concrete inputs.
use shape_rotator_matrix.Base.{refl, true, false, none, [], ◌∷◌}
use shape_rotator_matrix.Exec.{ok}
use shape_rotator_matrix.Redact.Tool.{
  Event, session, page, nothing, login_call, messages_call, redact_call, logout_call, pause, Server,
}
use shape_rotator_matrix.Redact.Run.{Args, main}
use shape_rotator_matrix.Redact.Ends.{Ends, main-Ends}

abbrev noise : Event
noise = record {
  event_id = "$1";
  origin_server_ts = 150;
  sender = "@bot:x";
  kind = "m.room.message";
  unsigned = none;
}

-- One page with one event twice, and no other.
abbrev server : Server
server past (login_call user password) = ok (200, session "token" "D" "@bot:x")
server past (messages_call room from) = ok (200, page (noise ∷ noise ∷ []) "")
server past (redact_call room event_id reason) = ok (200, nothing)
server past logout_call = ok (200, nothing)
server past pause = ok (200, nothing)

abbrev args : Args
args = record {
  user = "bot";
  password = "secret";
  room = "!r:x";
  since_ms = 100;
  until_ms = 200;
  dry_run = false;
  limit = 5;
  reason = "flood cleanup";
  paced = true;
}

main-Ends_example : Ends server args (main server args (record { calls = [] })).1.calls
main-Ends_example = main-Ends server args (record { calls = [] }) refl
