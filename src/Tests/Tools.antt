-- ===== src/Tests/Tools.antt =====
-- The command line of bridge/mx.py at concrete inputs.
use shape_rotator_matrix.Base.{◌+◌, ◌≤◌, ◌≡◌, refl, ◌⊎◌, String, false, none, some, [], ◌∷◌}
use shape_rotator_matrix.Exec.{ok}
use shape_rotator_matrix.Mx.Host.{JsonFile, message, Host, Client}
use shape_rotator_matrix.Mx.Commands.{send, tail, main, run_all}
use shape_rotator_matrix.Mx.Confined.{IsConfined}
use shape_rotator_matrix.Mx.OnlyRoom.{IsConfigured, main-IsConfined}
use shape_rotator_matrix.Mx.Marker.{wakes, generated}
use shape_rotator_matrix.Mx.Wakes.{run_all-wakes}

abbrev creds_file : JsonFile
creds_file = some (
    ok (
      ("user_id", "@bot:x")
      ∷ ("access_token", "token")
      ∷ ("device_id", "D")
      ∷ ("homeserver", "https://x")
      ∷ []))

abbrev fixtures_file : JsonFile
fixtures_file = some (ok (("matrix_room_id", "!room") ∷ []))

abbrev host : Host
host = record {
  creds = creds_file;
  fixtures = fixtures_file;
  next_batch = none;
  recovery_key = none;
  woke = false;
  cursor = none;
  joined = [];
  calls = [];
  delivered = [];
  output = [];
}

abbrev client : Client
client = record {
  open_error = λ creds. none;
  share_error = λ past. none;
  has_keys = λ past. ok false;
  generate = λ past. ok "recovery";
  sync = λ past since. ok (some (record { next_batch = "n1"; join = "!room" ∷ [] }));
  send = λ past room text. ok "$event";
  messages = λ past room n. ok ("raw" ∷ []);
  deserialize =
      λ raw. some (record { timestamp = 5; sender = "@ada:x"; kind = message; body = "hello" });
  decrypt = λ ev. ok ev;
}

main-IsConfined_example :
    let h' = (main client (send "hi") host).1 in
    ((room : String) × IsConfigured fixtures_file room × IsConfined room h')
    ⊎ ((h'.calls ≡ []) × (h'.delivered ≡ []))
main-IsConfined_example = main-IsConfined client (send "hi") host refl refl

run_all-wakes_example :
    let h' = run_all client (send "hi" ∷ tail 3 ∷ []) host in
    wakes h'.delivered ≤ 1 + generated h'.calls
run_all-wakes_example =
    run_all-wakes client (send "hi" ∷ tail 3 ∷ []) host (refl, (tt, tt)) refl refl
