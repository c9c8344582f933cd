-- ===== src/Tests/Starts.antt =====
-- Starts of the main bot and of the process at concrete inputs.
use shape_rotator_matrix.Base.{true, false, map, ◌≡◌, refl, none, some, List, [], ◌∷◌}
use shape_rotator_matrix.Exec.{ok, ◌>>◌, ◌>>=◌}
use shape_rotator_matrix.Exec.Triples.{Post}
use shape_rotator_matrix.Credentials.{
  Identity, Disk, Boot, Server, read_text, device_changed, resolve_credentials, HeldSession,
  StoredRow, whoami_with_token,
}
use shape_rotator_matrix.Heal.{
  start_main_bot, export_escrow_for_wipe, wipe_crypto_store, import_inbound_sessions, export_rows,
}
use shape_rotator_matrix.Heal.Escrow.{IsSafe, start_main_bot-IsSafe}
use shape_rotator_matrix.Heal.Restore.{Restores, sessions_of, row_of, escrow_roundtrip}
use shape_rotator_matrix.Start.{
  seeds, unset, Machine, Setup, Globals, on_main, put_world, merge_seed, start_lobby_bot, name_of,
  start,
}
use shape_rotator_matrix.Start.Seeding.{Started, Stopped, start-Started}
use shape_rotator_matrix.Tests
use shape_rotator_matrix.Tests.{entry, env}

abbrev session : HeldSession
session = record {
  room_id = "!room:example.org";
  sender_key = "curve";
  signing_key = "ed";
  id = "session one";
  first_known_index = 3;
  ratchet = "ratchet";
}

abbrev rows : List StoredRow
rows =
    record { is_withheld = false; held = ok (some session) }
    ∷ record { is_withheld = false; held = ok none }
    ∷ record { is_withheld = true; held = ok none }
    ∷ []

abbrev pub disk : Disk
disk = record {
  token = some "cached token";
  device_id = some "OLD\n";
  password = some "secret";
  crypto = some rows;
  sync_since = some "s1";
  escrow = none;
}

abbrev pub boot : Boot
boot = record { disk = disk; calls = [] }

abbrev bot : Identity
bot = record { device_id = "NEW"; mxid = "@bot:example.org" }

-- Every token is live, on the new device.
abbrev pub server : Server
server = record {
  whoami_reply = λ calls token. some bot;
  login_reply = λ calls password device. ok none;
  open_store = λ mxid device. none;
  export_session = λ h index. ok h.ratchet;
  import_session = λ key signing_key sender_key room_id. ok (record session {
    ratchet = key;
    signing_key = signing_key;
    sender_key = sender_key;
    room_id = room_id;
  });
  put_error = λ room_id sender_key id h. none;
}

start_main_bot-IsSafe_example : IsSafe server disk (start_main_bot server "env token" boot).1.disk
start_main_bot-IsSafe_example = start_main_bot-IsSafe server "env token" boot

session_Restores : Restores server session
session_Restores = record { key = "ratchet"; exports = refl; imports = refl; puts = refl }

escrow_roundtrip_example :
    let wiped =
      (do export_escrow_for_wipe server "@bot:example.org" "OLD"; wipe_crypto_store) boot in
    let fresh : Boot = record wiped.1 { disk = record wiped.1.disk { crypto = some [] } } in
    (wiped.0 ≡ ok tt)
    × (wiped.1.disk.crypto ≡ none)
    × ((import_inbound_sessions server fresh).0 ≡ ok tt)
    × ((import_inbound_sessions server fresh).1.disk.crypto ≡ some (map row_of (sessions_of rows)))
escrow_roundtrip_example =
    escrow_roundtrip server "@bot:example.org" "OLD" rows boot refl
      (session_Restores, (tt, (tt, tt))) refl

-- One code that the file holds with one use, and one that it lacks.
abbrev pub setup : Setup
setup = record {
  main_server = server;
  lobby_server = server;
  main_token = "env token";
  lobby_token = "env token";
  server_name = "example.org";
  initial_codes = seeds (("haiku7", record entry { uses_remaining = 5 }) ∷ ("fresh", entry) ∷ []);
  initial_signup_codes = unset;
}

abbrev pub machine : Machine
machine = record { main = disk; lobby = disk; calls = []; world = Tests.start }

start-Started_example :
    Post
      (λ _ y. Started setup Tests.start y.world)
      (λ y. Stopped Tests.start y.world)
      (start setup machine)
start-Started_example = start-Started setup machine

abbrev pub globals : Globals
globals = record { token = "env token"; lobby_token = "env token"; server_name = "example.org" }

pub begun : (start setup machine).0 ≡ ok globals
unfolding start start_main_bot on_main resolve_credentials read_text device_changed start_lobby_bot
    name_of merge_seed put_world export_escrow_for_wipe wipe_crypto_store whoami_with_token
    export_rows ◌>>=◌
begun = refl
