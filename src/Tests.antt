-- ===== src/Tests.antt =====
-- Concrete configurations and state files, on which the theorems are applied.
mod Rooms
mod Tables
mod Services
mod Starts
mod Turns
mod Rounds
mod Devices
mod Scripts
mod Bots
mod Tools
mod Signing
mod Bundles
use shape_rotator_matrix.Base.{String, Option, none, some, List, [], ◌∷◌, true, false}
use shape_rotator_matrix.World.{CodeEntry, Vetting, Lobby, World, Env, Request, Reply, answer}
use shape_rotator_matrix.Sync.{Event}

abbrev pub entry : CodeEntry
entry = record { uses_remaining = 1; label = "friends"; inviter = "" }

-- One code with one use left, and nothing else.
abbrev pub start : World
start = record {
  codes = ("haiku7", entry) ∷ [];
  signup = [];
  vetting = [];
  lobby = [];
  announced = none;
  log = [];
  trace = [];
  drawn = 0;
}

-- Every request is answered with 200 and one room id.
abbrev pub replies : List Request → Request → Reply
replies past r = answer 200 "!room:example.org"

abbrev pub env : Env
env = record {
  space_id = "!space:example.org";
  server_name = "example.org";
  space_child_ids = [];
  vetting_timeout = 3600;
  vetting_max_tries = 3;
  lobby_timeout = 3600;
  lobby_max_tries = 3;
  lobby_challenge_delay = 0;
  lobby_resend_after = 60;
  lobby_alias_prefix = "lobby-";
  welcome_code_uses = 0;
  feed_room = "";
  operator_notify_room = "";
  admin_command_room = "!admin:example.org";
  admin_allowlist = [];
  admin_pl_threshold = 100;
  our_mxid = "@bot:example.org";
  reg_token = "";
  onboarding_inviter = "";
  reply = replies;
  now = λ past. 10000;
  token_urlsafe = λ n. "abcdefgh";
  token_hex = λ bytes n. "0f0f";
  lower = λ s. s;
  is_alpha = λ s. true;
  level_table = λ past room. none;
}

-- A message of `who`.
abbrev pub says : String → String → Event
says who text = record {
  kind = "m.room.message";
  state_key = "";
  sender = who;
  membership = "";
  displayname = "";
  reason = "";
  body = text;
}

abbrev pub haiku : String
haiku = "an old quiet pond\na frog jumps into the pond\nsplash and then silence"

abbrev pub vetting_room : Vetting
vetting_room = record {
  mxid = "@ada:example.org";
  code = "haiku7";
  created = 100;
  title = "Garden pond";
  keyword = "pond";
  displayname = "Ada";
  tries_left = 3;
  promoted = false;
  promoted_at = 0;
  invited_children = [];
  closed = false;
  closed_reason = none;
}

abbrev pub lobby_room : Lobby
lobby_room = record {
  alias = "lobby-abc";
  code = "haiku7";
  created = 100;
  title = "Garden pond";
  keyword = "pond";
  challenged = "@ada:example.org" ∷ [];
  tries = ("@ada:example.org", 3) ∷ [];
  displaynames = ("@ada:example.org", "Ada") ∷ [];
  challenge_sent_ts = ("@ada:example.org", 100) ∷ [];
  challenge_resends = ("@ada:example.org", 0) ∷ [];
  promoted = false;
  promoted_at = 0;
  promoted_user = "";
  closed = false;
  closed_reason = none;
}
