-- ===== src/Tests/Bots.antt =====
-- The responder at concrete inputs.
use shape_rotator_matrix.Base.{◌≡◌, refl, false, none, some, [], ◌∷◌, All}
use shape_rotator_matrix.Text.{strip_by, is_prefix_of, lstrip_by, drop_chars}
use shape_rotator_matrix.Dict.{lookup}
use shape_rotator_matrix.Exec.{ok, ◌>>=◌}
use shape_rotator_matrix.Responder.Data.{
  room_key_bundle, FileInfo, Item, Group, Decrypted, InviteEvent, SyncData, Bot, Client,
}
use shape_rotator_matrix.Responder.Bundle.{
  break_at, split_mxc, download_mxc, fetch_items, import_room_key_bundle,
}
use shape_rotator_matrix.Responder.Loop.{main}
use shape_rotator_matrix.Responder.Invited.{IsVouched}
use shape_rotator_matrix.Responder.History.{main-AllVouched}
use shape_rotator_matrix.Responder.Rejected.{import_stops}

abbrev good : Item
good = record {
  algorithm = some "m.megolm.v1.aes-sha2";
  room_id = some "!r";
  session_key = some "key";
  ed25519 = some "ed";
  sender_key = some "curve";
  session_id = some "s1";
}

-- An entry for another room.
abbrev bad : Item
bad = record good { room_id = some "!other" }

abbrev file : FileInfo
file = record { url = some "mxc://x/media"; key = some "k"; sha256 = some "h"; iv = some "iv" }

abbrev bundle : Decrypted
bundle = record {
  kind = room_key_bundle;
  sender = "@ada:x";
  content = record { room_id = "!r"; file = some file };
}

abbrev invitation : InviteEvent
invitation = record {
  kind = "m.room.member";
  state_key = "@bot:x";
  membership = "invite";
  sender = "@ada:x";
}

abbrev reply : SyncData
reply = record {
  next_batch = "n1";
  invite = ("!r", invitation ∷ []) ∷ [];
  join = [];
  to_device = "cipher" ∷ [];
  messages = [];
}

abbrev client : Client
client = record {
  mxid = "@bot:x";
  sync = λ past since. ok (some reply);
  join_error = λ past room. none;
  send_error = λ past room. none;
  media = λ past host id. ok (200, "bytes");
  decrypt_attachment = λ text key sha iv. ok text;
  parse_bundle = λ text. ok (some (good ∷ bad ∷ []));
  import_session = λ key ed curve room. ok "session";
  put_error = λ g. none;
  decrypt_olm_event = λ past raw. ok bundle;
}

abbrev bot : Bot
bot = record { calls = []; inviters = []; joined = []; cursor = none; groups = [] }

abbrev invited_bot : Bot
invited_bot = record bot { inviters = ("!r", "@ada:x") ∷ [] }

abbrev stored : Group
stored = record { room_id = "!r"; sender_key = "curve"; session_id = "s1"; session = "session" }

main-AllVouched_example : All (IsVouched client) (main client "" "" 2 bot).1.groups
main-AllVouched_example = main-AllVouched client "" "" 2 bot refl refl

abbrev after_fetch : Bot
after_fetch = (fetch_items client "mxc://x/media" file invited_bot).1

import_stops_example :
    import_room_key_bundle client bundle invited_bot
    ≡ (ok false, record after_fetch { groups = stored ∷ [] })
unfolding fetch_items download_mxc split_mxc break_at drop_chars strip_by lstrip_by lookup
    is_prefix_of ◌>>=◌
import_stops_example =
    import_stops client "!r" bundle file "mxc://x/media" (good ∷ []) (bad ∷ []) (stored ∷ [])
      invited_bot after_fetch refl refl refl refl refl refl refl
      (
        record {
          algorithm = refl;
          same_room = refl;
          session_key = "key";
          has_session_key = refl;
          ed25519 = "ed";
          has_ed25519 = refl;
          has_sender_key = refl;
          has_session_id = refl;
          imported = refl;
          is_group = refl;
          stored = refl;
        },
        tt,
      )
      refl
