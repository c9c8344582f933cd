-- ===== src/Tests/Bundles.antt =====
-- A room key bundle at concrete inputs, from the approver to the responder.
use shape_rotator_matrix.Base.{◌≡◌, refl, subst, true, none, some, List, [], ◌∷◌, map}
use shape_rotator_matrix.Text.{strip_by, is_prefix_of, lstrip_by, drop_chars}
use shape_rotator_matrix.Dict.{lookup}
use shape_rotator_matrix.Exec.{Outcome, ok, raised, ◌>>=◌}
use shape_rotator_matrix.Responder.Data.{room_key_bundle, Decrypted, Bot, Client}
use shape_rotator_matrix.Responder.Bundle.{
  break_at, split_mxc, download_mxc, import_room_key_bundle,
}
use shape_rotator_matrix.Responder.Rejected.{added}
use shape_rotator_matrix.Bundle.{
  Row, RoomKey, Withheld, Attachment, Store, Library, Media, export_row, collect, upload_media,
  bundle_rows, build_room_key_bundle,
}
use shape_rotator_matrix.Bundle.Build.{shared}
use shape_rotator_matrix.Bundle.Roundtrip.{item_of, Fits, imported, bundle_roundtrip}

abbrev rows : List Row
rows =
    record { session_id = "s1"; sender_key = "curve"; withheld_code = none }
    ∷ record { session_id = "s2"; sender_key = "curve"; withheld_code = some "m.unverified" }
    ∷ []

abbrev key : RoomKey
key = record {
  room_id = "!r";
  ed25519 = "ed";
  sender_key = "curve";
  session_id = "s1";
  session_key = "key";
}

abbrev store : Store
store = record {
  fetch = λ room. ok rows;
  get_group_session = λ room id. ok (some (record { signing_key = "ed"; exported = ok "key" }));
}

abbrev library : Library
library = record {
  dumps = λ keys withheld. "bundle";
  encrypt_attachment = λ text. record { ciphertext = text; key = "k"; sha256 = "h"; iv = "iv" };
  upload = λ past text. ok (200, ok (some "mxc://x/media"));
}

abbrev client : Client
client = record {
  mxid = "@bot:x";
  sync = λ past since. ok none;
  join_error = λ past room. none;
  send_error = λ past room. none;
  media = λ past host id. ok (200, "bundle");
  decrypt_attachment = λ text key sha iv. ok text;
  parse_bundle = λ text. ok (some (item_of key ∷ []));
  import_session = λ key ed curve room. ok "session";
  put_error = λ g. none;
  decrypt_olm_event = λ past raw. ok bundle;
}
  where
    bundle : Decrypted
    bundle = record {
      kind = room_key_bundle;
      sender = "@ada:x";
      content = record { room_id = "!r"; file = none };
    }

client-Fits : Fits library store client "!r"
client-Fits = record {
  decrypts = λ text. refl;
  session_of = λ row. "session";
  imports = λ row session key held exported. refl;
  stores = λ g. refl;
}

abbrev media : Media
media = record { sent = [] }

abbrev attached : Attachment
attached = record {
  url = "mxc://x/media";
  file = record { url = some "mxc://x/media"; key = some "k"; sha256 = some "h"; iv = some "iv" };
}

abbrev event : Decrypted
event = record {
  kind = room_key_bundle;
  sender = "@ada:x";
  content = record { room_id = "!r"; file = some attached.file };
}

abbrev bot : Bot
bot = record {
  calls = [];
  inviters = ("!r", "@ada:x") ∷ [];
  joined = [];
  cursor = none;
  groups = [];
}

abbrev after_download : Bot
after_download = (download_mxc client "mxc://x/media" bot).1

-- The bundle is read as it was written.
abbrev IsRead : Outcome (List RoomKey × List Withheld) × Media → Type 0
IsRead (ok (keys, withheld), u) =
    client.parse_bundle (library.dumps keys withheld) ≡ ok (some (map item_of keys))
IsRead (raised x, u) = Unit

bundle_roundtrip_example : import_room_key_bundle client event bot ≡ (
  ok true,
  record after_download {
    groups =
        added
          (map (imported library store client "!r" client-Fits) (shared rows))
          after_download.groups;
  },
)
unfolding collect export_row upload_media bundle_rows build_room_key_bundle download_mxc split_mxc
    break_at drop_chars strip_by lstrip_by lookup is_prefix_of ◌>>=◌
bundle_roundtrip_example =
    bundle_roundtrip library store client "!r" client-Fits rows media
      (record { sent = "bundle" ∷ [] }) attached event bot after_download refl
      (λ keys withheld run. subst IsRead run refl) refl refl refl refl refl refl refl
