-- ===== src/Responder/Data.antt =====
-- The state of the responder, and what it is told.
use shape_rotator_matrix.Base.{ℕ, String, Bool, Option, List}
use shape_rotator_matrix.Dict.{Dict}
use shape_rotator_matrix.Exec.{Exn, Outcome}

-- The attachment of a bundle. A url that is no text is read as missing.
pub record FileInfo : Type 0 where
  pub url : Option String
  pub key : Option String  -- `["key"]["k"]`
  pub sha256 : Option String  -- `["hashes"]["sha256"]`
  pub iv : Option String

-- The content of an `m.room_key_bundle` event; an absent room is the empty text.
pub record Content : Type 0 where
  pub room_id : String
  pub file : Option FileInfo

-- An entry of `room_keys`.
pub record Item : Type 0 where
  pub algorithm : Option String
  pub room_id : Option String
  pub session_key : Option String
  pub ed25519 : Option String  -- `["sender_claimed_keys"]["ed25519"]`
  pub sender_key : Option String
  pub session_id : Option String

-- A session that a bundle has put into the crypto store.
pub record Group : Type 0 where
  pub room_id : String
  pub sender_key : String
  pub session_id : String
  pub session : String

-- The types of decrypted to-device events that `on_encrypted` tells apart.
pub data Kind : Type 0 where
  room_key_bundle room_key forwarded_room_key other : Kind

pub record Decrypted : Type 0 where
  pub kind : Kind
  pub sender : String
  pub content : Content

-- An event of the state that comes with an invite; absent fields are empty texts.
pub record InviteEvent : Type 0 where
  pub kind : String
  pub state_key : String
  pub membership : String
  pub sender : String

pub record Message : Type 0 where
  pub room_id : String
  pub sender : String
  pub body : String

-- A reply of /sync: the invites by room, the joined rooms, and the events that `handle_sync` hands to
-- the handlers, those to the device as they came. An absent `next_batch` is the empty text.
pub record SyncData : Type 0 where
  pub next_batch : String
  pub invite : Dict (List InviteEvent)
  pub join : List String
  pub to_device : List String
  pub messages : List Message

pub data Call : Type 0 where
  sync_call : Option String → Bool → Call
  join_call : String → Call
  send_call : String → String → Call
  download_call : String → String → Call

-- The requests (newest first), the two tables of `_StateStore`, the cursor of the sync store, and the
-- sessions that bundles put into the crypto store (newest first).
pub record Bot : Type 0 where
  pub calls : List Call
  pub inviters : Dict String
  pub joined : List String
  pub cursor : Option String
  pub groups : List Group

-- The identity of the bot, and what is outside the program. `none` of `parse_bundle`: the entry
-- `room_keys` of the parsed text is no list.
pub record Client : Type 0 where
  pub mxid : String
  pub sync : List Call → Option String → Outcome (Option SyncData)
  pub join_error : List Call → String → Option Exn
  pub send_error : List Call → String → Option Exn
  pub media : List Call → String → String → Outcome (ℕ × String)
  pub decrypt_attachment : String → String → String → String → Outcome String
  pub parse_bundle : String → Outcome (Option (List Item))
  pub import_session : String → String → String → String → Outcome String
  pub put_error : Group → Option Exn
  pub decrypt_olm_event : List Call → String → Outcome Decrypted
