-- ===== src/Mx/Host.antt =====
-- The files of the tool, and the requests of its client.
use shape_rotator_matrix.Base.{ℕ, String, Bool, Option, List}
use shape_rotator_matrix.Dict.{Dict}
use shape_rotator_matrix.Exec.{Exn, Outcome}

-- A JSON file of texts: missing, or what its parsing yields or raises. A field that is no text is
-- read as missing.
abbrev pub JsonFile : Type 0
JsonFile = Option (Outcome (Dict String))

-- The types of timeline events that `cmd_tail` tells apart.
pub data Kind : Type 0 where
  encrypted message other : Kind

-- A deserialized event; a missing time is 0, a missing body the empty text.
pub record Event : Type 0 where
  pub timestamp : ℕ
  pub sender : String
  pub kind : Kind
  pub body : String

pub record SyncData : Type 0 where
  pub next_batch : String
  pub join : List String

pub data Call : Type 0 where
  share_keys own_keys generate_recovery_key : Call
  sync_call : Option String → Bool → Call
  send_call : String → String → Call
  messages_call : String → ℕ → Call
  close_session stop_db : Call

-- What the tool prints: the event that was sent, or a row of the tail.
pub data Line : Type 0 where
  sent : String → String → Line
  row : ℕ → String → String → Line

-- The files of the store, the cursor in memory, the joined rooms, the requests (newest first), the
-- messages that got through by room and text (newest first), and the output.
pub record Host : Type 0 where
  pub creds : JsonFile
  pub fixtures : JsonFile
  pub next_batch : Option String
  pub recovery_key : Option String
  pub woke : Bool
  pub cursor : Option String
  pub joined : List String
  pub calls : List Call
  pub delivered : List (String × String)
  pub output : List Line

-- mautrix and the homeserver. `none` of `deserialize`: the event does not deserialize.
pub record Client : Type 0 where
  pub open_error : Dict String → Option Exn
  pub share_error : List Call → Option Exn
  pub has_keys : List Call → Outcome Bool
  pub generate : List Call → Outcome String
  pub sync : List Call → Option String → Outcome (Option SyncData)
  pub send : List Call → String → String → Outcome String
  pub messages : List Call → String → ℕ → Outcome (List String)
  pub deserialize : String → Option Event
  pub decrypt : Event → Outcome Event
