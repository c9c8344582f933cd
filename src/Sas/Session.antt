-- ===== src/Sas/Session.antt =====
-- `class _SASSession`: the data of a verification, and the steps before the exchange of MACs.
use shape_rotator_matrix.Base.{
  ℕ, String, Bool, true, Option, none, some, List, ◌∷◌, ◌==◌, if◌then◌else◌,
}
use shape_rotator_matrix.Text.{concat}
use shape_rotator_matrix.Dict.{Dict, lookup, set, delete}
use shape_rotator_matrix.Exec.{Exn, Outcome, Stmt, modify, gets, ◌>>=◌, ◌>>◌, from_error}

-- A value of an event's content: a text, an object of texts, or anything else by its JSON text.
pub data Field : Type 0 where
  str : String → Field
  obj : Dict String → Field
  raw : String → Field

abbrev pub Content : Type 0
Content = Dict Field

-- `content.get(k, "")`
abbrev text_of : Option Field → String
text_of none = ""
text_of (some (str s)) = s
text_of (some (obj d)) = ""
text_of (some (raw s)) = ""

unfoldable pub text_at : String → Content → String
text_at k c = text_of (lookup k c)

pub data Trust : Type 0 where
  unverified verified other_trust : Trust

-- `DeviceIdentity`, of one user's device
pub record Device : Type 0 where
  pub identity_key : String
  pub signing_key : String
  pub trust : Trust
  pub deleted : Bool
  pub name : String

-- An entry of the reply of /keys/query.
pub record DeviceInfo : Type 0 where
  pub keys : Option (Dict String)
  pub display_name : String

pub record Session : Type 0 where
  pub txn_id : String
  pub their_user : String
  pub their_device : String
  pub our_user : String
  pub our_device : String
  pub sas : ℕ  -- which of the `olm.Sas` objects it owns
  pub their_key : Option String  -- what that object was told of the other side
  pub start_event : Option Content
  pub cancelled : Bool

-- The messages, by what varies in their contents.
pub data Message : Type 0 where
  ready : String → Message
  accept : String → Message
  share_key : String → Message
  send_macs : Dict String → String → Message
  done : Message
  cancel_code : String → Message

-- A to-device message that the code tries to send.
pub record Sent : Type 0 where
  pub user : String
  pub device : String
  pub txn : String
  pub body : Message

-- The state: the table of sessions, the crypto store, the messages (newest first), and the number of
-- `olm.Sas` objects made.
pub record Manager (D : Type 0) : Type 0 where
  pub sessions : Dict Session
  pub store : D
  pub sent : List Sent
  pub made : ℕ

-- The identity of the bot, and what is outside the program: olm, the crypto store, the homeserver.
-- The n-th `olm.Sas` object is known by `n`.
pub record Client (D : Type 0) : Type 0 where
  pub our_user : String
  pub our_device : String
  pub signing_key : String
  pub pubkey : ℕ → String
  pub key_error : ℕ → String → Option Exn
  pub calculate_mac : ℕ → Option String → String → String → Outcome String
  pub sha256_base64 : String → String
  pub canonical_json : Content → String
  pub get_device : String → String → D → Option Device
  pub put_devices : String → Dict Device → D → D
  pub send_error : List Sent → Sent → Option Exn
  pub query_device : List Sent → String → String → Outcome (Option DeviceInfo)

unfoldable pub message_to : Session → Message → Sent
message_to s m = record { user = s.their_user; device = s.their_device; txn = s.txn_id; body = m }

module _ {D : Type 0} where
  -- The session object as it is after a change of its fields.
  unfoldable pub keep_session : Session → Stmt (Manager D)
  keep_session s = modify (λ w. record w { sessions = set s.txn_id s w.sessions })

  -- `_send`
  unfoldable pub send_to : Client D → Session → Message → Stmt (Manager D)
  unfolding message_to
  send_to e s m = do
    let p = message_to s m
    error ← gets (λ w. e.send_error w.sent p)
    modify (λ w. record w { sent = p ∷ w.sent })
    from_error error

  -- `_cancel`
  unfoldable pub cancel : Client D → Session → String → Stmt (Manager D)
  cancel e s why = do keep_session (record s { cancelled = true }); send_to e s (cancel_code why)

  unfoldable pub handle_request : Client D → Session → Stmt (Manager D)
  handle_request e s = send_to e s (ready s.our_device)

  -- The commitment of the accept message.
  unfoldable pub commitment : Client D → Session → Content → String
  unfolding concat
  commitment e s c =
      e.sha256_base64 (concat (e.pubkey s.sas) (e.canonical_json (delete "transaction_id" c)))

  unfoldable pub handle_start : Client D → Session → Content → Stmt (Manager D)
  handle_start e s c =
      if text_at "method" c == "m.sas.v1"
      then (do
        keep_session (record s { start_event = some c })
        send_to e s (accept (commitment e s c)))
      else cancel e s "m.unknown_method"
