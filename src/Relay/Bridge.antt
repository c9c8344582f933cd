-- ===== src/Relay/Bridge.antt =====
-- The state of the relay process, and its two ways to post.
use shape_rotator_matrix.Base.{String, Option, none, some, List, ◌∷◌}
use shape_rotator_matrix.Dict.{Dict}
use shape_rotator_matrix.Exec.{Exn, Outcome, Stmt, modify, raise, skip}
use shape_rotator_matrix.Relay.State.{State, payload}
use shape_rotator_matrix.Relay.Bodies.{TgMessage, Content, relayed}

-- A message that the relay tries to post, by the side it goes to.
pub data Post : Type 0 where
  to_matrix to_telegram : String → Post

pub record Bridge : Type 0 where
  pub state : State
  pub disk : State  -- relay-state.json
  pub cursor : Option String  -- relay_next_batch
  pub names : Dict String  -- `_mx_name_cache`
  pub posts : List Post  -- newest first, failed ones too

-- A deserialized event of the room's timeline. `encrypted` and `message` are the types that the
-- relay tells apart.
pub data Kind : Type 0 where
  encrypted message other : Kind

pub record MxEvent : Type 0 where
  pub event_id : String
  pub sender : String
  pub kind : Kind
  pub content : Option Content

-- A reply of /sync that is a dict; an event that does not deserialize is `none`.
pub record SyncData : Type 0 where
  pub next_batch : String
  pub timeline : List (Option MxEvent)

-- The identities, and the two clients: what they do may depend on all that was posted before.
pub record Clients : Type 0 where
  pub bot_mxid : String
  pub tg_me_id : String
  pub post_error : List Post → Post → Option Exn
  -- `get_sender`: `first_name` and `title`, if there is a sender
  pub get_sender : List Post → TgMessage → Outcome (Option (Option String × Option String))
  pub decrypt : List Post → MxEvent → Outcome MxEvent
  pub displayname : List Post → String → Outcome String
  pub sync : List Post → Option String → Outcome (Option SyncData)

unfoldable pub set_state : State → Stmt Bridge
set_state s = modify (λ b. record b { state = s })

-- `state.save()`
unfoldable pub save : Stmt Bridge
save = modify (λ b. record b { disk = payload b.state })

abbrev pub or_fail : Option Exn → Stmt Bridge
or_fail none = skip
or_fail (some x) = raise x

unfoldable pub send : Clients → Post → Stmt Bridge
send c p b = or_fail (c.post_error b.posts p) (record b { posts = p ∷ b.posts })

-- `mx_send_relay`
unfoldable pub mx_send_relay : Clients → String → String → Stmt Bridge
mx_send_relay c sender text = send c (to_matrix (relayed sender text))

-- `tg_send_relay`
unfoldable pub tg_send_relay : Clients → String → String → Stmt Bridge
tg_send_relay c sender text = send c (to_telegram (relayed sender text))
