-- ===== src/Relay/Matrix.antt =====
-- `mx_relay_once`, with `_mx_sync` and `_mx_displayname`: new messages of the Matrix room go to
-- Telegram.
pub mod Dedup
pub mod Again
use shape_rotator_matrix.Base.{
  String, eqb, not, Bool, true, false, Option, none, some, List, [], ◌∷◌, ◌==◌, if◌then◌else◌,
}
use Prim.Native.Char.{code}
use shape_rotator_matrix.Text.{is_empty, lstrip_by}
use shape_rotator_matrix.Dict.{Dict, lookup, set}
use shape_rotator_matrix.Sync.{before_colon}
use shape_rotator_matrix.Exec.{
  Outcome, ok, raised, Exec, Stmt, pure, raise, gets, modify, skip, try_except, ◌>>=◌, ◌>>◌, when,
}
use shape_rotator_matrix.Relay.State.{State, mark_mx}
use shape_rotator_matrix.Relay.Bodies.{Content, mx_body}
use shape_rotator_matrix.Relay.Bridge.{
  Post, Bridge, Kind, encrypted, message, other, MxEvent, SyncData, Clients, set_state, save,
  tg_send_relay,
}

-- `state.mark_mx(event_id)` as a statement
unfoldable pub mark : String → Exec Bridge Bool
mark event_id = do
  state ← gets (λ b. b.state)
  let (seen, state') = mark_mx event_id state
  set_state state'
  pure seen

-- `user_id.split(":")[0].lstrip("@") or user_id`
unfoldable pub localpart : String → String
unfolding lstrip_by before_colon
localpart user_id =
    let name = lstrip_by (λ ch. eqb (code ch) b'@') (before_colon user_id) in
    if is_empty name then user_id else name

-- The name that the profile request yields: an error or an empty name leaves the local part.
abbrev name_from : String → Outcome String → String
name_from user_id (raised x) = localpart user_id
name_from user_id (ok dn) = if is_empty dn then localpart user_id else dn

abbrev cached : Clients → String → Option String → Exec Bridge String
cached c user_id (some name) = pure name
cached c user_id none = do
  name ← gets (λ b. name_from user_id (c.displayname b.posts user_id))
  modify (λ b. record b { names = set user_id name b.names })
  pure name

-- `_mx_displayname`
unfoldable pub mx_displayname : Clients → String → Exec Bridge String
mx_displayname c user_id = do found ← gets (λ b. lookup user_id b.names); cached c user_id found

-- The end of the loop's body; a failed send is only logged.
abbrev forward : Clients → MxEvent → Option String → Stmt Bridge
forward c ev none = skip
forward c ev (some body) = do
  name ← mx_displayname c ev.sender
  sent ← try_except (do tg_send_relay c name body; pure true) (λ x. pure false)
  when sent save

abbrev is_message : Kind → Bool
is_message encrypted = false
is_message message = true
is_message other = false

-- From the decrypted event on; `ev` is the event as it came.
unfoldable pub relay_plain : Clients → MxEvent → MxEvent → Stmt Bridge
relay_plain c ev plain =
    if is_message plain.kind
    then (do seen ← mark ev.event_id; if seen then skip else forward c ev (mx_body plain.content))
    else (do mark ev.event_id; skip)

abbrev after_decrypt : Clients → MxEvent → Outcome MxEvent → Stmt Bridge
after_decrypt c ev (ok plain) = relay_plain c ev plain
after_decrypt c ev (raised x) = do mark ev.event_id; save

abbrev open_event : Clients → MxEvent → List Post → Kind → Outcome MxEvent
open_event c ev posts encrypted = c.decrypt posts ev
open_event c ev posts message = ok ev
open_event c ev posts other = ok ev

-- The body of the loop.
unfoldable pub relay_event : Clients → Option MxEvent → Stmt Bridge
relay_event c none = skip
relay_event c (some ev) =
    if is_empty ev.event_id
    then skip
    else if ev.sender == c.bot_mxid
    then (do mark ev.event_id; skip)
    else (do opened ← gets (λ b. open_event c ev b.posts ev.kind); after_decrypt c ev opened)

unfoldable pub relay_events : Clients → List (Option MxEvent) → Stmt Bridge
relay_events c [] = skip
relay_events c (ev ∷ evs) = do relay_event c ev; relay_events c evs

abbrev take_data : Option SyncData → Exec Bridge (List (Option MxEvent))
take_data none = pure []
take_data (some d) = do
  when (not (is_empty d.next_batch)) (modify (λ b. record b { cursor = some d.next_batch }))
  pure d.timeline

abbrev or_raise : Outcome (Option SyncData) → Exec Bridge (Option SyncData)
or_raise (ok d) = pure d
or_raise (raised x) = raise x

-- `_mx_sync`, as far as the cursor and the timeline go
unfoldable pub mx_sync : Clients → Exec Bridge (List (Option MxEvent))
mx_sync c = do reply ← gets (λ b. c.sync b.posts b.cursor); data' ← or_raise reply; take_data data'

-- `mx_relay_once`
unfoldable pub mx_relay_once : Clients → Stmt Bridge
mx_relay_once c = do timeline ← mx_sync c; relay_events c timeline; save
