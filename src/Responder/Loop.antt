-- ===== src/Responder/Loop.antt =====
-- The handlers of the responder, one round of its loop, and `main`.
use shape_rotator_matrix.Base.{
  ℕ, zero, suc, String, Bool, true, false, not, ◌&&◌, Option, none, some, List, [], ◌∷◌, ◌==◌,
  if◌then◌else◌,
}
use shape_rotator_matrix.Text.{is_empty, is_space, strip, concat}
use shape_rotator_matrix.Dict.{Dict, set, keys}
use shape_rotator_matrix.Exec.{
  Stmt, skip, modify, gets, try_except, ◌>>=◌, ◌>>◌, from_outcome, from_error, on_option, when,
}
use shape_rotator_matrix.Responder.Data.{
  Kind, room_key_bundle, room_key, forwarded_room_key, other, Decrypted, InviteEvent, Message,
  SyncData, sync_call, join_call, send_call, Bot, Client,
}
use shape_rotator_matrix.Responder.Bundle.{break_at, import_room_key_bundle}

-- The event invites the bot.
unfoldable pub is_invite : String → InviteEvent → Bool
is_invite mxid ev = ev.kind == "m.room.member" && ev.state_key == mxid && ev.membership == "invite"

-- The sender of the first invite that has one.
unfoldable pub inviter_in : String → List InviteEvent → Option String
unfolding is_invite
inviter_in mxid [] = none
inviter_in mxid (ev ∷ evs) =
    let rest = inviter_in mxid evs in
    if is_invite mxid ev && not (is_empty ev.sender) then some ev.sender else rest

-- The table of `_remember_inviters` after one room.
abbrev pub with_inviter : String → Option String → Dict String → Dict String
with_inviter room none d = d
with_inviter room (some u) d = set room u d

unfoldable pub remember_inviters : String → Dict (List InviteEvent) → Dict String → Dict String
unfolding inviter_in
remember_inviters mxid [] d = d
remember_inviters mxid ((room, evs) ∷ rooms) d =
    remember_inviters mxid rooms (with_inviter room (inviter_in mxid evs) d)

-- `COMMANDS`
unfoldable pub command_reply : String → String → Option String
unfolding concat
command_reply mxid cmd =
    if cmd == "!ping"
    then some "pong"
    else if cmd == "!whoami"
    then some (concat "I am " mxid)
    else if cmd == "!help"
    then some "commands: !help, !ping, !whoami"
    else none

-- `body.strip().split()[0]`, or the empty text
unfoldable pub command_of : String → String
unfolding strip break_at is_space
command_of body = (break_at is_space (strip body)).0

-- The client logs what a handler raises.
abbrev pub logged : Stmt Bot → Stmt Bot
logged m = try_except m (λ x. skip)

module _ (cl : Client) where
  -- `on_encrypted`; the standard events go to the client's own handlers
  abbrev pub by_kind : Decrypted → Kind → Stmt Bot
  by_kind ev room_key_bundle = do import_room_key_bundle cl ev; skip
  by_kind ev room_key = skip
  by_kind ev forwarded_room_key = skip
  by_kind ev other = skip

  unfoldable pub on_encrypted : String → Stmt Bot
  on_encrypted raw = do
    reply ← gets (λ b. cl.decrypt_olm_event b.calls raw)
    ev ← from_outcome reply
    by_kind ev ev.kind

  -- `client.send_message_event`
  unfoldable pub send_text : String → String → Stmt Bot
  send_text room text = do
    error ← gets (λ b. cl.send_error b.calls room)
    modify (λ b. record b { calls = send_call room text ∷ b.calls })
    from_error error

  unfoldable pub on_msg : Message → Stmt Bot
  unfolding command_of command_reply
  on_msg msg =
      if msg.sender == cl.mxid
      then skip
      else on_option (command_reply cl.mxid (command_of msg.body)) skip (send_text msg.room_id)

  -- `handle_sync`: each event goes to its handler.
  unfoldable pub handle_encrypted : List String → Stmt Bot
  handle_encrypted [] = skip
  handle_encrypted (raw ∷ raws) = do logged (on_encrypted raw); handle_encrypted raws

  unfoldable pub handle_messages : List Message → Stmt Bot
  handle_messages [] = skip
  handle_messages (msg ∷ msgs) = do logged (on_msg msg); handle_messages msgs

  unfoldable pub join_room : String → Stmt Bot
  join_room room = do
    error ← gets (λ b. cl.join_error b.calls room)
    modify (λ b. record b { calls = join_call room ∷ b.calls })
    from_error error

  unfoldable pub join_rooms : List String → Stmt Bot
  join_rooms [] = skip
  join_rooms (room ∷ rooms) = do logged (join_room room); join_rooms rooms

  -- `sync_once` after a reply that is a `dict`.
  unfoldable pub take_sync : SyncData → Stmt Bot
  unfolding remember_inviters
  take_sync data' = do
    when (not (is_empty data'.next_batch))
        (modify (λ b. record b { cursor = some data'.next_batch }))
    modify (λ b. record b { inviters = remember_inviters cl.mxid data'.invite b.inviters })
    modify (λ b. record b { joined = data'.join })
    handle_encrypted data'.to_device
    handle_messages data'.messages
    join_rooms (keys data'.invite)

  unfoldable pub sync_once : Bool → Stmt Bot
  sync_once first = do
    since ← gets (λ b. if first then none else b.cursor)
    reply ← gets (λ b. cl.sync b.calls since)
    modify (λ b. record b { calls = sync_call since first ∷ b.calls })
    data' ← from_outcome reply
    on_option data' skip take_sync

  -- The endless loop, `n` rounds of it.
  unfoldable pub rounds : ℕ → Stmt Bot
  rounds zero = skip
  rounds (suc n) = do logged (sync_once false); rounds n

  -- `main` once the client is set up, with `DM_ROOM` and `INTRO`
  unfoldable pub main : String → String → ℕ → Stmt Bot
  main dm_room intro n = do
    sync_once true
    when (not (is_empty dm_room) && not (is_empty intro)) (send_text dm_room intro)
    rounds n
