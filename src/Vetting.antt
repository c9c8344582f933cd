-- ===== src/Vetting.antt =====
-- Vetting rooms of knock-approver/approver.py: `iter_vetting_rooms`, `process_vetting_room` and
-- `cleanup_stale_vetting`, with the part of `sync_loop` that drives them.
pub mod Invitation
pub mod Judgement
pub mod Cleanup
pub mod Files
pub mod Sizes
use shape_rotator_matrix.Base.{
  ℕ, suc, ◌+◌, ◌-◌, eqb, String, Bool, true, false, not, ◌&&◌, ◌||◌, Option, none, some, List, [],
  ◌∷◌, ◌++◌, ◌==◌, leb, ltb, if◌then◌else◌,
}
use shape_rotator_matrix.Text.{is_empty}
use shape_rotator_matrix.Dict.{Dict, lookup, set}
use shape_rotator_matrix.Exec.{
  Exn, Outcome, Exec, Stmt, pure, gets, skip, try_except, ◌>>=◌, ◌>>◌, when,
}
use shape_rotator_matrix.World.{
  Vetting, Notice, main_bot, invite, Request, Reply, answer, failed, Audit, World, Env, request,
  send_msg, save_vetting, audit, clock,
}
use shape_rotator_matrix.Haiku.{Verdict, passed, because, vet, haiku_lines}
use shape_rotator_matrix.Sync.{Event, RoomSync, Joined}
use shape_rotator_matrix.Welcome.{invite_to_children, mint_welcome_signup_code}

-- The last join event of the user among the events, if any.
last_join : String → Option Event → List Event → Option Event
last_join mxid found [] = found
last_join mxid found (ev ∷ evs) =
    last_join mxid
      (if ev.kind == "m.room.member" && ev.state_key == mxid && ev.membership == "join"
        then some ev
        else found)
      evs

-- The messages of the user.
messages_of : String → List Event → List Event
messages_of mxid [] = []
messages_of mxid (ev ∷ evs) =
    let rest = messages_of mxid evs in
    if ev.kind == "m.room.message" && ev.sender == mxid then ev ∷ rest else rest

pub record RoomWork : Type 0 where
  pub room : String
  pub meta : Vetting
  pub join_ev : Option Event
  pub msgs : List Event

abbrev room_work : String → RoomSync → Vetting → RoomWork
room_work room rd meta = record {
  room = room;
  meta = meta;
  join_ev = last_join meta.mxid none (rd.state ++ rd.timeline);
  msgs = messages_of meta.mxid rd.timeline;
}

unfoldable pub is_open : Vetting → Bool
is_open meta = not (meta.promoted || meta.closed)

add_work : String → RoomSync → Option Vetting → List RoomWork → List RoomWork
unfolding is_open last_join messages_of
add_work room rd none rest = rest
add_work room rd (some meta) rest = if is_open meta then room_work room rd meta ∷ rest else rest

-- `iter_vetting_rooms`
unfoldable pub iter_vetting_rooms : Joined → Dict Vetting → List RoomWork
unfolding add_work
iter_vetting_rooms [] state = []
iter_vetting_rooms ((room, rd) ∷ rooms) state =
    add_work room rd (lookup room state) (iter_vetting_rooms rooms state)

-- the status of `_promote`: 200, or that of the exception
abbrev status_of : Reply → ℕ
status_of (answer status text) = 200
status_of (failed x) = x.http_status

-- `_leave`: an exception is only printed
unfoldable pub leave_room : Env → String → Stmt World
leave_room e room = do request e (Request.leave main_bot room); skip

-- The branch of an accepted haiku where the invitation to the space succeeded.
unfoldable pub grant : Env → String → Vetting → String → Exec World Vetting
unfolding haiku_lines
grant e room meta text = do
  now ← clock e
  children ← invite_to_children e meta.mxid
  signup_url ← mint_welcome_signup_code e meta.mxid
  send_msg e room (Notice.welcome false signup_url)
  when (not (is_empty e.feed_room)) (
      send_msg e e.feed_room
        (Notice.joined_feed meta.displayname meta.mxid meta.title meta.keyword (haiku_lines text)))
  audit (Audit.promoted meta.mxid text signup_url)
  pure (record meta { promoted = true; promoted_at = now; invited_children = children })

-- `_promote` and its two outcomes
unfoldable pub promote : Env → String → Vetting → String → Exec World Vetting
promote e room meta text = do
  reply ← request e (invite main_bot e.space_id meta.mxid)
  if eqb (status_of reply) 200
      then grant e room meta text
      else do audit (Audit.promote_failed meta.mxid (status_of reply)); pure meta

-- The last try has failed.
unfoldable pub close_exhausted : Env → String → Vetting → Exec World Vetting
close_exhausted e room meta = do
  send_msg e room (Notice.out_of_tries meta.mxid)
  leave_room e room
  audit (Audit.vetting_failed meta.mxid room)
  pure (record meta { closed = true; closed_reason = some "tries_exhausted" })

abbrev spend_try : Vetting → Vetting
spend_try meta = record meta { tries_left = meta.tries_left - 1 }

-- The body of the loop over messages, given the verdict and how the loop goes on.
vet_message :
    Env → String → Vetting → String → (Vetting → Exec World Vetting) → Verdict → Exec World Vetting
vet_message e room meta text go_on passed = promote e room meta text
vet_message e room meta text go_on (because why) =
    let meta' = spend_try meta in
    if leb meta'.tries_left 0
    then close_exhausted e room meta'
    else do send_msg e room (Notice.not_yet meta.mxid why meta'.tries_left); go_on meta'

vet_messages : Env → String → Vetting → List Event → Exec World Vetting
unfolding vet_message vet
vet_messages e room meta [] = pure meta
vet_messages e room meta (msg ∷ msgs) =
    vet_message e room meta msg.body (λ m. vet_messages e room m msgs)
      (vet e.lower meta.displayname msg.body meta.keyword)

abbrev note_join : Option Event → Vetting → Vetting
note_join none meta = meta
note_join (some ev) meta = record meta { displayname = ev.displayname }

abbrev changed_by_join : Option Event → Vetting → Option Vetting
changed_by_join none meta = none
changed_by_join (some ev) meta = some meta

-- `process_vetting_room`: the new entry, or `none` where nothing happened
unfoldable pub process_vetting_room :
    Env → String → Vetting → Option Event → List Event → Exec World (Option Vetting)
unfolding vet_messages
process_vetting_room e room meta join_ev [] =
    pure (changed_by_join join_ev (note_join join_ev meta))
process_vetting_room e room meta join_ev (msg ∷ msgs) = do
  meta' ← vet_messages e room (note_join join_ev meta) (msg ∷ msgs)
  pure (some meta')

-- `now - meta["created"] > VETTING_TIMEOUT`
unfoldable pub is_stale : Env → ℕ → Vetting → Bool
unfolding is_open
is_stale e now meta = is_open meta && ltb (meta.created + e.vetting_timeout) now

abbrev pub timed_out : Vetting → Vetting
timed_out meta = record meta { closed = true; closed_reason = some "timeout" }

-- the loop of `cleanup_stale_vetting`: the table, and whether it changed
cleanup_loop : Env → ℕ → Dict Vetting → Exec World (Dict Vetting × Bool)
unfolding is_stale
cleanup_loop e now [] = pure ([], false)
cleanup_loop e now ((vroom, meta) ∷ rooms) =
    if is_stale e now meta
    then (do
      leave_room e vroom
      audit (Audit.vetting_timeout meta.mxid vroom)
      (rest, dirty) ← cleanup_loop e now rooms
      pure ((vroom, timed_out meta) ∷ rest, true))
    else (do (rest, dirty) ← cleanup_loop e now rooms; pure ((vroom, meta) ∷ rest, dirty))

unfoldable pub cleanup_stale_vetting : Env → Dict Vetting → Exec World (Dict Vetting × Bool)
unfolding cleanup_loop
cleanup_stale_vetting e state = do now ← clock e; cleanup_loop e now state

abbrev put_update : String → Option Vetting → Dict Vetting × Bool → Dict Vetting × Bool
put_update room none (state, dirty) = (state, dirty)
put_update room (some meta) (state, dirty) = (set room meta state, true)

pub process_rooms : Env → List RoomWork → Dict Vetting × Bool → Exec World (Dict Vetting × Bool)
process_rooms e [] state = pure state
process_rooms e (r ∷ rs) state = do
  updated ← process_vetting_room e r.room r.meta r.join_ev r.msgs
  process_rooms e rs (put_update r.room updated state)

-- The vetting part of one round of `sync_loop`.
unfoldable pub vetting_round : Env → Joined → Stmt World
unfolding process_rooms iter_vetting_rooms
vetting_round e rooms = do
  state ← gets (λ w. w.vetting)
  (state', dirty) ← process_rooms e (iter_vetting_rooms rooms state) (state, false)
  (state'', dirty') ← cleanup_stale_vetting e state'
  when (dirty || dirty') (save_vetting state'')
