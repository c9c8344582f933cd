-- ===== src/Knock.antt =====
-- `handle_knock` and `iter_knock_events` of knock-approver/approver.py: a knock whose reason is a
-- live code opens a vetting room for the knocker.
pub mod Admission
use shape_rotator_matrix.Base.{
  ℕ, String, Bool, true, false, not, ◌&&◌, Option, none, some, List, [], ◌∷◌, ◌++◌, ◌==◌,
  if◌then◌else◌,
}
use shape_rotator_matrix.Text.{strip, is_empty}
use shape_rotator_matrix.Dict.{Dict, set}
use shape_rotator_matrix.Exec.{Exn, Exec, Stmt, pure, raise, gets, skip, ◌>>=◌, ◌>>◌}
use shape_rotator_matrix.World.{
  CodeEntry, Vetting, Notice, main_bot, Request, Reply, answer, failed, Audit, World, Env, request,
  send_msg, save_codes, save_vetting, audit, clock,
}
use shape_rotator_matrix.Haiku.{fetch_wiki_challenge}
use shape_rotator_matrix.Codes.{is_dead, spend}
use shape_rotator_matrix.Sync.{Event, RoomSync, Joined, before_colon}

-- The knocks of one room's events: the user and the reason.
knocks : List Event → List (String × String)
knocks [] = []
knocks (ev ∷ evs) =
    let rest = knocks evs in
    if ev.kind == "m.room.member" && ev.membership == "knock"
    then (ev.state_key, ev.reason) ∷ rest
    else rest

tag_room : String → List (String × String) → List (String × String × String)
tag_room room [] = []
tag_room room ((user, reason) ∷ ks) = (room, user, reason) ∷ tag_room room ks

-- `iter_knock_events`
unfoldable pub iter_knock_events : String → Joined → List (String × String × String)
unfolding knocks tag_room before_colon
iter_knock_events space [] = []
iter_knock_events space ((room, rd) ∷ rooms) =
    let rest = iter_knock_events space rooms in
    if before_colon room == before_colon space
    then tag_room room (knocks rd.timeline ++ knocks rd.state) ++ rest
    else rest

-- the room id of a reply, or the empty text with the error
abbrev room_of : Reply → String × Option Exn
room_of (answer status room) = (room, none)
room_of (failed x) = ("", some x)

-- `_create_vetting_room`
unfoldable pub create_vetting_room : Env → String → Exec World (String × Option Exn)
create_vetting_room e mxid = do
  reply ← request e (Request.create_vetting_room mxid)
  pure (room_of reply)

-- `err[:200]` of an error that is None raises a TypeError
abbrev print_error : Option Exn → Stmt World
print_error none =
    raise (record { http_status = 500; text = "'NoneType' object is not subscriptable" })
print_error (some x) = skip

unfoldable pub new_vetting : Env → String → String → String → String → ℕ → Vetting
new_vetting e user code title keyword now = record {
  mxid = user;
  code = code;
  created = now;
  title = title;
  keyword = keyword;
  displayname = "";
  tries_left = e.vetting_max_tries;
  promoted = false;
  promoted_at = 0;
  invited_children = [];
  closed = false;
  closed_reason = none;
}

-- The part of `handle_knock` below the room's creation; `codes` is the table that was loaded first.
unfoldable pub admit_knock :
    Env → Dict CodeEntry → String → String → String → String → String → Stmt World
unfolding new_vetting
admit_knock e codes code user vroom title keyword = do
  save_codes (spend code codes)
  state ← gets (λ w. w.vetting)
  now ← clock e
  save_vetting (set vroom (new_vetting e user code title keyword now) state)
  send_msg e vroom (Notice.challenge user title keyword e.vetting_max_tries)
  audit (Audit.vetting_room_created user code vroom)

unfoldable pub handle_knock : Env → String → String → String → Stmt World
unfolding is_dead strip
handle_knock e room user reason = do
  let code = strip reason
  codes ← gets (λ w. w.codes)
  if is_dead code codes then audit (Audit.knock_rejected user reason) else do
    (title, keyword) ← fetch_wiki_challenge e
    (vroom, err) ← create_vetting_room e user
    if is_empty vroom
        then (do audit (Audit.vetting_room_failed user code); print_error err)
        else admit_knock e codes code user vroom title keyword
