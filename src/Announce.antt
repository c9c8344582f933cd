-- ===== src/Announce.antt =====
-- `announce_lobby_events` of knock-approver/approver.py: the main bot tells the operators which
-- users started the lobby and which lobby rooms failed.
pub mod Told
pub mod Once
pub mod Files
use shape_rotator_matrix.Base.{
  String, Bool, true, false, not, ◌&&◌, ◌||◌, Option, none, some, List, [], ◌∷◌, ◌++◌, ◌==◌, elem,
  if◌then◌else◌,
}
use shape_rotator_matrix.Text.{is_empty}
use shape_rotator_matrix.Dict.{Dict, lookup, set, has, get_or}
use shape_rotator_matrix.Exec.{Exec, Stmt, pure, gets, modify, skip, ◌>>=◌, ◌>>◌, when}
use shape_rotator_matrix.World.{Lobby, Seen, Notice, World, Env, send_msg}

-- `closed_reason not in (None, "promoted", "already_member")`
abbrev is_failure : Option String → Bool
is_failure none = false
is_failure (some why) = not (why == "promoted" || why == "already_member")

unfoldable pub failed_now : Lobby → Bool
failed_now meta = meta.closed && is_failure meta.closed_reason

-- The record of a room all of whose events count as announced.
unfoldable pub seen_of : Lobby → Seen
unfolding failed_now
seen_of meta = record { started = meta.challenged; failed = failed_now meta }

abbrev pub unseen : Seen
unseen = record { started = []; failed = false }

-- The first run: everything counts as announced.
unfoldable pub seed : Dict Lobby → Dict Seen → Dict Seen
unfolding seen_of
seed [] seen = seen
seed ((room, meta) ∷ rooms) seen = seed rooms (set room (seen_of meta) seen)

abbrev pub note_started : String → Seen → Seen
note_started mxid r = record r { started = r.started ++ mxid ∷ [] }

-- The loop over the challenged users: the record, and whether it changed.
unfoldable pub announce_users : Env → Lobby → List String → Seen → Exec World (Seen × Bool)
announce_users e meta [] r = pure (r, false)
announce_users e meta (mxid ∷ users) r =
    if elem mxid r.started then announce_users e meta users r else do
      send_msg e e.operator_notify_room
          (Notice.lobby_started (get_or "" (lookup mxid meta.displaynames)) mxid meta.code)
      (r', dirty) ← announce_users e meta users (note_started mxid r)
      pure (r', true)

abbrev no_users : List String → Bool
no_users [] = true
no_users (mxid ∷ users) = false

abbrev is_timeout : Option String → Bool
is_timeout none = false
is_timeout (some why) = why == "timeout"

-- The notice of a failure, which a room without users that timed out does not get.
unfoldable pub announce_failure : Env → Lobby → Seen → Exec World (Seen × Bool)
unfolding failed_now
announce_failure e meta r =
    if failed_now meta && not r.failed
    then (do
      when (not (is_timeout meta.closed_reason && no_users meta.challenged)) (
          send_msg e e.operator_notify_room
            (Notice.lobby_failed meta.challenged meta.closed_reason meta.code))
      pure (record r { failed = true }, true))
    else pure (r, false)

-- `seen.get(room, {"started": [], "failed": False})`
abbrev pub record_of : String → Dict Seen → Seen
record_of room seen = get_or unseen (lookup room seen)

-- The body of the loop over rooms.
unfoldable pub announce_room : Env → String → Lobby → Dict Seen → Exec World (Dict Seen × Bool)
unfolding seen_of
announce_room e room meta seen =
    if not (has room seen) && meta.closed then pure (set room (seen_of meta) seen, true) else do
      (r1, dirty) ← announce_users e meta meta.challenged (record_of room seen)
      (r2, dirty') ← announce_failure e meta r1
      pure (set room r2 seen, dirty || dirty')

unfoldable pub announce_rooms : Env → Dict Lobby → Dict Seen → Exec World (Dict Seen × Bool)
announce_rooms e [] seen = pure (seen, false)
announce_rooms e ((room, meta) ∷ rooms) seen = do
  (seen', dirty) ← announce_room e room meta seen
  (seen'', dirty') ← announce_rooms e rooms seen'
  pure (seen'', dirty || dirty')

-- The last loop: records of rooms that are gone are dropped.
unfoldable pub drop_gone : Dict Lobby → Dict Seen → Dict Seen × Bool
drop_gone lobby [] = ([], false)
drop_gone lobby ((room, r) ∷ seen) =
    let (rest, dirty) = drop_gone lobby seen in
    if has room lobby then ((room, r) ∷ rest, dirty) else (rest, true)

unfoldable pub save_announced : Dict Seen → Stmt World
save_announced seen = modify (λ w. record w { announced = some seen })

-- From the loaded table to the saved one.
unfoldable pub announce_table : Env → Dict Lobby → Dict Seen → Exec World (Dict Seen × Bool)
unfolding drop_gone
announce_table e lobby seen = do
  (seen', dirty) ← announce_rooms e lobby seen
  let (kept, dropped) = drop_gone lobby seen'
  pure (kept, dirty || dropped)

abbrev announce_with : Env → Dict Lobby → Option (Dict Seen) → Stmt World
announce_with e lobby none = save_announced (seed lobby [])
announce_with e lobby (some seen) = do
  (seen', dirty) ← announce_table e lobby seen
  when dirty (save_announced seen')

abbrev no_rooms : Dict Lobby → Bool
no_rooms [] = true
no_rooms (r ∷ rooms) = false

unfoldable pub announce_lobby_events : Env → Stmt World
unfolding seed
announce_lobby_events e = if is_empty e.operator_notify_room then skip else do
  lobby ← gets (λ w. w.lobby)
  file ← gets (λ w. w.announced)
  if no_rooms lobby then skip else announce_with e lobby file
