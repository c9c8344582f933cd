-- ===== src/Round.antt =====
-- One round of `sync_loop`, after the /sync reply was taken in: knocks, vetting rooms, notices to the
-- operators, and the admin commands that `on_room_message` queued.
pub mod Uses
use Prim.Native.Char.{code}
use shape_rotator_matrix.Base.{
  String, Bool, true, false, ◌||◌, not, List, [], ◌∷◌, ◌==◌, if◌then◌else◌,
}
use shape_rotator_matrix.Text.{strip, is_prefix_of}
use shape_rotator_matrix.Exec.{Exec, Stmt, skip, try_except, ◌>>=◌, ◌>>◌}
use shape_rotator_matrix.World.{World, Env}
use shape_rotator_matrix.Sync.{Joined}
use shape_rotator_matrix.Knock.{iter_knock_events, handle_knock}
use shape_rotator_matrix.Vetting.{vetting_round}
use shape_rotator_matrix.Announce.{announce_lobby_events}
use shape_rotator_matrix.Admin.Dispatch.{process_admin_command}

-- A decrypted message event.
pub record Chat : Type 0 where
  pub room : String
  pub sender : String
  pub body : String

-- `on_room_message`: the commands that the messages put into the queue, as sender and body.
unfoldable pub queued : Env → List Chat → List (String × String)
unfolding strip is_prefix_of
queued e [] = []
queued e (chat ∷ chats) =
    let rest = queued e chats in
    if not (chat.room == e.admin_command_room)
      || chat.sender == e.our_mxid
      || not (is_prefix_of "!" (strip chat.body))
    then rest
    else (chat.sender, strip chat.body) ∷ rest

unfoldable pub handle_knocks : Env → List (String × String × String) → Stmt World
handle_knocks e [] = skip
handle_knocks e ((room, user, reason) ∷ knocks) = do
  handle_knock e room user reason
  handle_knocks e knocks

unfoldable pub drain : Env → List (String × String) → Stmt World
drain e [] = skip
drain e ((sender, body) ∷ commands) = do
  process_admin_command e e.admin_command_room sender body
  drain e commands

unfoldable pub sync_round : Env → Joined → List Chat → Stmt World
sync_round e rooms chats = do
  handle_knocks e (iter_knock_events e.space_id rooms)
  vetting_round e rooms
  try_except (announce_lobby_events e) (λ x. skip)
  drain e (queued e chats)
