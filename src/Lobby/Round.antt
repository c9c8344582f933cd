-- ===== src/Lobby/Round.antt =====
-- One round of `lobby_sync_loop`, after the /sync reply: pending invitations are accepted, the table
-- of lobby rooms is loaded, processed, and saved if anything changed.
pub mod Loss
pub mod Files
pub mod Sizes
use shape_rotator_matrix.Base.{String, Bool, true, false, ◌||◌, List, [], ◌∷◌, if◌then◌else◌}
use shape_rotator_matrix.Dict.{Dict, set}
use shape_rotator_matrix.Exec.{Exec, Stmt, pure, gets, skip, ◌>>=◌, ◌>>◌, when}
use shape_rotator_matrix.World.{Lobby, join_room, lobby_bot, World, Env, request, save_lobby}
use shape_rotator_matrix.Sync.{Joined}
use shape_rotator_matrix.Lobby.Rooms.{LobbyWork, iter_lobby_rooms}
use shape_rotator_matrix.Lobby.Process.{process_lobby_room}
use shape_rotator_matrix.Lobby.Resend.{process_lobby_resends}
use shape_rotator_matrix.Lobby.Sweep.{cleanup_stale_lobby}

-- `_lobby_accept_pending_invites`: a failure is only printed
unfoldable pub accept_pending_invites : Env → List String → Stmt World
accept_pending_invites e [] = skip
accept_pending_invites e (room ∷ rooms) = do
  request e (join_room lobby_bot room)
  accept_pending_invites e rooms

unfoldable pub process_rooms :
    Env → String → List LobbyWork → Dict Lobby → Bool → Exec World (Dict Lobby × Bool)
process_rooms e self [] state dirty = pure (state, dirty)
process_rooms e self (r ∷ rs) state dirty = do
  updated ← process_lobby_room e self r.room r.meta r.new_joins r.msgs
  process_rooms e self rs (set r.room updated state) true

-- From the loaded table to the table to save, with the flag `l_dirty`.
unfoldable pub process_table : Env → String → Joined → Dict Lobby → Exec World (Dict Lobby × Bool)
process_table e self rooms state = do
  (state', dirty) ← process_rooms e self (iter_lobby_rooms self rooms state) state false
  (state'', resent) ← process_lobby_resends e state'
  (state''', swept) ← cleanup_stale_lobby e state''
  pure (state''', dirty || resent || swept)

unfoldable pub lobby_round : Env → String → Joined → List String → Stmt World
lobby_round e self rooms invites = do
  accept_pending_invites e invites
  state ← gets (λ w. w.lobby)
  (state', dirty) ← process_table e self rooms state
  when dirty (save_lobby state')
