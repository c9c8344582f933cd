-- ===== src/Lobby/Rooms/Own.antt =====
-- Which rooms a round of the lobby loop works on.
use shape_rotator_matrix.Base.{
  String, ◌≡◌, refl, true, Option, none, some, List, [], ◌∷◌, All, Bool-cases, inl, inr,
}
use shape_rotator_matrix.Dict.{Dict, lookup}
use shape_rotator_matrix.World.{Lobby}
use shape_rotator_matrix.Sync.{RoomSync, Joined}
use shape_rotator_matrix.Lobby.Rooms.{
  LobbyWork, is_open, add_work, lobby_work, has_events, iter_lobby_rooms,
}

-- The work is on an open room of the table, with its entry there.
pub record IsOwn (state : Dict Lobby) (r : LobbyWork) : Type 0 where
  pub known : lookup r.room state ≡ some r.meta
  pub opened : is_open r.meta ≡ true

add_work-IsOwn :
    (self room : String) (rd : RoomSync) (state : Dict Lobby) (found : Option Lobby)
    (rest : List LobbyWork)
    → lookup room state ≡ found
    → All (IsOwn state) rest
    → All (IsOwn state) (add_work self room rd found rest)
unfolding add_work
add_work-IsOwn self room rd state none rest e h = h
add_work-IsOwn self room rd state (some meta) rest e h = elim (Bool-cases (is_open meta)) [
  | inr shut ↦ rw shut h
  | inl open' ↦
      rw open'
        (elim (Bool-cases (
          has_events (lobby_work self room rd meta).new_joins
            (lobby_work self room rd meta).msgs)) [
              | inl yes' ↦ rw yes' (record { known = e; opened = open' }, h)
              | inr no' ↦ rw no' h
            ])
]

-- A round works on rooms of its own table only, and on none that is promoted or closed.
pub iter_lobby_rooms-IsOwn :
    (self : String) (rooms : Joined) (state : Dict Lobby)
    → All (IsOwn state) (iter_lobby_rooms self rooms state)
unfolding iter_lobby_rooms
iter_lobby_rooms-IsOwn self [] state = tt
iter_lobby_rooms-IsOwn self ((room, rd) ∷ rooms) state =
    add_work-IsOwn self room rd state (lookup room state) (iter_lobby_rooms self rooms state) refl
      (iter_lobby_rooms-IsOwn self rooms state)
