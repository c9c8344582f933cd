-- ===== src/Lobby/Rooms.antt =====
-- `iter_lobby_rooms`: the joins and messages of the open lobby rooms.
pub mod Own
use shape_rotator_matrix.Base.{
  String, Bool, true, false, not, ◌&&◌, ◌||◌, Option, none, some, List, [], ◌∷◌, ◌++◌, ◌==◌, elem,
  if◌then◌else◌,
}
use shape_rotator_matrix.Text.{is_empty}
use shape_rotator_matrix.Dict.{Dict, lookup}
use shape_rotator_matrix.World.{Lobby}
use shape_rotator_matrix.Sync.{Event, RoomSync, Joined}

unfoldable pub is_open : Lobby → Bool
is_open meta = not (meta.promoted || meta.closed)

-- A join of someone else who has not been challenged yet.
unfoldable pub is_new_join : String → List String → Event → Bool
is_new_join self challenged ev =
    ev.kind == "m.room.member"
    && ev.membership == "join"
    && not (is_empty ev.state_key)
    && not (ev.state_key == self)
    && not (elem ev.state_key challenged)

unfoldable pub is_answer : String → List String → Event → Bool
is_answer self challenged ev =
    ev.kind == "m.room.message" && not (ev.sender == self) && elem ev.sender challenged

select : (Event → Bool) → List Event → List Event
select p [] = []
select p (ev ∷ evs) = let rest = select p evs in if p ev then ev ∷ rest else rest

pub record LobbyWork : Type 0 where
  pub room : String
  pub meta : Lobby
  pub new_joins : List Event
  pub msgs : List Event

abbrev lobby_work : String → String → RoomSync → Lobby → LobbyWork
lobby_work self room rd meta = record {
  room = room;
  meta = meta;
  new_joins = select (is_new_join self meta.challenged) (rd.state ++ rd.timeline);
  msgs = select (is_answer self meta.challenged) rd.timeline;
}

abbrev has_events : List Event → List Event → Bool
has_events [] [] = false
has_events [] (ev ∷ evs) = true
has_events (ev ∷ evs) msgs = true

add_work : String → String → RoomSync → Option Lobby → List LobbyWork → List LobbyWork
unfolding is_open select is_new_join is_answer
add_work self room rd none rest = rest
add_work self room rd (some meta) rest =
    let work = lobby_work self room rd meta in
    if is_open meta && has_events work.new_joins work.msgs then work ∷ rest else rest

unfoldable pub iter_lobby_rooms : String → Joined → Dict Lobby → List LobbyWork
unfolding add_work
iter_lobby_rooms self [] state = []
iter_lobby_rooms self ((room, rd) ∷ rooms) state =
    add_work self room rd (lookup room state) (iter_lobby_rooms self rooms state)
