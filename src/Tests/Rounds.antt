-- ===== src/Tests/Rounds.antt =====
-- A round of the main loop in which someone knocks and a stranger tries to mint codes.
use shape_rotator_matrix.Base.{refl, ◌+◌, ◌≤◌, some, [], ◌∷◌, List, arith}
use shape_rotator_matrix.Sync.{Event, Joined}
use shape_rotator_matrix.Round.{Chat, sync_round}
use shape_rotator_matrix.Lobby.Join.{join_handler}
use shape_rotator_matrix.System.{Steps, stop, step, main_round, join_request}
use shape_rotator_matrix.System.Uses.{promoted_vetting, promoted_lobby, Steps-bound}
use shape_rotator_matrix.Places.{places_of}
use shape_rotator_matrix.Places.Laws.{total}
use shape_rotator_matrix.Round.Uses.{IsOutsider}
use shape_rotator_matrix.Tests.{env, start, says}

abbrev knock : Event
knock = record (says "@ada:example.org" "") {
  kind = "m.room.member";
  state_key = "@ada:example.org";
  membership = "knock";
  reason = "haiku7";
}

abbrev pub rooms : Joined
rooms = ("!space:example.org", record { state = []; timeline = knock ∷ [] }) ∷ []

abbrev pub chats : List Chat
chats =
    record {
      room = "!admin:example.org";
      sender = "@eve:example.org";
      body = "!mint -n 50 --uses 1000";
    }
    ∷ []

pub eve-IsOutsider : IsOutsider env "@eve:example.org"
eve-IsOutsider = record { unlisted = refl; low = λ t. omega arith }

-- A round, then a request to /join/api.
two_steps :
    Steps env start (join_handler env (some "haiku7") (sync_round env rooms chats start).1).1
two_steps =
    step (main_round rooms chats start (eve-IsOutsider, tt))
      (step (join_request (some "haiku7") (sync_round env rooms chats start).1) (stop _))

Steps-bound_example :
    let b = (join_handler env (some "haiku7") (sync_round env rooms chats start).1).1 in
    (total (places_of b) ≤ total (places_of start))
    × (promoted_vetting b.vetting + promoted_lobby b.lobby ≤ total (places_of start))
Steps-bound_example = Steps-bound two_steps
