-- ===== src/Tests/Turns.antt =====
-- Turns of the two loops at concrete inputs.
use shape_rotator_matrix.Base.{refl, String, none, some, List, [], ◌∷◌}
use shape_rotator_matrix.Exec.{ok}
use shape_rotator_matrix.Places.Refines.{Refines, NoGain}
use shape_rotator_matrix.Loops.{batch, Ask, Looping, Source, sync_loop, lobby_sync_loop}
use shape_rotator_matrix.Loops.Cursor.{IsFollowing}
use shape_rotator_matrix.Loops.Follows.{loops-IsFollowing}
use shape_rotator_matrix.World.{World}
use shape_rotator_matrix.Tests.{env}
use shape_rotator_matrix.Tests
use shape_rotator_matrix.Tests.Rounds.{rooms, chats, eve-IsOutsider}
use shape_rotator_matrix.Tests.Starts.{server, boot, disk, setup, machine, globals, begun}
use shape_rotator_matrix.Lobby.Join.{join_handler}
use shape_rotator_matrix.System.{stop, step, join_request}
use shape_rotator_matrix.Start.{Machine, start}
use shape_rotator_matrix.Start.Restarts.{begin, served, ran_main, restart, restarts-Refines}

-- The same batch in every reply.
abbrev source : Source
source = record {
  whoami = λ past. ok (some (record { user_id = some "@bot:example.org"; device_id = none }));
  sync = λ past w since.
      batch (record { next_batch = next_of past; rooms = rooms; invites = []; chats = chats });
}
  where
    next_of : List Ask → String
    next_of [] = "s1"
    next_of (a ∷ past) = "s2"

abbrev looping : Looping
looping = record { asks = []; boot = boot; world = Tests.start }

loops-IsFollowing_example :
    IsFollowing (some "s1") (sync_loop env source server 3 looping).1
    × IsFollowing (some "s1") (lobby_sync_loop env source 3 looping).1
loops-IsFollowing_example =
    loops-IsFollowing (some "s1") env source server 3 looping (record { chain = tt; file = refl })

-- A request to /join/api, two turns of the main loop, then a second start.
abbrev joined : World
joined = (join_handler env (some "haiku7") (start setup machine).1.world).1

abbrev turning : Looping
turning = record { asks = []; boot = boot; world = joined }

abbrev turned : Machine
turned = record {
  main = disk;
  lobby = disk;
  calls = (start setup machine).1.calls;
  world = (sync_loop env source server 2 turning).1.world;
}

restarts-Refines_example :
    Refines (start setup machine).1.world (start setup turned).1.world
    × NoGain (start setup machine).1.world (start setup turned).1.world
restarts-Refines_example = restarts-Refines setup machine globals begun (
    restart
      (ran_main
        (served begin disk disk
          (step (join_request (some "haiku7") (start setup machine).1.world) (stop _)))
        env source server 2 turning refl (λ past w since. (eve-IsOutsider, tt)))
      setup refl)
