-- ===== src/System.antt =====
-- The approver as a whole: its two loops and its two HTTP handlers, which share the state files. A
-- step is one round or one request from its start to its end, whichever end that is; requests that
-- overlap are the subject of Lobby/Join/Race and Lobby/Round/Loss.
pub mod Uses
use shape_rotator_matrix.Base.{String, Option, List, All}
use shape_rotator_matrix.World.{World, Env}
use shape_rotator_matrix.Sync.{Joined}
use shape_rotator_matrix.Lobby.Join.{join_handler}
use shape_rotator_matrix.Lobby.Round.{lobby_round}
use shape_rotator_matrix.Signup.{Form, signup_handler}
use shape_rotator_matrix.Round.{Chat, sync_round}
use shape_rotator_matrix.Round.Uses.{IsOutsider}

-- The steps in which no admin writes a command.
pub data Step (e : Env) : World → World → Type 0 where
  main_round :
      (rooms : Joined) (chats : List Chat) (w : World)
      → All (λ chat. IsOutsider e chat.sender) chats
      → Step e w (sync_round e rooms chats w).1
  lobby_sync :
      (self : String) (rooms : Joined) (invites : List String) (w : World)
      → Step e w (lobby_round e self rooms invites w).1
  join_request : (body : Option String) (w : World) → Step e w (join_handler e body w).1
  signup_request : (body : Option Form) (w : World) → Step e w (signup_handler e body w).1

-- Any number of steps, in any order.
pub data Steps (e : Env) : World → World → Type 0 where
  stop : (w : World) → Steps e w w
  step : {a b c : World} → Step e a b → Steps e b c → Steps e a c
