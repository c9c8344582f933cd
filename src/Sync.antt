-- ===== src/Sync.antt =====
-- The part of a /sync reply that knock-approver/approver.py reads: the events of joined rooms.
use Prim.Native.Char.{code}
use Prim.Native.String.{[], ◌∷◌}
use shape_rotator_matrix.Base.{String, List, eqb, if◌then◌else◌}
use shape_rotator_matrix.Dict.{Dict}

-- An event. A field that it lacks is the empty text, the default of the code's `.get`.
pub record Event : Type 0 where
  pub kind : String
  pub state_key : String
  pub sender : String
  pub membership : String
  pub displayname : String
  pub reason : String
  pub body : String

pub record RoomSync : Type 0 where
  pub state : List Event
  pub timeline : List Event

-- `rooms_data.get("join", {})`
abbrev pub Joined : Type 0
Joined = Dict RoomSync

-- `room_id.split(":", 1)[0]`
unfoldable pub before_colon : String → String
before_colon [] = []
before_colon (c ∷ s) = let rest = before_colon s in if eqb (code c) b':' then [] else c ∷ rest
