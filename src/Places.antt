-- ===== src/Places.antt =====
-- What the state files promise about places, whatever else is in them: the codes with their uses, and
-- how many rooms were opened for uses. The only move is to spend a use of a live code for a room.
pub mod Laws
pub mod Refines
use shape_rotator_matrix.Base.{ℕ, ◌+◌, ◌≤◌, String, ◌≡◌, false, length}
use shape_rotator_matrix.Dict.{Dict}
use shape_rotator_matrix.World.{CodeEntry, World}
use shape_rotator_matrix.Codes.{is_dead, spend}

pub record Places : Type 0 where
  pub codes : Dict CodeEntry
  pub rooms : ℕ

-- A room that is opened under the id of an old one replaces it.
pub data Move : Places → Places → Type 0 where
  open_room :
      (p : Places) (code : String) (n : ℕ)
      → is_dead code p.codes ≡ false
      → n ≤ p.rooms + 1
      → Move p (record { codes = spend code p.codes; rooms = n })

-- Any number of moves.
pub data Moves (p : Places) : Places → Type 0 where
  here : Moves p p
  next : {q r : Places} → Moves p q → Move q r → Moves p r

-- The places of the state files.
abbrev pub rooms_of : World → ℕ
rooms_of w = length w.vetting + length w.lobby

abbrev pub places_of : World → Places
places_of w = record { codes = w.codes; rooms = rooms_of w }
