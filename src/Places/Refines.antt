-- ===== src/Places/Refines.antt =====
-- When one state of the files is reached from another by moves.
use shape_rotator_matrix.Base.{◌+◌, ◌≤◌, String, ◌≡◌, ap, subst, sym, false, length, arith}
use shape_rotator_matrix.Dict.{lookup}
use shape_rotator_matrix.Exec.{Exec}
use shape_rotator_matrix.Exec.Rules.{Preserves}
use shape_rotator_matrix.World.{World, uses_left}
use shape_rotator_matrix.World.Frames.{OnFiles, SameFiles}
use shape_rotator_matrix.Codes.{is_dead, spend}
use shape_rotator_matrix.Places.{open_room, Moves, here, next, places_of, rooms_of}
use shape_rotator_matrix.Places.Laws.{Moves-trans, Moves-uses}

pub record Refines (a b : World) : Type 0 where
  pub moves : Moves (places_of a) (places_of b)

pub Refines-refl : (a : World) → Refines a a
Refines-refl a = record { moves = here }

pub Refines-trans : {a b c : World} → Refines a b → Refines b c → Refines a c
Refines-trans ab bc = record { moves = Moves-trans ab.moves bc.moves }

-- Requests, audit entries and random draws are no moves.
pub Refines-OnFiles : (a : World) → OnFiles (Refines a)
Refines-OnFiles a = record {
  on_trace = λ w t h. record { moves = h.moves };
  on_log = λ w l h. record { moves = h.moves };
  on_drawn = λ w n h. record { moves = h.moves };
}

-- Neither is what leaves the codes and the numbers of rooms alone.
pub of_lengths :
    (a b : World)
    → b.codes ≡ a.codes
    → length b.vetting ≡ length a.vetting
    → length b.lobby ≡ length a.lobby
    → Refines a b
of_lengths a b c v l =
    let r : rooms_of a ≡ rooms_of b = omega (arith, v, l) in
    let same : places_of a ≡ places_of b = λ i. record { codes = sym c i; rooms = r i } in
    record { moves = subst (Moves (places_of a)) same here }

pub of_same : {a b : World} → SameFiles a b → Refines a b
of_same {a} {b} h = of_lengths a b h.codes (ap length h.vetting) (ap length h.lobby)

pub of_open :
    (code : String) (a b : World)
    → is_dead code a.codes ≡ false
    → b.codes ≡ spend code a.codes
    → rooms_of b ≤ rooms_of a + 1
    → Refines a b
of_open code a b live c h = record {
  moves =
      subst (λ codes. Moves (places_of a) (record { codes = codes; rooms = rooms_of b })) (sym c)
        (next here (open_room (places_of a) code (rooms_of b) live h));
}

-- A statement that makes moves from wherever it starts.
pub from_steps :
    {A : Type 0} (a : World) (m : Exec World A)
    → ((w : World) → Refines w (m w).1)
    → Preserves (Refines a) m
from_steps a m h = record { from = λ w g. Refines-trans g (h w) }

-- No knock code has more uses than before.
pub record NoGain (a b : World) : Type 0 where
  pub bound : (code : String) → uses_left (lookup code b.codes) ≤ uses_left (lookup code a.codes)

pub Refines-NoGain : {a b : World} → Refines a b → NoGain a b
Refines-NoGain h = record { bound = λ k. Moves-uses k h.moves }
