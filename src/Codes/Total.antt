-- ===== src/Codes/Total.antt =====
-- The uses that a table of codes has in all.
use shape_rotator_matrix.Base.{
  ℕ, ◌+◌, ◌-◌, leb, String, ◌≡◌, refl, false, Option, none, some, [], ◌∷◌, arith,
}
use shape_rotator_matrix.Dict.{Dict, lookup, set}
use shape_rotator_matrix.World.{CodeEntry, uses_left}
use shape_rotator_matrix.Codes.{is_dead, spend}

abbrev pub total_uses : Dict CodeEntry → ℕ
total_uses [] = 0
total_uses ((k, x) ∷ codes) = x.uses_remaining + total_uses codes

-- An entry that is written over another replaces its uses.
total_uses-set :
    (k : String) (x y : CodeEntry) (codes : Dict CodeEntry)
    → lookup k codes ≡ some y
    → total_uses (set k x codes) + y.uses_remaining ≡ total_uses codes + x.uses_remaining
unfolding lookup set
total_uses-set k x y [] h = ground arith
total_uses-set k x y ((j, z) ∷ codes) h = ground (arith, total_uses-set k x y codes)

-- Spending takes one use from the total.
pub total_uses-spend :
    (code : String) (codes : Dict CodeEntry)
    → is_dead code codes ≡ false
    → total_uses (spend code codes) + 1 ≡ total_uses codes
unfolding is_dead spend
total_uses-spend code codes h = found_lem (lookup code codes) h refl
  where
    found_lem :
        (found : Option CodeEntry)
        → leb (uses_left found) 0 ≡ false
        → lookup code codes ≡ found
        → total_uses (elim found [
          | none ↦ codes
          | some x ↦ set code (record x { uses_remaining = x.uses_remaining - 1 }) codes
        ])
            + 1
          ≡ total_uses codes
    found_lem none live e = ground arith
    found_lem (some x) live e =
        ground (
          arith,
          total_uses-set code (record x { uses_remaining = x.uses_remaining - 1 }) x codes e,
        )
