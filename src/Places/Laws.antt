-- ===== src/Places/Laws.antt =====
-- What moves do to the uses of the codes.
use shape_rotator_matrix.Base.{
  ℕ, ◌+◌, ◌-◌, ◌≤◌, String, ◌≡◌, false, true, ◌==◌, Option, none, some, arith, eq_iff, Bool-cases,
  inl, inr, ne_of_eq, subst,
}
use shape_rotator_matrix.Dict.{Dict, lookup, has, has-set, set}
use shape_rotator_matrix.World.{CodeEntry, uses_left}
use shape_rotator_matrix.Codes.{is_dead, spend}
use shape_rotator_matrix.Codes.Spending.{uses_left-spend, lookup-spend_ne}
use shape_rotator_matrix.Codes.Total.{total_uses, total_uses-spend}
use shape_rotator_matrix.Places.{Places, Move, open_room, Moves, here, next}

spend_bound :
    (code k : String) (codes : Dict CodeEntry)
    → is_dead code codes ≡ false
    → uses_left (lookup k (spend code codes)) ≤ uses_left (lookup k codes)
spend_bound code k codes live = elim (Bool-cases (code == k)) [
  | inl same ↦
      subst (λ j. uses_left (lookup j (spend code codes)) ≤ uses_left (lookup j codes))
        ((eq_iff code k).0 same) (omega (arith, uses_left-spend code codes live))
  | inr apart ↦ rw (lookup-spend_ne code k codes (ne_of_eq code k apart)) (omega arith)
]

has-spend :
    (code k : String) (codes : Dict CodeEntry)
    → has k codes ≡ true
    → has k (spend code codes) ≡ true
unfolding spend
has-spend code k codes h = found_lem (lookup code codes)
  where
    found_lem :
        (found : Option CodeEntry)
        → has k (elim found [
          | none ↦ codes
          | some x ↦ set code (record x { uses_remaining = x.uses_remaining - 1 }) codes
        ])
          ≡ true
    found_lem none = h
    found_lem (some x) =
        ground (arith, h, has-set code k (record x { uses_remaining = x.uses_remaining - 1 }) codes)

-- The uses of all codes together with the rooms.
abbrev pub total : Places → ℕ
total p = total_uses p.codes + p.rooms

pub Move-total : {p q : Places} → Move p q → total q ≤ total p
Move-total (open_room p code n live h) = omega (arith, total_uses-spend code p.codes live, h)

pub Moves-total : {p q : Places} → Moves p q → total q ≤ total p
Moves-total here = omega arith
Moves-total (next ms m) = omega (arith, Moves-total ms, Move-total m)

pub Moves-uses :
    {p q : Places} (k : String)
    → Moves p q
    → uses_left (lookup k q.codes) ≤ uses_left (lookup k p.codes)
Moves-uses k here = omega arith
Moves-uses k (next ms (open_room p code n live h)) =
    omega (arith, Moves-uses k ms, spend_bound code k p.codes live)

-- No code is forgotten.
pub Moves-has :
    {p q : Places} (k : String) → Moves p q → has k p.codes ≡ true → has k q.codes ≡ true
Moves-has k here h = h
Moves-has k (next ms (open_room p code n live b)) h = has-spend code k p.codes (Moves-has k ms h)

pub Moves-trans : {p q r : Places} → Moves p q → Moves q r → Moves p r
Moves-trans ms here = ms
Moves-trans ms (next ns m) = next (Moves-trans ms ns) m
