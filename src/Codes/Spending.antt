-- ===== src/Codes/Spending.antt =====
-- One use of a code takes one from its count and leaves every other code alone.
use shape_rotator_matrix.Base.{
  ◌+◌, ◌-◌, String, ◌≡◌, ◌≢◌, false, Option, none, some, [], ◌∷◌, arith, eq_iff, if◌then◌else◌,
}
use shape_rotator_matrix.Dict.{
  Dict, lookup, set, has, lookup-set, lookup-set_self, lookup-set_ne, has-set, lookup_of_not-has,
}
use shape_rotator_matrix.World.{CodeEntry, uses_left}
use shape_rotator_matrix.Codes.{is_dead, spend, merge_missing}

abbrev spent_entry : Option CodeEntry → CodeEntry
spent_entry none = record { uses_remaining = 0; label = ""; inviter = "" }
spent_entry (some x) = record x { uses_remaining = x.uses_remaining - 1 }

pub uses_left-spend :
    (code : String) (codes : Dict CodeEntry)
    → is_dead code codes ≡ false
    → uses_left (lookup code (spend code codes)) + 1 ≡ uses_left (lookup code codes)
unfolding is_dead spend
uses_left-spend code codes h =
    ground (arith, lookup-set_self code (spent_entry (lookup code codes)) codes)

pub lookup-spend_ne :
    (code other : String) (codes : Dict CodeEntry)
    → code ≢ other
    → lookup other (spend code codes) ≡ lookup other codes
unfolding spend
lookup-spend_ne code other codes h =
    ground (arith, lookup-set_ne code other (spent_entry (lookup code codes)) codes)

-- Seeding keeps every code that the file has, with its uses, and adds the codes that it lacks.
pub lookup-merge_missing :
    (k : String) (seed existing : Dict CodeEntry)
    → lookup k (merge_missing seed existing)
      ≡ (if has k existing then lookup k existing else lookup k seed)
unfolding merge_missing lookup
lookup-merge_missing k [] existing = ground (arith, lookup_of_not-has k existing)
lookup-merge_missing k ((j, v) ∷ seed) existing = ground (
  arith,
  eq_iff j k,
  lookup-merge_missing k seed (if has j existing then existing else set j v existing),
  has-set j k v existing,
  lookup-set j k v existing,
)
