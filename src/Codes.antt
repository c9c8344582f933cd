-- ===== src/Codes.antt =====
-- The invite-code tables of knock-approver/approver.py: codes.json and signup_codes.json.
pub mod Spending
pub mod Total
pub mod Fresh
use shape_rotator_matrix.Base.{
  ℕ, ◌-◌, String, Bool, Option, none, some, List, [], ◌∷◌, leb, ltb, if◌then◌else◌,
}
use shape_rotator_matrix.Dict.{Dict, lookup, set, has}
use shape_rotator_matrix.World.{CodeEntry, uses_left}

-- `not entry or entry.get("uses_remaining", 0) <= 0`
unfoldable pub is_dead : String → Dict CodeEntry → Bool
is_dead code codes = leb (uses_left (lookup code codes)) 0

-- `entry["uses_remaining"] -= 1; codes[code] = entry`, on the table that was loaded before
unfoldable pub spend : String → Dict CodeEntry → Dict CodeEntry
spend code codes = elim (lookup code codes) [
  | none ↦ codes
  | some entry ↦ set code (record entry { uses_remaining = entry.uses_remaining - 1 }) codes
]

-- the loop of `merge_seed`: only missing keys are added
unfoldable pub merge_missing : Dict CodeEntry → Dict CodeEntry → Dict CodeEntry
merge_missing [] existing = existing
merge_missing ((k, v) ∷ seed) existing =
    merge_missing seed (if has k existing then existing else set k v existing)
