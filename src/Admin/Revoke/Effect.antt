-- ===== src/Admin/Revoke/Effect.antt =====
-- A revoked code is dead.
use shape_rotator_matrix.Base.{
  String, ◌≡◌, true, false, Option, none, some, ◌∷◌, arith, ◌==◌, eq_iff, if◌then◌else◌,
}
use shape_rotator_matrix.Text.{strip, is_empty}
use shape_rotator_matrix.Dict.{Dict, lookup, has, lookup-set, lookup-set_self}
use shape_rotator_matrix.Exec.{ok, ◌>>=◌}
use shape_rotator_matrix.World.{CodeEntry, Audit, World, Env, save_codes, audit}
use shape_rotator_matrix.Codes.{is_dead}
use shape_rotator_matrix.Admin.Revoke.{zero_out, revoke_in, cmd_revoke}
use shape_rotator_matrix.Knock.{handle_knock}
use shape_rotator_matrix.Knock.Admission.{handle_knock_dead}

zeroed : Option CodeEntry → CodeEntry
zeroed none = record { uses_remaining = 0; label = ""; inviter = "" }
zeroed (some x) = record x { uses_remaining = 0 }

is_dead-zero_out :
    (code : String) (codes : Dict CodeEntry) → is_dead code (zero_out code codes) ≡ true
unfolding is_dead zero_out zeroed
is_dead-zero_out code codes =
    ground (arith, lookup-set_self code (zeroed (lookup code codes)) codes)

abbrev pub without_uses : Option CodeEntry → Option CodeEntry
without_uses none = none
without_uses (some x) = some (record x { uses_remaining = 0 })

lookup-zero_out :
    (code other : String) (codes : Dict CodeEntry)
    → lookup other (zero_out code codes)
      ≡ (if code == other then without_uses (lookup other codes) else lookup other codes)
unfolding zero_out zeroed
lookup-zero_out code other codes =
    ground (arith, eq_iff code other, lookup-set code other (zeroed (lookup code codes)) codes)

codes-revoke :
    (e : Env) (sender args : String) (w : World)
    → is_empty (strip args) ≡ false
    → has (strip args) w.codes ≡ true
    → (cmd_revoke e sender args w).1.codes ≡ zero_out (strip args) w.codes
unfolding cmd_revoke revoke_in save_codes audit ◌>>=◌
codes-revoke e sender args w given known = rw (given, known)

-- After !revoke of a code that the knock table has, a knock with that code is rejected and only
-- logged, whoever knocks, and the table has the revoked code with no uses and every other code as
-- it was.
pub revoke-handle_knock :
    (e : Env) (sender args room user reason other : String) (w : World)
    → is_empty (strip args) ≡ false
    → has (strip args) w.codes ≡ true
    → strip reason ≡ strip args
    → let w1 = (cmd_revoke e sender args w).1 in
      (handle_knock e room user reason w1
        ≡ (ok tt, record w1 { log = Audit.knock_rejected user reason ∷ w1.log }))
      × (lookup other w1.codes ≡ (
          if strip args == other
          then without_uses (lookup other w.codes)
          else lookup other w.codes))
revoke-handle_knock e sender args room user reason other w given known same =
    let table = codes-revoke e sender args w given known in
    (
      handle_knock_dead e room user reason _
          (rw (same, table) (is_dead-zero_out (strip args) w.codes)),
      rw table (lookup-zero_out (strip args) other w.codes),
    )
