-- ===== src/Admin/Revoke.antt =====
-- `cmd_revoke` and the listing of `cmd_codes`.
pub mod Effect
use shape_rotator_matrix.Base.{
  ℕ, ltb, String, Bool, true, false, Option, none, some, List, [], ◌∷◌, ◌++◌, if◌then◌else◌,
}
use shape_rotator_matrix.Text.{strip, is_empty}
use shape_rotator_matrix.Dict.{Dict, lookup, set, has}
use shape_rotator_matrix.Exec.{Exec, pure, gets, ◌>>=◌, ◌>>◌}
use shape_rotator_matrix.World.{CodeEntry, Audit, World, Env, save_codes, save_signup, audit}
use shape_rotator_matrix.Admin.Mint.{table_of, save_table}

pub data RevokeReply : Type 0 where
  usage : RevokeReply
  revoked : String → Bool → RevokeReply
  unknown : String → RevokeReply

-- `codes[code]["uses_remaining"] = 0`
unfoldable pub zero_out : String → Dict CodeEntry → Dict CodeEntry
zero_out code codes = elim (lookup code codes) [
  | none ↦ codes
  | some entry ↦ set code (record entry { uses_remaining = 0 }) codes
]

-- The body of the loop over the two files, and how the loop goes on.
unfoldable pub revoke_in :
    Env → String → String → Bool → Exec World RevokeReply → Exec World RevokeReply
revoke_in e sender code signup go_on = do
  codes ← gets (table_of signup)
  if has code codes
      then (do
        save_table signup (zero_out code codes)
        audit (Audit.admin_revoke code sender signup)
        pure (revoked code signup))
      else go_on

unfoldable pub cmd_revoke : Env → String → String → Exec World RevokeReply
unfolding strip
cmd_revoke e sender args =
    let code = strip args in
    if is_empty code
    then pure usage
    else revoke_in e sender code false (revoke_in e sender code true (pure (unknown code)))

-- The live codes of a table, as !codes lists them.
unfoldable pub live_codes : Dict CodeEntry → List (String × ℕ × String)
live_codes [] = []
live_codes ((c, m) ∷ codes) =
    let rest = live_codes codes in
    if ltb 0 m.uses_remaining then (c, m.uses_remaining, m.label) ∷ rest else rest

-- `cmd_codes`: the live knock codes and the live signup codes; the order within a file, which the
-- source sorts by code, is that of the table.
unfoldable pub cmd_codes : Exec World (List (String × ℕ × String) × List (String × ℕ × String))
cmd_codes = gets (λ w. (live_codes w.codes, live_codes w.signup))
