-- ===== src/Admin/Dispatch/Guarded.antt =====
-- Who may change the code tables by chat.
use shape_rotator_matrix.Base.{
  ◌<◌, String, ◌≡◌, false, ◌||◌, Option, none, some, ◌∷◌, arith, elem, ◌==◌, Bool-cases, inl, inr,
}
use shape_rotator_matrix.Text.{split_once, is_empty}
use shape_rotator_matrix.Exec.{ok, ◌>>=◌, ◌>>◌, skip}
use shape_rotator_matrix.Exec.Rules.{Preserves, preserves_rules}
use shape_rotator_matrix.World.{power_levels, Notice, Audit, World, Env, request, send_msg, audit}
use shape_rotator_matrix.World.Frames.{
  SameFiles, SameFiles-refl, SameFiles-OnFiles, Preserves-send_msg, Preserves-audit,
}
use shape_rotator_matrix.Admin.Dispatch.{
  Command, find_command, level_in, get_user_pl, is_admin, dispatch, process_admin_command,
}

is_admin_lem :
    (e : Env) (room sender : String) (w : World)
    → elem sender e.admin_allowlist ≡ false
    → level_in (e.level_table w.trace room) sender < e.admin_pl_threshold
    → is_admin e room sender w ≡ (ok false, record w { trace = power_levels room ∷ w.trace })
unfolding is_admin get_user_pl request ◌>>=◌
is_admin_lem e room sender w out low = rw out (ground arith)

refuse-Preserves :
    (e : Env) (a : World) (room sender cmd : String)
    → Preserves
        (SameFiles a)
        (send_msg e room (Notice.admin_refused sender) >> audit (Audit.admin_refusal cmd sender))
refuse-Preserves e a room sender cmd =
    search (preserves_rules, Preserves-send_msg, Preserves-audit, SameFiles-OnFiles a)

dispatch_lem :
    (e : Env) (room sender cmd args : String) (c : Option Command) (w : World)
    → elem sender e.admin_allowlist ≡ false
    → level_in (e.level_table w.trace room) sender < e.admin_pl_threshold
    → SameFiles w (dispatch e room sender cmd args c w).1
unfolding skip ◌>>=◌
dispatch_lem e room sender cmd args none w out low = SameFiles-refl w
dispatch_lem e room sender cmd args (some c) w out low = rw (is_admin_lem e room sender w out low) (
    (refuse-Preserves e w room sender cmd).from _
      ((SameFiles-OnFiles w).on_trace w _ (SameFiles-refl w)))

-- A message of someone who is neither on the allowlist nor at the required power level changes no
-- state file, whatever it says and whatever the servers reply.
pub stranger_changes_nothing :
    (e : Env) (room sender body : String) (w : World)
    → elem sender e.admin_allowlist ≡ false
    → level_in (e.level_table w.trace room) sender < e.admin_pl_threshold
    → SameFiles w (process_admin_command e room sender body w).1
unfolding process_admin_command skip
stranger_changes_nothing e room sender body w out low =
    elim (Bool-cases (is_empty e.our_mxid || sender == e.our_mxid)) [
      | inl own ↦ rw own (SameFiles-refl w)
      | inr other ↦ rw other (
          let (cmd, args) = split_once body in
          dispatch_lem e room sender cmd args (find_command cmd) w out low)
    ]
