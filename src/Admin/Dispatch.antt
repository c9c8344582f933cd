-- ===== src/Admin/Dispatch.antt =====
-- `process_admin_command`, with `_get_user_pl` and `_is_admin`.
pub mod Guarded
use shape_rotator_matrix.Base.{
  ℕ, leb, String, Bool, true, false, not, ◌||◌, Option, none, some, List, [], ◌∷◌, ◌==◌, elem,
  if◌then◌else◌,
}
use shape_rotator_matrix.Text.{split_once, is_empty}
use shape_rotator_matrix.Dict.{Dict, lookup, get_or}
use shape_rotator_matrix.Exec.{Exec, Stmt, pure, gets, skip, try_except, ◌>>=◌, ◌>>◌}
use shape_rotator_matrix.World.{Notice, Audit, power_levels, World, Env, request, send_msg, audit}
use shape_rotator_matrix.Admin.Mint.{MintReply, cmd_mint}
use shape_rotator_matrix.Admin.Revoke.{RevokeReply, cmd_revoke, cmd_codes}

-- The commands of the table `COMMANDS`.
pub data Command : Type 0 where
  mint codes revoke help : Command

-- `COMMANDS.get(cmd)`
unfoldable pub find_command : String → Option Command
find_command cmd =
    if cmd == "!mint"
    then some mint
    else if cmd == "!codes"
    then some codes
    else if cmd == "!revoke"
    then some revoke
    else if cmd == "!help"
    then some help
    else none

-- `_get_user_pl`: 0 where the request raises. A level below 0 counts as 0, which matters to no
-- threshold above 0.
abbrev pub level_in : Option (Dict ℕ × ℕ) → String → ℕ
level_in none mxid = 0
level_in (some (users, users_default)) mxid = get_or users_default (lookup mxid users)

unfoldable pub get_user_pl : Env → String → String → Exec World ℕ
get_user_pl e room mxid = do
  table ← gets (λ w. e.level_table w.trace room)
  request e (power_levels room)
  pure (level_in table mxid)

-- `_is_admin`
unfoldable pub is_admin : Env → String → String → Exec World Bool
is_admin e room sender =
    if elem sender e.admin_allowlist
    then pure true
    else do level ← get_user_pl e room sender; pure (leb e.admin_pl_threshold level)

-- The reply of a handler: its text is the command and what it returned.
pub data Answer : Type 0 where
  of_mint : MintReply → Answer
  of_codes : List (String × ℕ × String) → List (String × ℕ × String) → Answer
  of_revoke : RevokeReply → Answer
  of_help : Answer
  crashed : Answer

unfoldable pub run_command : Env → Command → String → String → Exec World Answer
run_command e mint sender args = do r ← cmd_mint e sender args; pure (of_mint r)
run_command e codes sender args = do (knock, signup) ← cmd_codes; pure (of_codes knock signup)
run_command e revoke sender args = do r ← cmd_revoke e sender args; pure (of_revoke r)
run_command e help sender args = pure of_help

-- `try: … except Exception`, and the reply
unfoldable pub answer_command : Env → String → Command → String → String → Stmt World
answer_command e room c sender args = do
  result ← try_except (run_command e c sender args) (λ x. pure crashed)
  send_msg e room (Notice.admin_reply sender)

abbrev dispatch : Env → String → String → String → String → Option Command → Stmt World
dispatch e room sender cmd args none = skip
dispatch e room sender cmd args (some c) = do
  allowed ← is_admin e room sender
  if allowed
      then answer_command e room c sender args
      else do send_msg e room (Notice.admin_refused sender); audit (Audit.admin_refusal cmd sender)

-- The body starts with `!`, so it has a first word.
unfoldable pub process_admin_command : Env → String → String → String → Stmt World
unfolding find_command split_once
process_admin_command e room sender body =
    let (cmd, args) = split_once body in
    if is_empty e.our_mxid || sender == e.our_mxid
    then skip
    else dispatch e room sender cmd args (find_command cmd)
