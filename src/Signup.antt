-- ===== src/Signup.antt =====
-- `signup_handler` of knock-approver/approver.py, with `valid_username`, `_admin_invite` and
-- `_as_user`: an account for a signup code.
pub mod Spends
use Prim.Native.Char.{Char, code}
use Prim.Native.String.{[], ◌∷◌}
use mathlib.Core.List
use shape_rotator_matrix.Base.{
  ℕ, ◌-◌, String, Bool, true, false, not, ◌&&◌, ◌||◌, Option, none, some, List, eqb, ltb, leb,
  if◌then◌else◌,
}
use shape_rotator_matrix.Text.{len, strip, take, is_empty}
use shape_rotator_matrix.Dict.{Dict, lookup}
use shape_rotator_matrix.Exec.{Exec, Stmt, pure, raise, gets, ◌>>=◌, ◌>>◌}
use shape_rotator_matrix.World.{
  CodeEntry, uses_left, Request, Reply, answer, failed, Audit, World, Env, main_bot, invite,
  request, post, save_signup, audit, register_init, register, set_displayname, join_as, create_dm,
}
use shape_rotator_matrix.Codes.{is_dead, spend}

-- The fields of the parsed body; a missing one is the empty text.
pub record Form : Type 0 where
  pub code : String
  pub username : String
  pub password : String
  pub display_name : String

-- What was done after the registration, the `steps` of the reply.
pub record Steps : Type 0 where
  pub space_invited : Bool
  pub displayname_set : Option Bool
  pub space_joined : Bool
  pub children_joined : List String
  pub inviter_dm : Option Bool

-- The JSON replies of the handler.
pub data SignupReply : Type 0 where
  signup_disabled bad_json missing_fields bad_username password_too_short invalid_code : SignupReply
  register_init_unexpected : ℕ → SignupReply
  register_failed : String → SignupReply
  signed_up : String → Steps → SignupReply

unfoldable pub signup_status : SignupReply → ℕ
signup_status signup_disabled = 503
signup_status bad_json = 400
signup_status missing_fields = 400
signup_status bad_username = 400
signup_status password_too_short = 400
signup_status invalid_code = 403
signup_status (register_init_unexpected status) = 502
signup_status (register_failed errcode) = 400
signup_status (signed_up mxid steps) = 200

-- An ASCII letter or digit, or one of `-_.=`.
unfoldable pub is_username_char : Char → Bool
is_username_char c =
    let n = code c in
    (leb b'0' n && leb n b'9')
    || (leb b'A' n && leb n b'Z')
    || (leb b'a' n && leb n b'z')
    || eqb n b'-'
    || eqb n b'_'
    || eqb n b'.'
    || eqb n b'='

unfoldable pub all_chars : (Char → Bool) → String → Bool
all_chars p [] = true
all_chars p (c ∷ s) = p c && all_chars p s

-- `valid_username`; the ASCII test is part of the test on each character
unfoldable pub valid_username : String → Bool
unfolding is_username_char all_chars len
valid_username u = leb 1 (len u) && leb (len u) 32 && all_chars is_username_char u

-- `_admin_invite`: the status
unfoldable pub admin_invite : Env → String → String → Exec World ℕ
admin_invite e mxid room = do (status, body) ← post e (invite main_bot room mxid); pure status

-- Step 4, where a display name was asked for.
unfoldable pub set_name : Env → String → String → Exec World (Option Bool)
unfolding take
set_name e mxid displayname = if is_empty displayname then pure none else do
  (status, body) ← post e (set_displayname mxid (take 100 displayname))
  pure (some (eqb status 200))

-- Step 6: the children that were joined.
unfoldable pub join_children : Env → String → List String → Exec World (List String)
join_children e mxid List.[] = pure List.[]
join_children e mxid (List.◌∷◌ child rest) = do
  (status, body) ← post e (join_as mxid child)
  joined ← join_children e mxid rest
  pure (if eqb status 200 then List.◌∷◌ child joined else joined)

-- `(entry.get("inviter") or ONBOARDING_INVITER_MXID or "").strip()`
abbrev inviter_of : Env → Option CodeEntry → String
inviter_of e none = strip e.onboarding_inviter
inviter_of e (some entry) =
    strip (if is_empty entry.inviter then e.onboarding_inviter else entry.inviter)

-- Step 7.
unfoldable pub open_dm : Env → String → String → Exec World (Option Bool)
open_dm e mxid inviter =
    if is_empty inviter
    then pure none
    else do (status, body) ← post e (create_dm mxid inviter); pure (some (eqb status 200))

-- Everything after the use is spent.
unfoldable pub welcome : Env → String → String → Option CodeEntry → String → Exec World SignupReply
unfolding strip
welcome e code displayname entry mxid = do
  invited ← admin_invite e mxid e.space_id
  named ← set_name e mxid displayname
  (joined, body) ← post e (join_as mxid e.space_id)
  children ← join_children e mxid e.space_child_ids
  dm ← open_dm e mxid (inviter_of e entry)
  audit (Audit.signup_ok mxid code (uses_left entry - 1))
  pure (
      signed_up mxid (record {
        space_invited = eqb invited 200;
        displayname_set = named;
        space_joined = eqb joined 200;
        children_joined = children;
        inviter_dm = dm;
      }))

-- Steps 1 and 2, given the loaded table: the account is registered, then the use is spent.
unfoldable pub register_account :
    Env → Dict CodeEntry → String → String → String → String → Exec World SignupReply
register_account e codes code username password displayname = do
  (status, session) ← post e register_init
  if not (eqb status 401) then pure (register_init_unexpected status) else do
    (status', result) ← post e (register username password session)
    if not (eqb status' 200)
        then (do audit (Audit.signup_failed username status'); pure (register_failed result))
        else (do
          save_signup (spend code codes)
          welcome e code displayname (lookup code codes) result)

-- The handler on a parsed body whose fields are stripped.
unfoldable pub signup_checked : Env → String → String → String → String → Exec World SignupReply
unfolding valid_username len is_dead
signup_checked e code username password displayname =
    if is_empty code || is_empty username || is_empty password
    then pure missing_fields
    else if not (valid_username username)
    then pure bad_username
    else if ltb (len password) 12
    then pure password_too_short
    else (do
      codes ← gets (λ w. w.signup)
      if is_dead code codes
          then (do audit (Audit.signup_rejected username); pure invalid_code)
          else register_account e codes code username password displayname)

-- `signup_handler`; `none` is a body that does not parse.
unfoldable pub signup_handler : Env → Option Form → Exec World SignupReply
unfolding strip
signup_handler e none = if is_empty e.reg_token then pure signup_disabled else pure bad_json
signup_handler e (some form) =
    if is_empty e.reg_token
    then pure signup_disabled
    else signup_checked e (strip form.code) (e.lower (strip form.username)) form.password
        (strip form.display_name)
