-- ===== src/Welcome.antt =====
-- What a promotion gives beyond the space: invitations to the child rooms (`_invite_to_children`)
-- and a signup code for the new member (`_mint_welcome_signup_code`).
pub mod Files
use shape_rotator_matrix.Base.{
  ℕ, String, Bool, Option, none, some, List, [], ◌∷◌, ◌||◌, eqb, leb, if◌then◌else◌,
}
use shape_rotator_matrix.Text.{concat}
use shape_rotator_matrix.Dict.{Dict, set}
use shape_rotator_matrix.Exec.{Exec, pure, gets, ◌>>=◌, ◌>>◌}
use shape_rotator_matrix.World.{
  CodeEntry, main_bot, lobby_bot, invite, leave, World, Env, request, post, save_signup,
}
use shape_rotator_matrix.Codes.Fresh.{fresh_code}

-- a child counts as invited at 200, and at 403, where the user is a member already
children_loop : Env → String → List String → Exec World (List String)
children_loop e mxid [] = pure []
children_loop e mxid (child ∷ rest) = do
  (status, body) ← post e (invite main_bot child mxid)
  invited ← children_loop e mxid rest
  pure (if eqb status 200 || eqb status 403 then child ∷ invited else invited)

unfoldable pub invite_to_children : Env → String → Exec World (List String)
unfolding children_loop
invite_to_children e mxid = children_loop e mxid e.space_child_ids

-- the entry of a welcome code
abbrev pub welcome_entry : Env → String → CodeEntry
welcome_entry e mxid = record {
  uses_remaining = e.welcome_code_uses;
  label = concat "welcome:" mxid;
  inviter = mxid;
}

-- `none` where the feature is off
unfoldable pub mint_welcome_signup_code : Env → String → Exec World (Option String)
mint_welcome_signup_code e mxid = if leb e.welcome_code_uses 0 then pure none else do
  codes ← gets (λ w. w.signup)
  code ← fresh_code e codes
  save_signup (set code (welcome_entry e mxid) codes)
  pure (some code)
