-- ===== src/Lobby/Process.antt =====
-- `process_lobby_room`: challenges for new joins, and the vetting of answers.
pub mod Promotion
use shape_rotator_matrix.Base.{
  ℕ, suc, ◌+◌, ◌-◌, ltb, leb, eqb, String, Bool, true, false, not, ◌&&◌, ◌||◌, Option, none, some,
  List, [], ◌∷◌, ◌++◌, ◌==◌, if◌then◌else◌,
}
use shape_rotator_matrix.Dict.{Dict, lookup, set, get_or}
use shape_rotator_matrix.Exec.{Exn, Outcome, Exec, Stmt, pure, gets, skip, ◌>>=◌, ◌>>◌, when}
use shape_rotator_matrix.World.{
  Lobby, Notice, lobby_bot, invite, sleep, Request, Reply, answer, failed, Audit, World, Env,
  request, post, send_msg_raw, audit, clock,
}
use shape_rotator_matrix.Haiku.{Verdict, passed, because, vet}
use shape_rotator_matrix.Sync.{Event}
use shape_rotator_matrix.Welcome.{invite_to_children, mint_welcome_signup_code}

-- `_lobby_leave_room`: any failure is only printed
unfoldable pub lobby_leave_room : Env → String → Stmt World
lobby_leave_room e room = do request e (Request.leave lobby_bot room); skip

-- `_lobby_invite_to_space`
unfoldable pub lobby_invite_to_space : Env → String → Exec World (ℕ × String)
lobby_invite_to_space e mxid = post e (invite lobby_bot e.space_id mxid)

-- What is written down of a new joiner before the challenge is sent, and after it.
abbrev pub note_joiner : Env → String → String → Lobby → Lobby
note_joiner e mxid displayname meta = record meta {
  challenged = meta.challenged ++ mxid ∷ [];
  tries = set mxid e.lobby_max_tries meta.tries;
  displaynames = set mxid displayname meta.displaynames;
}

abbrev pub note_sent : String → ℕ → Lobby → Lobby
note_sent mxid now meta = record meta {
  challenge_sent_ts = set mxid now meta.challenge_sent_ts;
  challenge_resends = set mxid 0 meta.challenge_resends;
}

-- The loop over new joins. Sleeps are counted in half seconds.
unfoldable pub challenge_joins : Env → String → String → List Event → Lobby → Exec World Lobby
challenge_joins e self room [] meta = pure meta
challenge_joins e self room (ev ∷ evs) meta =
    if ev.state_key == self then challenge_joins e self room evs meta else do
      when (ltb 0 e.lobby_challenge_delay)
          (do request e (sleep (e.lobby_challenge_delay + e.lobby_challenge_delay)); skip)
      send_msg_raw e room (Notice.challenge ev.state_key meta.title meta.keyword e.lobby_max_tries)
      now ← clock e
      audit (Audit.lobby_challenge_sent ev.state_key room)
      challenge_joins e self room evs
          (note_sent ev.state_key now (note_joiner e ev.state_key ev.displayname meta))

abbrev pub reason_of : Bool → String
reason_of true = "already_member"
reason_of false = "promoted"

-- The branch of an accepted haiku where the user was invited, or was a member already.
unfoldable pub grant : Env → String → Lobby → String → String → Bool → Exec World Lobby
grant e room meta mxid text already_member = do
  now ← clock e
  children ← invite_to_children e mxid
  signup_url ← mint_welcome_signup_code e mxid
  send_msg_raw e room (Notice.welcome already_member signup_url)
  audit (Audit.lobby_promoted mxid text already_member children signup_url)
  lobby_leave_room e room
  pure (record meta {
    promoted = true;
    promoted_at = now;
    promoted_user = mxid;
    closed = true;
    closed_reason = some (reason_of already_member);
  })

unfoldable pub promote : Env → String → Lobby → String → String → Exec World Lobby
promote e room meta mxid text = do
  (status, body) ← lobby_invite_to_space e mxid
  if eqb status 200 || eqb status 403
      then grant e room meta mxid text (eqb status 403)
      else do audit (Audit.lobby_promote_failed mxid status); pure meta

-- `challenged.remove(mxid)`: the first occurrence, if any
unfoldable pub remove_first : String → List String → List String
remove_first x [] = []
remove_first x (y ∷ ys) = if y == x then ys else y ∷ remove_first x ys

-- `meta["tries"][mxid] = meta["tries"].get(mxid, LOBBY_MAX_TRIES) - 1`
abbrev pub tries_after : Env → String → Lobby → ℕ
tries_after e mxid meta = get_or e.lobby_max_tries (lookup mxid meta.tries) - 1

abbrev pub spend_try : Env → String → Lobby → Lobby
spend_try e mxid meta = record meta { tries = set mxid (tries_after e mxid meta) meta.tries }

abbrev pub drop_user : String → Lobby → Lobby
drop_user mxid meta = record meta { challenged = remove_first mxid meta.challenged }

-- A refused answer: the user's new entry.
unfoldable pub refuse_answer : Env → String → Lobby → String → String → Exec World Lobby
unfolding remove_first
refuse_answer e room meta mxid why =
    if leb (tries_after e mxid meta) 0
    then (do
      send_msg_raw e room (Notice.out_of_tries mxid)
      audit (Audit.lobby_user_failed mxid room)
      pure (drop_user mxid (spend_try e mxid meta)))
    else (do
      send_msg_raw e room (Notice.not_yet mxid why (tries_after e mxid meta))
      pure (spend_try e mxid meta))

-- The body of the loop over answers, given the verdict and how the loop goes on.
unfoldable pub vet_answer :
    Env → String → Lobby → Event → (Lobby → Exec World Lobby) → Verdict → Exec World Lobby
vet_answer e room meta msg go_on passed = promote e room meta msg.sender msg.body
vet_answer e room meta msg go_on (because why) = do
  meta' ← refuse_answer e room meta msg.sender why
  go_on meta'

abbrev pub verdict_of : Env → Lobby → Event → Verdict
verdict_of e meta msg =
    vet e.lower (get_or "" (lookup msg.sender meta.displaynames)) msg.body meta.keyword

unfoldable pub vet_answers : Env → String → String → List Event → Lobby → Exec World Lobby
vet_answers e self room [] meta = pure meta
vet_answers e self room (msg ∷ msgs) meta =
    if msg.sender == self
    then vet_answers e self room msgs meta
    else vet_answer e room meta msg (vet_answers e self room msgs) (verdict_of e meta msg)

unfoldable pub process_lobby_room :
    Env → String → String → Lobby → List Event → List Event → Exec World Lobby
process_lobby_room e self room meta new_joins msgs = do
  meta' ← challenge_joins e self room new_joins meta
  vet_answers e self room msgs meta'
