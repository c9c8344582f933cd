-- ===== src/Lobby/Resend.antt =====
-- `process_lobby_resends`: the challenge is posted once more to users who joined and never replied.
pub mod Sweeps
pub mod Counts
use shape_rotator_matrix.Base.{
  ℕ, ◌+◌, ltb, leb, eqb, String, Bool, true, false, not, ◌&&◌, ◌||◌, Option, none, some, List, [],
  ◌∷◌, if◌then◌else◌,
}
use shape_rotator_matrix.Text.{is_empty}
use shape_rotator_matrix.Dict.{Dict, lookup, set, get_or}
use shape_rotator_matrix.Exec.{Exec, pure, ◌>>=◌, ◌>>◌}
use shape_rotator_matrix.World.{Lobby, Notice, Audit, World, Env, send_msg_raw, audit, clock}
use shape_rotator_matrix.Lobby.Rooms.{is_open}

abbrev pub lobby_max_resends : ℕ
lobby_max_resends = 1

abbrev pub resends_of : String → Lobby → ℕ
resends_of mxid meta = get_or 0 (lookup mxid meta.challenge_resends)

-- the challenge was sent, and long enough ago
unfoldable pub sent_before : Env → ℕ → Option ℕ → Bool
sent_before e now none = false
sent_before e now (some sent) = not (ltb now (sent + e.lobby_resend_after))

-- The four tests of the loop over users.
unfoldable pub is_due : Env → ℕ → Lobby → String → Bool
unfolding sent_before
is_due e now meta mxid =
    not (leb lobby_max_resends (resends_of mxid meta))
    && sent_before e now (lookup mxid meta.challenge_sent_ts)
    && eqb (get_or e.lobby_max_tries (lookup mxid meta.tries)) e.lobby_max_tries

abbrev pub note_resent : ℕ → String → Lobby → Lobby
note_resent now mxid meta = record meta {
  challenge_sent_ts = set mxid now meta.challenge_sent_ts;
  challenge_resends = set mxid (resends_of mxid meta + 1) meta.challenge_resends;
}

-- The loop over the users of one room: the entry, and whether it changed.
unfoldable pub resend_users : Env → ℕ → String → List String → Lobby → Exec World (Lobby × Bool)
unfolding is_due
resend_users e now room [] meta = pure (meta, false)
resend_users e now room (mxid ∷ users) meta =
    if is_due e now meta mxid
    then (do
      send_msg_raw e room (Notice.challenge_again mxid meta.title meta.keyword e.lobby_max_tries)
      audit (Audit.lobby_challenge_resent mxid room (resends_of mxid meta + 1))
      (meta', dirty) ← resend_users e now room users (note_resent now mxid meta)
      pure (meta', true))
    else resend_users e now room users meta

-- `if meta.get("promoted") or meta.get("closed")`, and the test on title and keyword
unfoldable pub takes_resends : Lobby → Bool
unfolding is_open
takes_resends meta = is_open meta && not (is_empty meta.title || is_empty meta.keyword)

unfoldable pub resend_rooms : Env → ℕ → Dict Lobby → Exec World (Dict Lobby × Bool)
unfolding takes_resends
resend_rooms e now [] = pure ([], false)
resend_rooms e now ((room, meta) ∷ rooms) =
    if takes_resends meta
    then (do
      (meta', dirty) ← resend_users e now room meta.challenged meta
      (rest, dirty') ← resend_rooms e now rooms
      pure ((room, meta') ∷ rest, dirty || dirty'))
    else (do (rest, dirty) ← resend_rooms e now rooms; pure ((room, meta) ∷ rest, dirty))

unfoldable pub process_lobby_resends : Env → Dict Lobby → Exec World (Dict Lobby × Bool)
process_lobby_resends e state = do now ← clock e; resend_rooms e now state
