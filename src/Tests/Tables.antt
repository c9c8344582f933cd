-- ===== src/Tests/Tables.antt =====
-- Lobby rooms, code tables and admin commands at concrete inputs.
use shape_rotator_matrix.Base.{
  arith, String, List, ◌≡◌, refl, true, false, none, some, [], ◌∷◌, ◌==◌, if◌then◌else◌,
}
use shape_rotator_matrix.Text.{
  strip, len, splitlines, split, contains, is_prefix_of, drop_chars, parse_int,
}
use shape_rotator_matrix.Dict.{Dict, lookup, set, has}
use shape_rotator_matrix.Exec.{Outcome, ok, ◌>>=◌}
use shape_rotator_matrix.Exec.Triples.{Post}
use shape_rotator_matrix.World.{
  Lobby, World, Audit, send_msg_raw, post, request, audit, clock, save_lobby,
}
use shape_rotator_matrix.World.Frames.{SameFiles}
use shape_rotator_matrix.Sync.{Joined}
use shape_rotator_matrix.Haiku.{vet, haiku_lines}
use shape_rotator_matrix.Welcome.{invite_to_children, mint_welcome_signup_code}
use shape_rotator_matrix.Knock.{handle_knock}
use shape_rotator_matrix.Lobby.Join.{commit_join, new_lobby}
use shape_rotator_matrix.Lobby.Rooms.{iter_lobby_rooms}
use shape_rotator_matrix.Lobby.Process
use shape_rotator_matrix.Lobby.Process.{process_lobby_room}
use shape_rotator_matrix.Lobby.Process.Promotion.{Ends, with_names, process_lobby_room-Ends}
use shape_rotator_matrix.Lobby.Resend.{
  process_lobby_resends, resend_rooms, resend_users, takes_resends, is_due,
}
use shape_rotator_matrix.Lobby.Resend.Sweeps.{Resent, resends-Resent}
use shape_rotator_matrix.Lobby.Sweep
use shape_rotator_matrix.Lobby.Round.{process_table, process_rooms}
use shape_rotator_matrix.Lobby.Round.Loss.{opened_room_lost}
use shape_rotator_matrix.Admin.Mint.{Flags, parse_mint, cmd_mint}
use shape_rotator_matrix.Admin.Mint.Fresh.{Minted, cmd_mint-Minted}
use shape_rotator_matrix.Admin.Revoke.{cmd_revoke}
use shape_rotator_matrix.Admin.Revoke.Effect.{without_uses, revoke-handle_knock}
use shape_rotator_matrix.Admin.Dispatch.{process_admin_command}
use shape_rotator_matrix.Admin.Dispatch.Guarded.{stranger_changes_nothing}
use shape_rotator_matrix.Tests.{env, start, says, haiku, lobby_room}

abbrev rooms : Dict Lobby
rooms = ("!l:x", lobby_room) ∷ []

abbrev one_answer : Joined
one_answer = ("!l:x", record { state = []; timeline = says "@ada:example.org" haiku ∷ [] }) ∷ []

abbrev won : Lobby
won = record lobby_room {
  promoted = true;
  promoted_at = 10000;
  promoted_user = "@ada:example.org";
  closed = true;
  closed_reason = some "promoted";
}

abbrev answered : Outcome Lobby × World
answered =
    process_lobby_room env "@lobby:x" "!l:x" lobby_room [] (says "@ada:example.org" haiku ∷ [])
      start

process_lobby_room-Ends_example :
    Ends env (with_names "@lobby:x" [] lobby_room) (says "@ada:example.org" haiku ∷ []) won
unfolding process_lobby_room Process.challenge_joins Process.vet_answers Process.vet_answer
    Process.promote Process.grant Process.lobby_invite_to_space Process.lobby_leave_room vet strip
    len haiku_lines contains splitlines send_msg_raw post request audit clock lookup
    invite_to_children mint_welcome_signup_code ◌>>=◌
process_lobby_room-Ends_example =
    process_lobby_room-Ends env "@lobby:x" "!l:x" lobby_room won []
      (says "@ada:example.org" haiku ∷ []) start answered.1 refl

cleanup_lobby-exact_example :
    (state' : Dict Lobby) × (gone : List String) × (w' : World) × (Sweep.cleanup_stale_lobby env
        rooms start
      ≡ (ok (state', Sweep.is_some gone), w'))
    × Sweep.Swept env.lobby_timeout (env.now start.trace) rooms state' gone
    × SameFiles start w'
    × (w'.trace ≡ Sweep.leaving gone start.trace)
cleanup_lobby-exact_example = Sweep.cleanup_lobby-exact env rooms start

abbrev resent_room : Lobby
resent_room = record lobby_room {
  challenge_sent_ts = ("@ada:example.org", 10000) ∷ [];
  challenge_resends = ("@ada:example.org", 1) ∷ [];
}

resends-Resent_example : Resent env (env.now start.trace) rooms (("!l:x", resent_room) ∷ [])
unfolding process_lobby_resends resend_rooms resend_users takes_resends is_due lookup set has
    send_msg_raw post request audit clock ◌>>=◌
resends-Resent_example =
    resends-Resent env rooms (("!l:x", resent_room) ∷ []) true start
      (process_lobby_resends env rooms start).1 refl

opened_room_lost_example :
    let opened = (commit_join env start.codes "haiku7" "Tea" "cups" ("!b:x", "lobby-b") start).1 in
    (lookup "!b:x" opened.lobby
      ≡ some (new_lobby "lobby-b" "haiku7" (env.now start.trace) "Tea" "cups"))
    × (lookup "!b:x" (save_lobby [] opened).1.lobby ≡ none)
unfolding process_table process_rooms process_lobby_resends resend_rooms iter_lobby_rooms
    Sweep.cleanup_stale_lobby Sweep.cleanup_rooms clock lookup ◌>>=◌
opened_room_lost_example =
    opened_room_lost env "@lobby:x" [] start.codes "haiku7" "Tea" "cups" "!b:x" "lobby-b" [] []
      false start start refl refl

abbrev flags : Flags
flags = record { signup = true; n = 2; uses = 5; labels = "summer" ∷ [] }

cmd_mint-Minted_example :
    Post
      (Minted "@root:x" flags start)
      (SameFiles start)
      (cmd_mint env "@root:x" "signup -n 2 --uses=5 summer" start)
unfolding parse_mint split is_prefix_of drop_chars parse_int
cmd_mint-Minted_example =
    cmd_mint-Minted env "@root:x" "signup -n 2 --uses=5 summer" flags start refl

revoke-handle_knock_example :
    let w1 = (cmd_revoke env "@root:x" "haiku7" start).1 in
    (handle_knock env "!space:example.org" "@eve:x" "haiku7" w1
      ≡ (ok tt, record w1 { log = Audit.knock_rejected "@eve:x" "haiku7" ∷ w1.log }))
    × (lookup "other" w1.codes ≡ (
        if strip "haiku7" == "other"
        then without_uses (lookup "other" start.codes)
        else lookup "other" start.codes))
unfolding strip has
revoke-handle_knock_example =
    revoke-handle_knock env "@root:x" "haiku7" "!space:example.org" "@eve:x" "haiku7" "other" start
      refl refl refl

stranger_changes_nothing_example :
    SameFiles start
      (process_admin_command env "!admin:example.org" "@eve:x" "!revoke haiku7" start).1
unfolding lookup
stranger_changes_nothing_example =
    stranger_changes_nothing env "!admin:example.org" "@eve:x" "!revoke haiku7" start refl
      (omega arith)
