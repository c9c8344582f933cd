-- ===== src/Tests/Services.antt =====
-- Signup, operator notices and the relay at concrete inputs.
use shape_rotator_matrix.Base.{
  inl, inr, ◌≡◌, refl, ◌≤◌, true, false, none, some, List, [], ◌∷◌, length, arith,
}
use shape_rotator_matrix.Text.{strip}
use shape_rotator_matrix.Dict.{Dict, lookup, set, has}
use shape_rotator_matrix.Exec.{Outcome, ok, ◌>>=◌}
use shape_rotator_matrix.Exec.Triples.{Post}
use shape_rotator_matrix.World.{
  Lobby, Seen, World, Env, Request, Reply, answer, register_init, send_msg, post, request,
}
use shape_rotator_matrix.Signup.{Form, signup_handler}
use shape_rotator_matrix.Signup.Spends.{Paid, Broken, signup_handler-Paid}
use shape_rotator_matrix.Announce.{
  announce_table, announce_rooms, announce_room, announce_users, announce_failure, drop_gone,
  failed_now,
}
use shape_rotator_matrix.Announce.Once.{announce_table_twice}
use shape_rotator_matrix.Relay.State.{State, mx_seen_limit}
use shape_rotator_matrix.Relay.Bodies.{TgMessage, tg_text}
use shape_rotator_matrix.Relay.Bridge.{
  Bridge, Clients, MxEvent, message, mx_send_relay, send, set_state, save,
}
use shape_rotator_matrix.Relay.Telegram.{
  tg_poll_once, newer, poll_new, poll_messages, poll_message, is_own, forward, move_cursor,
}
use shape_rotator_matrix.Relay.Telegram.Once.{Broken as PollBroken}
use shape_rotator_matrix.Relay.Telegram.Again.{IsPassed, tg_poll_once_again}
use shape_rotator_matrix.Relay.Matrix.{relay_event, relay_events}
use shape_rotator_matrix.Relay.Matrix.Again.{relay_event_again}
use shape_rotator_matrix.Relay.Run.{StateFile, holds, load, dumped, run_once}
use shape_rotator_matrix.Relay.Run.Resumes.{run_once-resumes}
use shape_rotator_matrix.Tests.{env, start, entry, lobby_room}

abbrev signup_env : Env
signup_env = record env { reg_token = "token"; reply = signup_replies }
  where
    signup_replies : List Request → Request → Reply
    signup_replies past register_init = answer 401 "session"
    signup_replies past r = answer 200 "@ada:example.org"

abbrev form : Form
form = record {
  code = " haiku7 ";
  username = "ada";
  password = "correct horse";
  display_name = "Ada";
}

abbrev signup_start : World
signup_start = record start { signup = ("haiku7", entry) ∷ [] }

signup_handler-Paid_example :
    Post
      (Paid (strip " haiku7 ") signup_start)
      (Broken (strip " haiku7 ") signup_start)
      (signup_handler signup_env (some form) signup_start)
signup_handler-Paid_example = signup_handler-Paid signup_env form signup_start

abbrev rooms : Dict Lobby
rooms = ("!l:x", lobby_room) ∷ []

abbrev told : Dict Seen
told = ("!l:x", record { started = "@ada:example.org" ∷ []; failed = false }) ∷ []

announce_table_twice_example : announce_table env rooms told start ≡ (ok (told, false), start)
unfolding announce_table announce_rooms announce_room announce_users announce_failure drop_gone
    failed_now lookup set has send_msg post request ◌>>=◌
announce_table_twice_example =
    announce_table_twice env rooms [] told true start (announce_table env rooms [] start).1 start
      refl

abbrev state : State
state = record { tg_last_id = 4; mx_seen = "$a" ∷ [] }

abbrev bridge : Bridge
bridge = record { state = state; disk = state; cursor = some "s1"; names = []; posts = [] }

abbrev event : MxEvent
event = record {
  event_id = "$c";
  sender = "@ada:example.org";
  kind = message;
  content = some (record { rel_type = ""; msgtype = "m.text"; body = "hello" });
}

abbrev clients : Clients
clients = record {
  bot_mxid = "@bridge:example.org";
  tg_me_id = "7";
  post_error = λ posts p. none;
  decrypt = λ posts ev. ok ev;
  displayname = λ posts who. ok "Ada";
  get_sender = λ posts msg. ok (some (some "Bob", none));
  sync = λ posts since. ok (some (record { next_batch = "s2"; timeline = some event ∷ [] }));
}

abbrev old_message : TgMessage
old_message = record { id = 5; sender_id = some "9"; text = "hi"; media = none }

abbrev new_message : TgMessage
new_message = record old_message { id = 6 }

abbrev listing : List (Outcome TgMessage)
listing = ok new_message ∷ ok old_message ∷ []

new_message-IsPassed : IsPassed clients new_message
unfolding is_own tg_text
new_message-IsPassed = inr (inr ("hi", refl, record { no_error = λ posts sender. refl }))

tg_poll_once_again_example :
    let b1 = (tg_poll_once clients listing bridge).1 in
    tg_poll_once clients listing b1 ≡ (ok tt, b1)
unfolding tg_poll_once newer poll_new poll_messages poll_message is_own tg_text forward
    mx_send_relay send move_cursor set_state save ◌>>=◌ shape_rotator_matrix.Base.reverse
tg_poll_once_again_example =
    tg_poll_once_again clients new_message (ok old_message ∷ []) bridge new_message-IsPassed
      (omega arith) refl

abbrev other_event : MxEvent
other_event = record event { event_id = "$d" }

relay_event_again_example :
    let b1 = (relay_event clients (some event) bridge).1 in
    let b2 = (relay_events clients (some other_event ∷ []) b1).1 in
    (relay_event clients (some event) b2).1.posts ≡ b2.posts
relay_event_again_example =
    relay_event_again clients event (some other_event ∷ []) bridge refl (omega arith)

abbrev saved_file : StateFile
saved_file = holds (some 4) (some ("$a" ∷ []))

run_once-resumes_example :
    let b' = (run_once clients listing saved_file bridge).1 in
    (load (dumped b'.disk) ≡ ok b'.state)
    × (length b'.state.mx_seen ≤ mx_seen_limit)
    × (state.tg_last_id ≤ b'.state.tg_last_id)
unfolding load
run_once-resumes_example =
    run_once-resumes clients listing saved_file state bridge refl (omega arith)
