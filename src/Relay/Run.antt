-- ===== src/Relay/Run.antt =====
-- `run` with --once, from `State.load` on: one pass over each side.
pub mod Resumes
use shape_rotator_matrix.Base.{ℕ, String, Option, none, some, List, []}
use shape_rotator_matrix.Dict.{get_or}
use shape_rotator_matrix.Exec.{
  Exn, Outcome, ok, raised, Exec, Stmt, gets, modify, raise, skip, ◌>>=◌, ◌>>◌, on_option,
}
use shape_rotator_matrix.Relay.State.{State, payload}
use shape_rotator_matrix.Relay.Bodies.{TgMessage}
use shape_rotator_matrix.Relay.Bridge.{Bridge, Clients, save}
use shape_rotator_matrix.Relay.Telegram.{tg_poll_once}
use shape_rotator_matrix.Relay.Matrix.{mx_sync, mx_relay_once}

-- relay-state.json: absent, unreadable as such an object, or with its two keys, each of which may
-- be absent.
pub data StateFile : Type 0 where
  missing : StateFile
  corrupt : String → StateFile
  holds : Option ℕ → Option (List String) → StateFile

-- `State.load`; a `SystemExit` has no http_status, so that it reads as 500.
unfoldable pub load : StateFile → Outcome State
load missing = ok (record { tg_last_id = 0; mx_seen = [] })
load (corrupt why) = raised (record { http_status = 500; text = why })
load (holds tg_last_id mx_seen) =
    ok (record { tg_last_id = get_or 0 tg_last_id; mx_seen = get_or [] mx_seen })

-- The object that `State.save` dumps.
unfoldable pub dumped : State → StateFile
dumped s = holds (some s.tg_last_id) (some s.mx_seen)

-- The end of `try: m  finally: f`, given how `m` ended: an exception of `f` replaces it.
abbrev pub finish : {S A B : Type 0} → Outcome A → Outcome B × S → Outcome A × S
finish r (ok u, s) = (r, s)
finish r (raised x, s) = (raised x, s)

unfoldable pub try_finally : {S A : Type 0} → Exec S A → Stmt S → Exec S A
try_finally m f s = finish (m s).0 (f (m s).1)

-- With no cursor of its own yet, the relay moves to the present without relaying.
unfoldable pub first_start : Clients → Stmt Bridge
first_start c = do
  cursor ← gets (λ b. b.cursor)
  on_option cursor (do mx_sync c; skip) (λ since. skip)

unfoldable pub once : Clients → List (Outcome TgMessage) → Stmt Bridge
once c msgs = do first_start c; try_finally (do tg_poll_once c msgs; mx_relay_once c) save

abbrev pub started : Clients → List (Outcome TgMessage) → Outcome State → Stmt Bridge
started c msgs (raised x) = raise x
started c msgs (ok s) = do modify (λ b. record b { state = s; disk = s }); once c msgs

-- `run`, with both clients made, authorized, and closed at the end.
unfoldable pub run_once : Clients → List (Outcome TgMessage) → StateFile → Stmt Bridge
run_once c msgs file = started c msgs (load file)
