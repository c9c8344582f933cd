-- ===== src/Lobby/Sweep.antt =====
-- `cleanup_stale_lobby`: lobby rooms past their age are left.
use shape_rotator_matrix.Base.{
  ℕ, ◌+◌, ◌<◌, ◌≤◌, ◌⊎◌, String, List, ltb, ◌≡◌, refl, Bool, true, false, ◌&&◌, some, [], ◌∷◌,
  arith, Bool-cases, inl, inr, if◌then◌else◌,
}
use shape_rotator_matrix.Dict.{Dict}
use shape_rotator_matrix.Exec.{ok, Exec, pure, ◌>>=◌, ◌>>◌}
use shape_rotator_matrix.World.{Lobby, Request, Audit, lobby_bot, World, Env, request, audit, clock}
use shape_rotator_matrix.World.Frames.{SameFiles}
use shape_rotator_matrix.Lobby.Rooms.{is_open}
use shape_rotator_matrix.Lobby.Process.{lobby_leave_room}

unfoldable pub is_stale : Env → ℕ → Lobby → Bool
unfolding is_open
is_stale e now meta = is_open meta && ltb (meta.created + e.lobby_timeout) now

abbrev pub timed_out : Lobby → Lobby
timed_out meta = record meta { closed = true; closed_reason = some "timeout" }

unfoldable pub cleanup_rooms : Env → ℕ → Dict Lobby → Exec World (Dict Lobby × Bool)
unfolding is_stale
cleanup_rooms e now [] = pure ([], false)
cleanup_rooms e now ((room, meta) ∷ rooms) =
    if is_stale e now meta
    then (do
      lobby_leave_room e room
      audit (Audit.lobby_timeout room meta.code)
      (rest, dirty) ← cleanup_rooms e now rooms
      pure ((room, timed_out meta) ∷ rest, true))
    else (do (rest, dirty) ← cleanup_rooms e now rooms; pure ((room, meta) ∷ rest, dirty))

unfoldable pub cleanup_stale_lobby : Env → Dict Lobby → Exec World (Dict Lobby × Bool)
cleanup_stale_lobby e state = do now ← clock e; cleanup_rooms e now state

-- What a sweep makes of the table at `now`, with the rooms that it gives up: an entry neither
-- promoted nor closed that is older than the limit is closed by timeout, any other stays.
pub data Swept (limit now : ℕ) : Dict Lobby → Dict Lobby → List String → Type 0 where
  done : Swept limit now [] [] []
  given_up :
      (room : String) (meta : Lobby) {rooms rooms' : Dict Lobby} {gone : List String}
      → meta.promoted ≡ false
      → meta.closed ≡ false
      → meta.created + limit < now
      → Swept limit now rooms rooms' gone
      → Swept limit now
          ((room, meta) ∷ rooms)
          ((room, record meta { closed = true; closed_reason = some "timeout" }) ∷ rooms')
          (room ∷ gone)
  stays :
      (room : String) (meta : Lobby) {rooms rooms' : Dict Lobby} {gone : List String}
      → (meta.promoted ≡ true) ⊎ (meta.closed ≡ true) ⊎ (now ≤ meta.created + limit)
      → Swept limit now rooms rooms' gone
      → Swept limit now ((room, meta) ∷ rooms) ((room, meta) ∷ rooms') gone

-- The requests that leave the rooms, newest first.
abbrev pub leaving : List String → List Request → List Request
leaving [] past = past
leaving (room ∷ gone) past = leaving gone (Request.leave lobby_bot room ∷ past)

abbrev pub is_some : List String → Bool
is_some [] = false
is_some (room ∷ gone) = true

stale_lem :
    (e : Env) (now : ℕ) (meta : Lobby)
    → is_stale e now meta ≡ true
    → (meta.promoted ≡ false) × (meta.closed ≡ false) × (meta.created + e.lobby_timeout < now)
unfolding is_stale is_open
stale_lem e now meta stale = ground arith

fresh_lem :
    (e : Env) (now : ℕ) (meta : Lobby)
    → is_stale e now meta ≡ false
    → (meta.promoted ≡ true) ⊎ (meta.closed ≡ true) ⊎ (now ≤ meta.created + e.lobby_timeout)
unfolding is_stale is_open
fresh_lem e now meta fresh = ground arith

cleanup_lem :
    (e : Env) (now : ℕ) (rooms : Dict Lobby) (w : World)
    → (rooms' : Dict Lobby) × (gone : List String) × (w' : World) × (cleanup_rooms e now rooms w
        ≡ (ok (rooms', is_some gone), w'))
      × Swept e.lobby_timeout now rooms rooms' gone
      × SameFiles w w'
      × (w'.trace ≡ leaving gone w.trace)
unfolding cleanup_rooms lobby_leave_room audit request ◌>>=◌
cleanup_lem e now [] w = ([], [], w, refl, done, ground arith, refl)
cleanup_lem e now ((room, meta) ∷ rooms) w = elim (Bool-cases (is_stale e now meta)) [
  | inl stale ↦
      let left : World = record w {
        trace = Request.leave lobby_bot room ∷ w.trace;
        log = Audit.lobby_timeout room meta.code ∷ w.log;
      } in
      let (rooms', gone, w', run, swept, same, sent) = cleanup_lem e now rooms left in
      let (unpromoted, unclosed, old) = stale_lem e now meta stale in
      rw stale (
        (room, timed_out meta) ∷ rooms',
        room ∷ gone,
        w',
        rw run,
        given_up room meta unpromoted unclosed old swept,
        ground arith,
        sent,
      )
  | inr fresh ↦
      let (rooms', gone, w', run, swept, same, sent) = cleanup_lem e now rooms w in
      rw fresh (
        (room, meta) ∷ rooms',
        gone,
        w',
        rw run,
        stays room meta (fresh_lem e now meta fresh) swept,
        same,
        sent,
      )
]

-- The sweep of lobby rooms returns, whatever the homeserver replies, and changes no file itself. The table that it
-- returns is the old one, in its order, with every entry closed by timeout that is neither promoted
-- nor closed and whose age is past the limit, and every other entry as it was. The lobby bot leaves
-- the rooms of just those entries, and the sweep says that the table changed where there is one.
pub cleanup_lobby-exact :
    (e : Env) (state : Dict Lobby) (w : World)
    → (state' : Dict Lobby) × (gone : List String) × (w' : World) × (cleanup_stale_lobby e state w
        ≡ (ok (state', is_some gone), w'))
      × Swept e.lobby_timeout (e.now w.trace) state state' gone
      × SameFiles w w'
      × (w'.trace ≡ leaving gone w.trace)
unfolding cleanup_stale_lobby clock ◌>>=◌
cleanup_lobby-exact e state w = cleanup_lem e (e.now w.trace) state w
