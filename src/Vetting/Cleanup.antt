-- ===== src/Vetting/Cleanup.antt =====
-- The sweep of stale vetting rooms.
use shape_rotator_matrix.Base.{
  ℕ, ◌+◌, ◌<◌, ◌≤◌, ◌⊎◌, String, ◌≡◌, refl, Bool, true, false, some, List, [], ◌∷◌, arith,
  Bool-cases, inl, inr,
}
use shape_rotator_matrix.Dict.{Dict}
use shape_rotator_matrix.Exec.{ok, ◌>>=◌}
use shape_rotator_matrix.World.{
  Vetting, World, Env, Request, Audit, main_bot, request, audit, clock,
}
use shape_rotator_matrix.World.Frames.{SameFiles}
use shape_rotator_matrix.Vetting.{
  is_open, is_stale, timed_out, leave_room, cleanup_loop, cleanup_stale_vetting,
}

-- What a sweep makes of the table at `now`, with the rooms that it gives up: an entry neither
-- promoted nor closed that is older than the limit is closed by timeout, any other stays.
pub data Swept (limit now : ℕ) : Dict Vetting → Dict Vetting → List String → Type 0 where
  done : Swept limit now [] [] []
  given_up :
      (room : String) (meta : Vetting) {rooms rooms' : Dict Vetting} {gone : List String}
      → meta.promoted ≡ false
      → meta.closed ≡ false
      → meta.created + limit < now
      → Swept limit now rooms rooms' gone
      → Swept limit now
          ((room, meta) ∷ rooms)
          ((room, record meta { closed = true; closed_reason = some "timeout" }) ∷ rooms')
          (room ∷ gone)
  stays :
      (room : String) (meta : Vetting) {rooms rooms' : Dict Vetting} {gone : List String}
      → (meta.promoted ≡ true) ⊎ (meta.closed ≡ true) ⊎ (now ≤ meta.created + limit)
      → Swept limit now rooms rooms' gone
      → Swept limit now ((room, meta) ∷ rooms) ((room, meta) ∷ rooms') gone

-- The requests that leave the rooms, newest first.
abbrev pub leaving : List String → List Request → List Request
leaving [] past = past
leaving (room ∷ gone) past = leaving gone (Request.leave main_bot room ∷ past)

abbrev pub is_some : List String → Bool
is_some [] = false
is_some (room ∷ gone) = true

stale_lem :
    (e : Env) (now : ℕ) (meta : Vetting)
    → is_stale e now meta ≡ true
    → (meta.promoted ≡ false) × (meta.closed ≡ false) × (meta.created + e.vetting_timeout < now)
unfolding is_stale is_open
stale_lem e now meta stale = ground arith

fresh_lem :
    (e : Env) (now : ℕ) (meta : Vetting)
    → is_stale e now meta ≡ false
    → (meta.promoted ≡ true) ⊎ (meta.closed ≡ true) ⊎ (now ≤ meta.created + e.vetting_timeout)
unfolding is_stale is_open
fresh_lem e now meta fresh = ground arith

cleanup_loop_lem :
    (e : Env) (now : ℕ) (rooms : Dict Vetting) (w : World)
    → (rooms' : Dict Vetting) × (gone : List String) × (w' : World) × (cleanup_loop e now rooms w
        ≡ (ok (rooms', is_some gone), w'))
      × Swept e.vetting_timeout now rooms rooms' gone
      × SameFiles w w'
      × (w'.trace ≡ leaving gone w.trace)
unfolding cleanup_loop leave_room audit request ◌>>=◌
cleanup_loop_lem e now [] w = ([], [], w, refl, done, ground arith, refl)
cleanup_loop_lem e now ((room, meta) ∷ rooms) w = elim (Bool-cases (is_stale e now meta)) [
  | inl stale ↦
      let left : World = record w {
        trace = Request.leave main_bot room ∷ w.trace;
        log = Audit.vetting_timeout meta.mxid room ∷ w.log;
      } in
      let (rooms', gone, w', run, swept, same, sent) = cleanup_loop_lem e now rooms left in
      let (unpromoted, unclosed, old) = stale_lem e now meta stale in
      rw stale (
        (room, timed_out meta) ∷ rooms',
        room ∷ gone,
        w',
        rw run,
        given_up room meta unpromoted unclosed old swept,
        ground arith,
        sent,
      )
  | inr fresh ↦
      let (rooms', gone, w', run, swept, same, sent) = cleanup_loop_lem e now rooms w in
      rw fresh (
        (room, meta) ∷ rooms',
        gone,
        w',
        rw run,
        stays room meta (fresh_lem e now meta fresh) swept,
        same,
        sent,
      )
]

-- The sweep returns, whatever the homeserver replies, and changes no file itself. The table that it
-- returns is the old one, in its order, with every entry closed by timeout that is neither promoted
-- nor closed and whose age is past the limit, and every other entry as it was. The main bot leaves
-- the rooms of just those entries, and the sweep says that the table changed where there is one.
pub cleanup-exact :
    (e : Env) (state : Dict Vetting) (w : World)
    → (state' : Dict Vetting) × (gone : List String) × (w' : World) × (cleanup_stale_vetting e state
          w
        ≡ (ok (state', is_some gone), w'))
      × Swept e.vetting_timeout (e.now w.trace) state state' gone
      × SameFiles w w'
      × (w'.trace ≡ leaving gone w.trace)
unfolding cleanup_stale_vetting clock ◌>>=◌
cleanup-exact e state w = cleanup_loop_lem e (e.now w.trace) state w
