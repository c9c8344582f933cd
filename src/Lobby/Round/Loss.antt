-- ===== src/Lobby/Round/Loss.antt =====
-- What a round does to a room that was opened while the round was waiting.
use shape_rotator_matrix.Base.{
  ℕ, String, ◌≡◌, Bool, true, false, none, some, List, [], ◌∷◌, All, arith, eq_iff,
}
use shape_rotator_matrix.Dict.{Dict, lookup, set, lookup-set, lookup-set_self}
use shape_rotator_matrix.Exec.{ok, ◌>>=◌}
use shape_rotator_matrix.Exec.Returns.{
  Returns, Returns-pure, Returns-bind, Returns-seq, Returns-if, returned,
}
use shape_rotator_matrix.World.{CodeEntry, Lobby, World, Env, save_codes, save_lobby, clock, audit}
use shape_rotator_matrix.Sync.{Joined}
use shape_rotator_matrix.Lobby.Join.{commit_join, new_lobby}
use shape_rotator_matrix.Lobby.Rooms.{LobbyWork}
use shape_rotator_matrix.Lobby.Rooms.Own.{IsOwn, iter_lobby_rooms-IsOwn}
use shape_rotator_matrix.Lobby.Resend.{takes_resends, resend_rooms, process_lobby_resends}
use shape_rotator_matrix.Lobby.Sweep.{is_stale, timed_out, cleanup_rooms, cleanup_stale_lobby}
use shape_rotator_matrix.Lobby.Round.{process_rooms, process_table}

module _ (e : Env) (self : String) (lost : String) where
  -- The table has no entry for the room.
  Lacks : Dict Lobby → Type 0
  Lacks state = lookup lost state ≡ none

  set-Lacks :
      (room : String) (meta old : Lobby) (table state : Dict Lobby)
      → lookup room table ≡ some old
      → Lacks table
      → Lacks state
      → Lacks (set room meta state)
  unfolding Lacks
  set-Lacks room meta old table state known gone h =
      rw lookup-set (ground (arith, eq_iff room lost))

  rooms-Lacks :
      (table : Dict Lobby) (works : List LobbyWork) (state : Dict Lobby) (dirty : Bool)
      → Lacks table
      → All (IsOwn table) works
      → Lacks state
      → Returns (λ r. Lacks r.0) (process_rooms e self works state dirty)
  unfolding process_rooms
  rooms-Lacks table [] state dirty gone own h = Returns-pure _ h
  rooms-Lacks table (r ∷ rs) state dirty gone own h = Returns-bind _ _ λ updated.
      rooms-Lacks table rs (set r.room updated state) true gone own.1
        (set-Lacks r.room updated r.meta table state own.0.known gone h)

  cons-Lacks :
      (room : String) (meta meta' : Lobby) (rooms rest : Dict Lobby)
      → Lacks ((room, meta) ∷ rooms)
      → (Lacks rooms → Lacks rest)
      → Lacks ((room, meta') ∷ rest)
  unfolding Lacks lookup
  cons-Lacks room meta meta' rooms rest gone h = ground (arith, h)

  tail-Lacks :
      (room : String) (meta : Lobby) (rooms : Dict Lobby)
      → Lacks ((room, meta) ∷ rooms)
      → Lacks rooms
  unfolding Lacks lookup
  tail-Lacks room meta rooms gone = ground arith

  resend-Lacks :
      (now : ℕ) (rooms : Dict Lobby)
      → Lacks rooms
      → Returns (λ r. Lacks r.0) (resend_rooms e now rooms)
  unfolding resend_rooms
  resend-Lacks now [] h = Returns-pure _ h
  resend-Lacks now ((room, meta) ∷ rooms) h =
      let rec = resend-Lacks now rooms (tail-Lacks room meta rooms h) in
      Returns-if (takes_resends meta) _ _
        (λ _. Returns-bind _ _ λ (meta', dirty).
          Returns-seq _ _ rec
            λ (rest, dirty') l. Returns-pure _ (cons-Lacks room meta meta' rooms rest h (λ _. l)))
        (λ _.
          Returns-seq _ _ rec
            λ (rest, dirty') l. Returns-pure _ (cons-Lacks room meta meta rooms rest h (λ _. l)))

  cleanup-Lacks :
      (now : ℕ) (rooms : Dict Lobby)
      → Lacks rooms
      → Returns (λ r. Lacks r.0) (cleanup_rooms e now rooms)
  unfolding cleanup_rooms
  cleanup-Lacks now [] h = Returns-pure _ h
  cleanup-Lacks now ((room, meta) ∷ rooms) h =
      let rec = cleanup-Lacks now rooms (tail-Lacks room meta rooms h) in
      Returns-if (is_stale e now meta) _ _
        (λ _. Returns-bind _ _ λ _. Returns-bind _ _ λ _. Returns-seq _ _ rec λ (rest, dirty') l.
          Returns-pure _ (cons-Lacks room meta (timed_out meta) rooms rest h (λ _. l)))
        (λ _.
          Returns-seq _ _ rec
            λ (rest, dirty') l. Returns-pure _ (cons-Lacks room meta meta rooms rest h (λ _. l)))

  table-Lacks :
      (rooms : Joined) (state : Dict Lobby)
      → Lacks state
      → Returns (λ r. Lacks r.0) (process_table e self rooms state)
  unfolding process_table process_lobby_resends cleanup_stale_lobby
  table-Lacks rooms state h =
      Returns-seq _ _
        (rooms-Lacks state _ state false h (iter_lobby_rooms-IsOwn self rooms state) h)
        λ (s1, d1) h1.
          Returns-seq _ _ (Returns-bind _ _ λ now. resend-Lacks now s1 h1) λ (s2, d2) h2.
            Returns-seq _ _ (Returns-bind _ _ λ now. cleanup-Lacks now s2 h2)
              λ (s3, d3) h3. Returns-pure _ h3

-- A room that /join/api opens after a round has loaded the table of lobby rooms, and before the
-- round saves it, is recorded and then lost: the save of the round drops the entry.
pub opened_room_lost :
    (e : Env) (self : String) (rooms : Joined) (codes : Dict CodeEntry)
    (code title keyword room alias : String) (state state' : Dict Lobby) (dirty : Bool)
    (w w' : World)
    → lookup room state ≡ none
    → process_table e self rooms state w ≡ (ok (state', dirty), w')
    → let opened = (commit_join e codes code title keyword (room, alias) w').1 in
      (lookup room opened.lobby ≡ some (new_lobby alias code (e.now w'.trace) title keyword))
      × (lookup room (save_lobby state' opened).1.lobby ≡ none)
unfolding commit_join save_codes save_lobby clock audit ◌>>=◌ Lacks
opened_room_lost e self rooms codes code title keyword room alias state state' dirty w w' gone run =
    (
      lookup-set_self room _ _,
      returned {Q = λ r. lookup room r.0 ≡ none} (process_table e self rooms state)
          (table-Lacks e self room rooms state gone) run,
    )
