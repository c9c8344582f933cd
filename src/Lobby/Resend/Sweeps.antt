-- ===== src/Lobby/Resend/Sweeps.antt =====
-- A whole sweep for resends, against a description of what it makes of the table.
use shape_rotator_matrix.Base.{
  ℕ, String, ◌≡◌, refl, subst, ◌⊎◌, inl, inr, Bool, true, false, ◌&&◌, [], ◌∷◌, elem, arith,
  Bool-cases,
}
use shape_rotator_matrix.Text.{is_empty}
use shape_rotator_matrix.Dict.{Dict}
use shape_rotator_matrix.Exec.{ok, ◌>>=◌}
use shape_rotator_matrix.Exec.Returns.{Returns, Returns-pure, Returns-seq, Returns-if, returned}
use shape_rotator_matrix.World.{Lobby, World, Env, clock}
use shape_rotator_matrix.Lobby.Rooms.{is_open}
use shape_rotator_matrix.Lobby.Resend.{is_due, resend_rooms, takes_resends, process_lobby_resends}
use shape_rotator_matrix.Lobby.Resend.Counts.{
  IsDue, Counted, OnlyCounters, CountedAll, due_lem, due_of_IsDue, resend_users_lem,
}

-- The entry of a room that takes resends: each challenged user that is due has the count one and the
-- time of the sweep, and everything else is as it was.
pub record RoomResent (e : Env) (now : ℕ) (meta meta' : Lobby) : Type 0 where
  pub rest : OnlyCounters meta meta'
  pub again :
      (mxid : String)
      → elem mxid meta.challenged ≡ true
      → IsDue e now meta mxid
      → Counted now true meta meta' mxid
  pub others :
      (mxid : String)
      → (elem mxid meta.challenged ≡ false) ⊎ (¬ IsDue e now meta mxid)
      → Counted now false meta meta' mxid

-- The table before and after: an entry that is promoted, closed or without a challenge stays.
pub data Resent (e : Env) (now : ℕ) : Dict Lobby → Dict Lobby → Type 0 where
  done : Resent e now [] []
  stays :
      (room : String) (meta : Lobby) {rooms rooms' : Dict Lobby}
      → (meta.promoted ≡ true)
        ⊎ (meta.closed ≡ true)
        ⊎ (is_empty meta.title ≡ true)
        ⊎ (is_empty meta.keyword ≡ true)
      → Resent e now rooms rooms'
      → Resent e now ((room, meta) ∷ rooms) ((room, meta) ∷ rooms')
  resent :
      (room : String) (meta meta' : Lobby) {rooms rooms' : Dict Lobby}
      → meta.promoted ≡ false
      → meta.closed ≡ false
      → is_empty meta.title ≡ false
      → is_empty meta.keyword ≡ false
      → RoomResent e now meta meta'
      → Resent e now rooms rooms'
      → Resent e now ((room, meta) ∷ rooms) ((room, meta') ∷ rooms')

takes_lem :
    (meta : Lobby)
    → takes_resends meta ≡ true
    → (meta.promoted ≡ false)
      × (meta.closed ≡ false)
      × (is_empty meta.title ≡ false)
      × (is_empty meta.keyword ≡ false)
unfolding takes_resends is_open
takes_lem meta takes = ground arith

leaves_lem :
    (meta : Lobby)
    → takes_resends meta ≡ false
    → (meta.promoted ≡ true)
      ⊎ (meta.closed ≡ true)
      ⊎ (is_empty meta.title ≡ true)
      ⊎ (is_empty meta.keyword ≡ true)
unfolding takes_resends is_open
leaves_lem meta leaves = ground arith

not_due_lem :
    (e : Env) (now : ℕ) (meta : Lobby) (mxid : String)
    → (elem mxid meta.challenged ≡ false) ⊎ (¬ IsDue e now meta mxid)
    → (elem mxid meta.challenged && is_due e now meta mxid) ≡ false
not_due_lem e now meta mxid (inl absent) = rw absent refl
not_due_lem e now meta mxid (inr fresh) = elim (Bool-cases (is_due e now meta mxid)) [
  | inl due ↦ absurd (fresh (due_lem e now meta mxid due))
  | inr other ↦ ground (arith, other)
]

room_lem :
    (e : Env) (now : ℕ) (meta meta' : Lobby)
    → CountedAll e now meta.challenged meta meta'
    → RoomResent e now meta meta'
room_lem e now meta meta' h = record {
  rest = h.0;
  again = λ mxid there due.
      subst (λ b. Counted now b meta meta' mxid) {y = true}
        (rw (there, due_of_IsDue e now meta mxid due) refl) (h.1 mxid);
  others = λ mxid out.
      subst (λ b. Counted now b meta meta' mxid) (not_due_lem e now meta mxid out) (h.1 mxid);
}

rooms_lem :
    (e : Env) (now : ℕ) (rooms : Dict Lobby)
    → Returns (λ r. Resent e now rooms r.0) (resend_rooms e now rooms)
unfolding resend_rooms
rooms_lem e now [] = Returns-pure _ done
rooms_lem e now ((room, meta) ∷ rooms) =
    Returns-if (takes_resends meta) _ _
      (λ takes.
        let (unpromoted, unclosed, title, keyword) = takes_lem meta takes in
        Returns-seq _ _ (resend_users_lem e now room meta.challenged meta) (λ (meta', dirty) k.
          Returns-seq _ _ (rooms_lem e now rooms) (λ (rest, dirty') l. Returns-pure _ (
            resent room meta meta' unpromoted unclosed title keyword (room_lem e now meta meta' k)
              l))))
      (λ leaves.
        Returns-seq _ _ (rooms_lem e now rooms)
          (λ (rest, dirty') l. Returns-pure _ (stays room meta (leaves_lem meta leaves) l)))

-- A sweep for resends that returns makes this of the table: in a room that is neither promoted nor
-- closed and has a title and a keyword, each challenged user that was sent the challenge at least the
-- waiting time ago, never again since, and has all tries left is counted as sent again now, with the
-- count one; every other counter and every other field and entry is as it was. So nobody is counted
-- twice.
pub resends-Resent :
    (e : Env) (state state' : Dict Lobby) (dirty : Bool) (w w' : World)
    → process_lobby_resends e state w ≡ (ok (state', dirty), w')
    → Resent e (e.now w.trace) state state'
unfolding process_lobby_resends clock ◌>>=◌
resends-Resent e state state' dirty w w' run =
    returned {Q = λ r. Resent e (e.now w.trace) state r.0} (resend_rooms e (e.now w.trace) state)
      (rooms_lem e (e.now w.trace) state) run
