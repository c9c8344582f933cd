-- ===== src/Lobby/Round/Sizes.antt =====
-- A round of the lobby loop neither adds rooms to lobby.json nor drops any.
use shape_rotator_matrix.Base.{
  ℕ, suc, String, Bool, ◌≡◌, refl, ap, ◌∙◌, true, false, List, [], ◌∷◌, length, All, All-map, arith,
}
use shape_rotator_matrix.Dict.{Dict, set, has, has-set, length-set_old, has_of_lookup}
use shape_rotator_matrix.Exec.{gets, modify, skip, ◌>>=◌, when}
use shape_rotator_matrix.Exec.Rules.{Preserves-bind}
use shape_rotator_matrix.Exec.Returns.{
  Returns, Returns-pure, Returns-bind, Returns-if, Returns-seq, Returns-weaken,
}
use shape_rotator_matrix.Exec.Triples.{Triple, Triple-bind, Triple-returns, Triple-use, after}
use shape_rotator_matrix.World.{Lobby, World, Env, save_lobby}
use shape_rotator_matrix.World.Frames.{OnFiles}
use shape_rotator_matrix.Sync.{Joined}
use shape_rotator_matrix.Lobby.Rooms.{LobbyWork, iter_lobby_rooms}
use shape_rotator_matrix.Lobby.Rooms.Own.{iter_lobby_rooms-IsOwn}
use shape_rotator_matrix.Lobby.Resend.{takes_resends, resend_rooms, process_lobby_resends}
use shape_rotator_matrix.Lobby.Sweep.{is_stale, cleanup_rooms, cleanup_stale_lobby}
use shape_rotator_matrix.Lobby.Round.{process_rooms, process_table, lobby_round}
use shape_rotator_matrix.Lobby.Round.Files.{Preserves-accept_invites, Preserves-process_table}

-- The room is in the table.
abbrev IsKnown : Dict Lobby → LobbyWork → Type 0
IsKnown state r = has r.room state ≡ true

set-IsKnown :
    (room : String) (meta : Lobby) (state : Dict Lobby) (rs : List LobbyWork)
    → All (IsKnown state) rs
    → All (IsKnown (set room meta state)) rs
set-IsKnown room meta state rs h =
    All-map rs (λ r known. rw (has-set room r.room meta state) (ground (arith, known))) h

module _ (e : Env) where
  rooms_length :
      (self : String) (works : List LobbyWork) (state : Dict Lobby) (dirty : Bool)
      → All (IsKnown state) works
      → Returns (λ r. length r.0 ≡ length state) (process_rooms e self works state dirty)
  unfolding process_rooms
  rooms_length self [] state dirty h = Returns-pure _ refl
  rooms_length self (r ∷ rs) state dirty h = Returns-bind _ _ λ updated.
      Returns-weaken _ (λ out same. same ∙ length-set_old r.room updated state h.0)
        (rooms_length self rs (set r.room updated state) true
          (set-IsKnown r.room updated state rs h.1))

  resend_length :
      (now : ℕ) (rooms : Dict Lobby)
      → Returns (λ r. length r.0 ≡ length rooms) (resend_rooms e now rooms)
  unfolding resend_rooms
  resend_length now [] = Returns-pure _ refl
  resend_length now ((room, meta) ∷ rooms) =
      Returns-if (takes_resends meta) _ _
        (λ _.
          Returns-bind _ _ λ u.
            Returns-seq _ _ (resend_length now rooms) λ r h. Returns-pure _ (ap (λ n. suc n) h))
        (λ _. Returns-seq _ _ (resend_length now rooms) λ r h. Returns-pure _ (ap (λ n. suc n) h))

  sweep_length :
      (now : ℕ) (rooms : Dict Lobby)
      → Returns (λ r. length r.0 ≡ length rooms) (cleanup_rooms e now rooms)
  unfolding cleanup_rooms
  sweep_length now [] = Returns-pure _ refl
  sweep_length now ((room, meta) ∷ rooms) =
      Returns-if (is_stale e now meta) _ _
        (λ _. Returns-bind _ _ λ _.
          Returns-bind _ _
            λ _. Returns-seq _ _ (sweep_length now rooms) λ r h. Returns-pure _ (ap (λ n. suc n) h))
        (λ _. Returns-seq _ _ (sweep_length now rooms) λ r h. Returns-pure _ (ap (λ n. suc n) h))

  table_length :
      (self : String) (rooms : Joined) (state : Dict Lobby)
      → Returns (λ r. length r.0 ≡ length state) (process_table e self rooms state)
  unfolding process_table process_lobby_resends cleanup_stale_lobby
  table_length self rooms state =
      let known : All (IsKnown state) (iter_lobby_rooms self rooms state) =
        All-map _ (λ r own. has_of_lookup r.room r.meta state own.known)
          (iter_lobby_rooms-IsOwn self rooms state) in
      Returns-seq _ _ (rooms_length self _ state false known) λ r same.
        Returns-seq _ _ (Returns-bind _ _ λ now. resend_length now r.0) λ r' same'.
          Returns-seq _ _ (Returns-bind _ _ λ now. sweep_length now r'.0)
            λ r'' same''. Returns-pure _ (same'' ∙ same' ∙ same)

module _ (e : Env) (n : ℕ) where
  abbrev IsSized : World → Type 0
  IsSized w = length w.lobby ≡ n

  IsSized-OnFiles : OnFiles IsSized
  IsSized-OnFiles = record { on_trace = λ w t h. h; on_log = λ w l h. h; on_drawn = λ w k h. h }

  save_lem :
      (b : Bool) (state : Dict Lobby)
      → length state ≡ n
      → Triple IsSized (when b (save_lobby state)) (λ _ w. IsSized w) IsSized
  unfolding save_lobby modify skip
  save_lem true state h = record { run = λ w g. h }
  save_lem false state h = record { run = λ w g. g }

  from_table :
      (self : String) (rooms : Joined) (w : World)
      → IsSized w
      → IsSized
          ((do
            state ← gets (λ v. v.lobby)
            (state', dirty) ← process_table e self rooms state
            when dirty (save_lobby state'))
            w).1
  unfolding ◌>>=◌
  from_table self rooms w size =
      after {R = IsSized} _
        (Triple-bind _ _
          (Triple-returns (λ r. length r.0 ≡ length w.lobby) _
            (Preserves-process_table IsSized-OnFiles e (λ v d h. h) self rooms w.lobby)
            (table_length e self rooms w.lobby) (λ v h. h))
          λ r. Triple-use λ same. save_lem r.1 r.0 (same ∙ size))
        w size

-- A round of the lobby loop leaves as many rooms in lobby.json as there were.
pub length-lobby_round :
    (e : Env) (self : String) (rooms : Joined) (invites : List String) (w : World)
    → length (lobby_round e self rooms invites w).1.lobby ≡ length w.lobby
unfolding lobby_round
length-lobby_round e self rooms invites w =
    let n = length w.lobby in
    (Preserves-bind _ _ (Preserves-accept_invites (IsSized-OnFiles e n) e (λ v d h. h) invites)
        λ _. record { from = λ v h. from_table e n self rooms v h }).from
      w refl
