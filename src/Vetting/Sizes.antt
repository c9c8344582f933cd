-- ===== src/Vetting/Sizes.antt =====
-- The vetting part of a round neither adds rooms to vetting.json nor drops any.
use shape_rotator_matrix.Base.{
  ℕ, suc, String, Bool, ◌≡◌, refl, ap, ◌∙◌, true, false, ◌||◌, Option, none, some, List, [], ◌∷◌,
  length, All, All-map, arith, Bool-cases, inl, inr, if◌then◌else◌,
}
use shape_rotator_matrix.Dict.{Dict, lookup, has, has-set, length-set_old, lookup_of_not-has}
use shape_rotator_matrix.Exec.{modify, skip, ◌>>=◌, when}
use shape_rotator_matrix.Exec.Returns.{
  Returns, Returns-pure, Returns-bind, Returns-if, Returns-seq, Returns-weaken,
}
use shape_rotator_matrix.Exec.Triples.{Triple, Triple-bind, Triple-returns, Triple-use, after}
use shape_rotator_matrix.World.{Vetting, World, Env, save_vetting}
use shape_rotator_matrix.World.Frames.{OnFiles}
use shape_rotator_matrix.Sync.{RoomSync, Joined}
use shape_rotator_matrix.Vetting.{
  RoomWork, room_work, add_work, is_open, iter_vetting_rooms, put_update, process_rooms, is_stale,
  cleanup_loop, cleanup_stale_vetting, vetting_round,
}
use shape_rotator_matrix.Vetting.Files.{Preserves-process_rooms, Preserves-cleanup}

-- The room is in the table.
abbrev IsKnown : Dict Vetting → RoomWork → Type 0
IsKnown state r = has r.room state ≡ true

add_lem :
    (state : Dict Vetting) (room : String) (rd : RoomSync) (rest : List RoomWork)
    → All (IsKnown state) rest
    → All (IsKnown state) (add_work room rd (lookup room state) rest)
add_lem state room rd rest h = elim (Bool-cases (has room state)) [
  | inl known ↦ found_lem (lookup room state) known
  | inr unknown ↦ rw (lookup_of_not-has room state unknown) (unfold add_work in h)
]
  where
    open_lem :
        (b : Bool) (meta : Vetting)
        → has room state ≡ true
        → All (IsKnown state) (if b then room_work room rd meta ∷ rest else rest)
    open_lem true meta known = (known, h)
    open_lem false meta known = h

    found_lem :
        (found : Option Vetting)
        → has room state ≡ true
        → All (IsKnown state) (add_work room rd found rest)
    found_lem none known = unfold add_work in h
    found_lem (some meta) known = unfold add_work in open_lem (is_open meta) meta known

iter_lem :
    (rooms : Joined) (state : Dict Vetting) → All (IsKnown state) (iter_vetting_rooms rooms state)
unfolding iter_vetting_rooms
iter_lem [] state = tt
iter_lem ((room, rd) ∷ rooms) state = add_lem state room rd _ (iter_lem rooms state)

put_length :
    (room : String) (updated : Option Vetting) (state : Dict Vetting × Bool)
    → has room state.0 ≡ true
    → length (put_update room updated state).0 ≡ length state.0
put_length room none state h = refl
put_length room (some meta) state h = length-set_old room meta state.0 h

put-IsKnown :
    (room : String) (updated : Option Vetting) (state : Dict Vetting × Bool) (rs : List RoomWork)
    → All (IsKnown state.0) rs
    → All (IsKnown (put_update room updated state).0) rs
put-IsKnown room none state rs h = h
put-IsKnown room (some meta) state rs h =
    All-map rs (λ r known. rw (has-set room r.room meta state.0) (ground (arith, known))) h

module _ (n : ℕ) where
  abbrev IsSized : World → Type 0
  IsSized w = length w.vetting ≡ n

  IsSized-OnFiles : OnFiles IsSized
  IsSized-OnFiles = record { on_trace = λ w t h. h; on_log = λ w l h. h; on_drawn = λ w k h. h }

module _ (e : Env) where
  rooms_length :
      (works : List RoomWork) (state : Dict Vetting × Bool)
      → All (IsKnown state.0) works
      → Returns (λ r. length r.0 ≡ length state.0) (process_rooms e works state)
  unfolding process_rooms
  rooms_length [] state h = Returns-pure _ refl
  rooms_length (r ∷ rs) state h = Returns-bind _ _ λ updated.
      Returns-weaken _ (λ out same. same ∙ put_length r.room updated state h.0)
        (rooms_length rs (put_update r.room updated state)
          (put-IsKnown r.room updated state rs h.1))

  cleanup_length :
      (now : ℕ) (rooms : Dict Vetting)
      → Returns (λ r. length r.0 ≡ length rooms) (cleanup_loop e now rooms)
  unfolding cleanup_loop
  cleanup_length now [] = Returns-pure _ refl
  cleanup_length now ((room, meta) ∷ rooms) =
      Returns-if (is_stale e now meta) _ _
        (λ _. Returns-bind _ _ λ _.
          Returns-bind _ _ λ _.
            Returns-seq _ _ (cleanup_length now rooms) λ r h. Returns-pure _ (ap (λ n. suc n) h))
        (λ _. Returns-seq _ _ (cleanup_length now rooms) λ r h. Returns-pure _ (ap (λ n. suc n) h))

  save_lem :
      (n : ℕ) (b : Bool) (state : Dict Vetting)
      → length state ≡ n
      → Triple (IsSized n) (when b (save_vetting state)) (λ _ w. IsSized n w) (IsSized n)
  unfolding save_vetting modify skip
  save_lem n true state h = record { run = λ w g. h }
  save_lem n false state h = record { run = λ w g. g }

  rest_lem :
      (n : ℕ) (works : List RoomWork) (state : Dict Vetting)
      → length state ≡ n
      → All (IsKnown state) works
      → Triple
          (IsSized n)
          (do
            (state', dirty) ← process_rooms e works (state, false)
            (state'', dirty') ← cleanup_stale_vetting e state'
            when (dirty || dirty') (save_vetting state''))
          (λ _ w. IsSized n w)
          (IsSized n)
  unfolding cleanup_stale_vetting
  rest_lem n works state size known =
      let q = IsSized-OnFiles n in
      Triple-bind _ _
        (Triple-returns (λ r. length r.0 ≡ length state) _
          (Preserves-process_rooms q e (λ w d h. h) works (state, false))
          (rooms_length works (state, false) known) (λ w h. h))
        λ r. Triple-use λ same.
          Triple-bind _ _
            (Triple-returns (λ r'. length r'.0 ≡ length r.0) _
              (Preserves-cleanup q e (λ w d h. h) r.0)
              (Returns-bind _ _ λ now. cleanup_length now r.0) (λ w h. h))
            λ r'. Triple-use λ same'. save_lem n (r.1 || r'.1) r'.0 (same' ∙ same ∙ size)

-- A round of the vetting part leaves as many rooms in vetting.json as there were.
pub length-vetting_round :
    (e : Env) (rooms : Joined) (w : World)
    → length (vetting_round e rooms w).1.vetting ≡ length w.vetting
unfolding vetting_round ◌>>=◌
length-vetting_round e rooms w =
    after {R = IsSized (length w.vetting)} _
      (rest_lem e (length w.vetting) (iter_vetting_rooms rooms w.vetting) w.vetting refl
        (iter_lem rooms w.vetting))
      w refl
