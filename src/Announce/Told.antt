-- ===== src/Announce/Told.antt =====
-- What has been announced, and what announcements add to it.
use shape_rotator_matrix.Base.{
  String, ◌≡◌, refl, ap, subst, true, false, not, ◌&&◌, ◌||◌, List, [], ◌∷◌, ◌++◌, ◌==◌, elem, All,
  All-map, arith, eq_iff, eq_refl, Bool-cases, inl, inr,
}
use shape_rotator_matrix.Dict.{
  Dict, set, has, lookup-set, has-set, lookup_of_not-has, lookup_of_has, set_same,
}
use shape_rotator_matrix.Exec.{ok, ◌>>=◌}
use shape_rotator_matrix.Exec.Returns.{
  Returns, Returns-pure, Returns-bind, Returns-seq, Returns-if, Returns-weaken,
}
use shape_rotator_matrix.World.{Lobby, Seen, World, Env}
use shape_rotator_matrix.Announce.{
  failed_now, seen_of, note_started, announce_users, announce_failure, record_of, announce_room,
  announce_rooms,
}

-- Everything that happened in the room has been announced.
pub record IsTold (r : Seen) (meta : Lobby) : Type 0 where
  started : All (λ m. elem m r.started ≡ true) meta.challenged
  failure : (not (failed_now meta) || r.failed) ≡ true

pub record Covered (seen : Dict Seen) (room : String) (meta : Lobby) : Type 0 where
  pub known : has room seen ≡ true
  pub told : IsTold (record_of room seen) meta

abbrev pub AllCovered : Dict Seen → Dict Lobby → Type 0
AllCovered seen = All (λ r. Covered seen r.0 r.1)

module _ (e : Env) where
  users_quiet :
      (meta : Lobby) (users : List String) (r : Seen) (v : World)
      → All (λ m. elem m r.started ≡ true) users
      → announce_users e meta users r v ≡ (ok (r, false), v)
  unfolding announce_users ◌>>=◌
  users_quiet meta [] r v h = refl
  users_quiet meta (m ∷ users) r v h = rw h.0 (users_quiet meta users r v h.1)

  failure_quiet :
      (meta : Lobby) (r : Seen) (v : World)
      → (not (failed_now meta) || r.failed) ≡ true
      → announce_failure e meta r v ≡ (ok (r, false), v)
  unfolding announce_failure ◌>>=◌
  failure_quiet meta r v h =
      let quiet : (failed_now meta && not r.failed) ≡ false = ground arith in rw quiet refl

  room_quiet :
      (room : String) (meta : Lobby) (seen : Dict Seen) (v : World)
      → Covered seen room meta
      → announce_room e room meta seen v ≡ (ok (seen, false), v)
  unfolding announce_room ◌>>=◌
  room_quiet room meta seen v h =
      let (r, found) = lookup_of_has room seen h.known in
      rw
        (
          h.known,
          users_quiet meta meta.challenged (record_of room seen) v h.told.started,
          failure_quiet meta (record_of room seen) v h.told.failure,
        )
        (ap (λ d. (ok (d, false), v)) (set_same room (record_of room seen) seen (rw found refl)))

  pub rooms_quiet :
      (rooms : Dict Lobby) (seen : Dict Seen) (v : World)
      → AllCovered seen rooms
      → announce_rooms e rooms seen v ≡ (ok (seen, false), v)
  unfolding announce_rooms ◌>>=◌
  rooms_quiet [] seen v h = refl
  rooms_quiet ((room, meta) ∷ rooms) seen v h =
      rw (room_quiet room meta seen v h.0, rooms_quiet rooms seen v h.1) refl

-- The second record has all that the first has.
pub record IsMore (r r' : Seen) : Type 0 where
  started : (m : String) → elem m r.started ≡ true → elem m r'.started ≡ true
  failed : r.failed ≡ true → r'.failed ≡ true

IsMore-refl : (r : Seen) → IsMore r r
IsMore-refl r = record { started = λ m h. h; failed = λ h. h }

pub record Grows (seen seen' : Dict Seen) : Type 0 where
  known : (k : String) → has k seen ≡ true → has k seen' ≡ true
  more : (k : String) → IsMore (record_of k seen) (record_of k seen')

Grows-refl : (seen : Dict Seen) → Grows seen seen
Grows-refl seen = record { known = λ k h. h; more = λ k. IsMore-refl _ }

elem-note_started :
    (k m : String) (xs : List String) → elem k (xs ++ m ∷ []) ≡ (elem k xs || m == k)
elem-note_started k m [] = ground arith
elem-note_started k m (x ∷ xs) = ground (arith, elem-note_started k m xs)

module _ (e : Env) (meta : Lobby) where
  users_lem :
      (users : List String) (r : Seen)
      → Returns
          (λ p. IsMore r p.0 × All (λ m. elem m p.0.started ≡ true) users)
          (announce_users e meta users r)
  unfolding announce_users
  users_lem [] r = Returns-pure _ (IsMore-refl r, tt)
  users_lem (m ∷ users) r =
      Returns-if (elem m r.started) _ _
        (λ known. Returns-weaken _ (λ p h. (h.0, (h.0.started m known, h.1))) (users_lem users r))
        λ _. Returns-bind _ _ λ _.
          Returns-seq _ _ (users_lem users (note_started m r)) λ (r', dirty) h. Returns-pure _ (
            record {
              started = λ k j. h.0.started k (rw (elem-note_started k m r.started, j) refl);
              failed = h.0.failed;
            },
            (h.0.started m (rw (elem-note_started m m r.started) (ground (arith, eq_refl m))), h.1),
          )

  failure_lem :
      (r : Seen)
      → Returns
          (λ p. IsMore r p.0 × ((not (failed_now meta) || p.0.failed) ≡ true))
          (announce_failure e meta r)
  unfolding announce_failure
  failure_lem r =
      Returns-if (failed_now meta && not r.failed) _ _
        (λ _.
          Returns-bind _ _
            λ _. Returns-pure _ (record { started = λ m h. h; failed = λ h. refl }, ground arith))
        (λ quiet. Returns-pure _ (IsMore-refl r, ground arith))

set-Grows :
    (room : String) (r : Seen) (seen : Dict Seen)
    → IsMore (record_of room seen) r
    → Grows seen (set room r seen)
set-Grows room r seen h = record {
  known = λ k j. rw (has-set room k r seen, j) (ground arith);
  more = λ k. elim (Bool-cases (room == k)) [
    | inl same ↦
        rw (lookup-set room k r seen, same)
          (subst (λ j. IsMore (record_of j seen) r) ((eq_iff room k).0 same) h)
    | inr apart ↦ rw (lookup-set room k r seen, apart) (IsMore-refl _)
  ];
}

set-Covered :
    (room : String) (meta : Lobby) (r : Seen) (seen : Dict Seen)
    → IsTold r meta
    → Covered (set room r seen) room meta
set-Covered room meta r seen h = record {
  known = rw (has-set room room r seen, eq_refl room) refl;
  told = rw (lookup-set room room r seen, eq_refl room) h;
}

Covered-Grows :
    (room : String) (meta : Lobby) (seen seen' : Dict Seen)
    → Grows seen seen'
    → Covered seen room meta
    → Covered seen' room meta
Covered-Grows room meta seen seen' g h = record {
  known = g.known room h.known;
  told = record {
    started = All-map _ (g.more room).started h.told.started;
    failure = ground (arith, (g.more room).failed);
  };
}

All-elem : (xs : List String) → All (λ m. elem m xs ≡ true) xs
All-elem [] = tt
All-elem (x ∷ xs) = (ground (arith, eq_refl x), All-map xs (λ m h. ground arith) (All-elem xs))

module _ (e : Env) where
  room_lem :
      (room : String) (meta : Lobby) (seen : Dict Seen)
      → Returns (λ p. Grows seen p.0 × Covered p.0 room meta) (announce_room e room meta seen)
  unfolding announce_room seen_of
  room_lem room meta seen =
      Returns-if (not (has room seen) && meta.closed) _ _
        (λ skipped. Returns-pure _ (
          set-Grows room (seen_of meta) seen (
              rw (lookup_of_not-has room seen (ground arith))
                (record { started = λ m h. ground arith; failed = λ h. ground arith })),
          set-Covered room meta (seen_of meta) seen
              (record { started = All-elem meta.challenged; failure = ground arith }),
        ))
        λ _. Returns-seq _ _ (users_lem e meta meta.challenged (record_of room seen)) λ (r1, d1) h1.
          Returns-seq _ _ (failure_lem e meta r1) λ (r2, d2) h2. Returns-pure _ (
            set-Grows room r2 seen (record {
              started = λ m j. h2.0.started m (h1.0.started m j);
              failed = λ j. h2.0.failed (h1.0.failed j);
            }),
            set-Covered room meta r2 seen
                (record { started = All-map _ h2.0.started h1.1; failure = h2.1 }),
          )

  pub rooms_lem :
      (rooms : Dict Lobby) (seen : Dict Seen)
      → Returns (λ p. Grows seen p.0 × AllCovered p.0 rooms) (announce_rooms e rooms seen)
  unfolding announce_rooms
  rooms_lem [] seen = Returns-pure _ (Grows-refl seen, tt)
  rooms_lem ((room, meta) ∷ rooms) seen =
      Returns-seq _ _ (room_lem room meta seen) λ (seen1, d1) h1.
        Returns-seq _ _ (rooms_lem rooms seen1) λ (seen2, d2) h2. Returns-pure _ (
          record {
            known = λ k j. h2.0.known k (h1.0.known k j);
            more = λ k. record {
              started = λ m j. (h2.0.more k).started m ((h1.0.more k).started m j);
              failed = λ j. (h2.0.more k).failed ((h1.0.more k).failed j);
            };
          },
          (Covered-Grows room meta seen1 seen2 h2.0 h1.1, h2.1),
        )
