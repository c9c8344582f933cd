-- ===== src/Announce/Once.antt =====
-- What a second pass over the same lobby rooms announces.
use shape_rotator_matrix.Base.{
  String, ◌≡◌, refl, ◌∙◌, Bool, true, false, [], ◌∷◌, ◌==◌, All, All-map, arith, eq_iff, eq_refl,
  Bool-cases, inl, inr,
}
use shape_rotator_matrix.Dict.{Dict, lookup, has}
use shape_rotator_matrix.Exec.{ok, ◌>>=◌}
use shape_rotator_matrix.Exec.Returns.{Returns, Returns-pure, Returns-seq, returned}
use shape_rotator_matrix.World.{Lobby, Seen, World, Env}
use shape_rotator_matrix.Announce.Told.{AllCovered, rooms_quiet, rooms_lem}
use shape_rotator_matrix.Announce.{drop_gone, announce_table}

-- Dropping the records of rooms that are gone leaves those of the other rooms.
drop_gone_lem :
    (lobby : Dict Lobby) (seen : Dict Seen) (k : String)
    → has k lobby ≡ true
    → (lookup k (drop_gone lobby seen).0 ≡ lookup k seen)
      × (has k (drop_gone lobby seen).0 ≡ has k seen)
unfolding drop_gone lookup has
drop_gone_lem lobby [] k h = (refl, refl)
drop_gone_lem lobby ((room, r) ∷ seen) k h =
    let rec = drop_gone_lem lobby seen k h in
    elim (Bool-cases (has room lobby)) [
      | inl here ↦ rw here (rw rec.0 refl, rw rec.1 refl)
      | inr gone ↦
          let apart : (room == k) ≡ false = ground (arith, eq_iff room k) in rw (gone, apart) rec
    ]

drop_gone_twice :
    (lobby : Dict Lobby) (seen : Dict Seen)
    → drop_gone lobby (drop_gone lobby seen).0 ≡ ((drop_gone lobby seen).0, false)
unfolding drop_gone
drop_gone_twice lobby [] = refl
drop_gone_twice lobby ((room, r) ∷ seen) = elim (Bool-cases (has room lobby)) [
  | inl here ↦ rw (here, drop_gone_twice lobby seen, here) refl
  | inr gone ↦ rw gone (drop_gone_twice lobby seen)
]

All-has : (rooms : Dict Lobby) → All (λ r. has r.0 rooms ≡ true) rooms
unfolding has
All-has [] = tt
All-has ((room, meta) ∷ rooms) =
    (ground (arith, eq_refl room), All-map rooms (λ r h. ground arith) (All-has rooms))

drop_gone-Covered :
    (lobby rooms : Dict Lobby) (seen : Dict Seen)
    → All (λ r. has r.0 lobby ≡ true) rooms
    → AllCovered seen rooms
    → AllCovered (drop_gone lobby seen).0 rooms
drop_gone-Covered lobby [] seen here h = tt
drop_gone-Covered lobby ((room, meta) ∷ rooms) seen here h =
    let same = drop_gone_lem lobby seen room here.0 in
    (
      record { known = same.1 ∙ h.0.known; told = rw same.0 h.0.told },
      drop_gone-Covered lobby rooms seen here.1 h.1,
    )

table_lem :
    (e : Env) (lobby : Dict Lobby) (seen : Dict Seen)
    → Returns
        (λ p. AllCovered p.0 lobby × (drop_gone lobby p.0 ≡ (p.0, false)))
        (announce_table e lobby seen)
unfolding announce_table
table_lem e lobby seen = Returns-seq _ _ (rooms_lem e lobby seen) λ (seen', dirty) h.
    Returns-pure _
      (drop_gone-Covered lobby lobby seen' (All-has lobby) h.1, drop_gone_twice lobby seen')

-- The table that a pass returns makes another pass over the same lobby rooms silent, whenever it
-- comes: no message is sent, nothing changes, and the table counts as clean. So no start and no
-- failure is announced twice once the table is saved.
pub announce_table_twice :
    (e : Env) (lobby : Dict Lobby) (seen seen' : Dict Seen) (dirty : Bool) (w w' v : World)
    → announce_table e lobby seen w ≡ (ok (seen', dirty), w')
    → announce_table e lobby seen' v ≡ (ok (seen', false), v)
unfolding announce_table ◌>>=◌
announce_table_twice e lobby seen seen' dirty w w' v run =
    let told =
      returned {Q = λ p. AllCovered p.0 lobby × (drop_gone lobby p.0 ≡ (p.0, false))}
        (announce_table e lobby seen) (table_lem e lobby seen) run in
    rw (rooms_quiet e lobby seen' v told.0, told.1) refl
