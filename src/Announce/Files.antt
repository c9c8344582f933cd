-- ===== src/Announce/Files.antt =====
-- The announcements keep what does not speak of their sidecar file.
use shape_rotator_matrix.Base.{String, List, [], ◌∷◌, Option, none, some}
use shape_rotator_matrix.Dict.{Dict}
use shape_rotator_matrix.Exec.Rules.{
  Preserves, Preserves-pure, Preserves-bind, Preserves-if, Preserves-modify, Preserves-gets,
  Preserves-skip,
}
use shape_rotator_matrix.World.{Lobby, Seen, World, Env}
use shape_rotator_matrix.World.Frames.{OnFiles, Preserves-send_msg}
use shape_rotator_matrix.Announce.{
  announce_users, announce_failure, announce_room, announce_rooms, announce_table, save_announced,
  announce_with, announce_lobby_events, seed, record_of,
}

module _ {P : World → Type 0} (q : OnFiles P) (e : Env)
    (on_announced : (w : World) (d : Dict Seen) → P w → P (record w { announced = some d })) where
  users_lem :
      (meta : Lobby) (users : List String) (r : Seen) → Preserves P (announce_users e meta users r)
  unfolding announce_users
  users_lem meta [] r = Preserves-pure _
  users_lem meta (mxid ∷ users) r = Preserves-if _ _ _ (users_lem meta users r) (
      Preserves-bind _ _ (Preserves-send_msg q e _ _)
        λ _. Preserves-bind _ _ (users_lem meta users _) λ r'. Preserves-pure _)

  failure_lem : (meta : Lobby) (r : Seen) → Preserves P (announce_failure e meta r)
  unfolding announce_failure
  failure_lem meta r =
      Preserves-if _ _ _
        (Preserves-bind _ _ (Preserves-if _ _ _ (Preserves-send_msg q e _ _) Preserves-skip)
          λ _. Preserves-pure _)
        (Preserves-pure _)

  rooms_lem : (rooms : Dict Lobby) (seen : Dict Seen) → Preserves P (announce_rooms e rooms seen)
  unfolding announce_rooms announce_room
  rooms_lem [] seen = Preserves-pure _
  rooms_lem ((room, meta) ∷ rooms) seen =
      Preserves-bind _ _
        (Preserves-if _ _ _ (Preserves-pure _) (
          Preserves-bind _ _ (users_lem meta meta.challenged (record_of room seen))
            λ (r1, d1). Preserves-bind _ _ (failure_lem meta r1) λ r2. Preserves-pure _))
        λ (seen', dirty). Preserves-bind _ _ (rooms_lem rooms seen') λ r. Preserves-pure _

  save_lem : (d : Dict Seen) → Preserves P (save_announced d)
  unfolding save_announced
  save_lem d = Preserves-modify _ (λ w h. on_announced w d h)

  with_lem :
      (lobby : Dict Lobby) (file : Option (Dict Seen)) → Preserves P (announce_with e lobby file)
  unfolding announce_table
  with_lem lobby none = save_lem (seed lobby [])
  with_lem lobby (some seen) =
      Preserves-bind _ _ (Preserves-bind _ _ (rooms_lem lobby seen) λ r. Preserves-pure _)
        λ r'. Preserves-if _ _ _ (save_lem _) Preserves-skip

  pub Preserves-announce_lobby_events : Preserves P (announce_lobby_events e)
  unfolding announce_lobby_events
  Preserves-announce_lobby_events = Preserves-if _ _ _ Preserves-skip (
      Preserves-bind _ _ (Preserves-gets _) λ lobby.
        Preserves-bind _ _ (Preserves-gets _)
          λ file. Preserves-if _ _ _ Preserves-skip (with_lem lobby file))
