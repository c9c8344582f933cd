-- ===== src/Vetting/Files.antt =====
-- The vetting part of a round keeps what does not speak of the signup table and the vetting rooms.
use shape_rotator_matrix.Base.{ℕ, String, List, [], ◌∷◌, Option, Bool}
use shape_rotator_matrix.Dict.{Dict}
use shape_rotator_matrix.Exec.{Exec}
use shape_rotator_matrix.Exec.Rules.{
  Preserves, Preserves-pure, Preserves-bind, Preserves-if, Preserves-modify, Preserves-gets,
  Preserves-skip,
}
use shape_rotator_matrix.World.{CodeEntry, Vetting, World, Env, save_vetting}
use shape_rotator_matrix.World.Frames.{
  OnFiles, Preserves-request, Preserves-send_msg, Preserves-audit, Preserves-clock,
}
use shape_rotator_matrix.Welcome.Files.{Preserves-invite_to_children, Preserves-mint_welcome}
use shape_rotator_matrix.Haiku.{Verdict, passed, because}
use shape_rotator_matrix.Sync.{Event, Joined}
use shape_rotator_matrix.Vetting.{
  grant, promote, close_exhausted, leave_room, vet_message, vet_messages, note_join,
  process_vetting_room, cleanup_loop, cleanup_stale_vetting, RoomWork, process_rooms, vetting_round,
  spend_try,
}

module _ {P : World → Type 0} (q : OnFiles P) (e : Env)
    (on_signup : (w : World) (d : Dict CodeEntry) → P w → P (record w { signup = d })) where
  leave_lem : (room : String) → Preserves P (leave_room e room)
  unfolding leave_room
  leave_lem room = Preserves-bind _ _ (Preserves-request q e _) λ _. Preserves-skip

  pub grant-Preserves :
      (room : String) (meta : Vetting) (text : String) → Preserves P (grant e room meta text)
  unfolding grant
  grant-Preserves room meta text = Preserves-bind _ _ (Preserves-clock q e) λ now.
      Preserves-bind _ _ (Preserves-invite_to_children q e meta.mxid) λ children.
        Preserves-bind _ _ (Preserves-mint_welcome q e on_signup meta.mxid) λ url.
          Preserves-bind _ _ (Preserves-send_msg q e _ _) λ _.
            Preserves-bind _ _ (Preserves-if _ _ _ (Preserves-send_msg q e _ _) Preserves-skip)
              λ _. Preserves-bind _ _ (Preserves-audit q _) λ _. Preserves-pure _

  promote_lem :
      (room : String) (meta : Vetting) (text : String) → Preserves P (promote e room meta text)
  unfolding promote
  promote_lem room meta text = Preserves-bind _ _ (Preserves-request q e _) λ reply.
      Preserves-if _ _ _ (grant-Preserves room meta text)
        (Preserves-bind _ _ (Preserves-audit q _) λ _. Preserves-pure _)

  close_lem : (room : String) (meta : Vetting) → Preserves P (close_exhausted e room meta)
  unfolding close_exhausted
  close_lem room meta = Preserves-bind _ _ (Preserves-send_msg q e _ _) λ _.
      Preserves-bind _ _ (leave_lem room)
        λ _. Preserves-bind _ _ (Preserves-audit q _) λ _. Preserves-pure _

  vet_message_lem :
      (room : String) (meta : Vetting) (text : String) (go_on : Vetting → Exec World Vetting)
      (v : Verdict)
      → ((m : Vetting) → Preserves P (go_on m))
      → Preserves P (vet_message e room meta text go_on v)
  unfolding vet_message
  vet_message_lem room meta text go_on passed k = promote_lem room meta text
  vet_message_lem room meta text go_on (because why) k =
      Preserves-if _ _ _ (close_lem room (spend_try meta))
        (Preserves-bind _ _ (Preserves-send_msg q e _ _) λ _. k (spend_try meta))

  vet_messages_lem :
      (room : String) (msgs : List Event) (meta : Vetting)
      → Preserves P (vet_messages e room meta msgs)
  unfolding vet_messages
  vet_messages_lem room [] meta = Preserves-pure _
  vet_messages_lem room (msg ∷ msgs) meta =
      vet_message_lem room meta msg.body _ _ (λ m. vet_messages_lem room msgs m)

  room_lem :
      (room : String) (meta : Vetting) (join_ev : Option Event) (msgs : List Event)
      → Preserves P (process_vetting_room e room meta join_ev msgs)
  unfolding process_vetting_room
  room_lem room meta join_ev [] = Preserves-pure _
  room_lem room meta join_ev (msg ∷ msgs) =
      Preserves-bind _ _ (vet_messages_lem room (msg ∷ msgs) (note_join join_ev meta))
        λ m. Preserves-pure _

  pub Preserves-process_rooms :
      (works : List RoomWork) (state : Dict Vetting × Bool)
      → Preserves P (process_rooms e works state)
  unfolding process_rooms
  Preserves-process_rooms [] state = Preserves-pure _
  Preserves-process_rooms (r ∷ rs) state =
      Preserves-bind _ _ (room_lem r.room r.meta r.join_ev r.msgs)
        λ updated. Preserves-process_rooms rs _

  cleanup_lem : (now : ℕ) (rooms : Dict Vetting) → Preserves P (cleanup_loop e now rooms)
  unfolding cleanup_loop
  cleanup_lem now [] = Preserves-pure _
  cleanup_lem now ((room, meta) ∷ rooms) =
      Preserves-if _ _ _
        (Preserves-bind _ _ (leave_lem room) λ _.
          Preserves-bind _ _ (Preserves-audit q _)
            λ _. Preserves-bind _ _ (cleanup_lem now rooms) λ r. Preserves-pure _)
        (Preserves-bind _ _ (cleanup_lem now rooms) λ r. Preserves-pure _)

  pub Preserves-cleanup : (state : Dict Vetting) → Preserves P (cleanup_stale_vetting e state)
  unfolding cleanup_stale_vetting
  Preserves-cleanup state = Preserves-bind _ _ (Preserves-clock q e) λ now. cleanup_lem now state

module _ {P : World → Type 0} (q : OnFiles P) (e : Env)
    (on_signup : (w : World) (d : Dict CodeEntry) → P w → P (record w { signup = d }))
    (on_vetting : (w : World) (d : Dict Vetting) → P w → P (record w { vetting = d })) where
  save_lem : (d : Dict Vetting) → Preserves P (save_vetting d)
  unfolding save_vetting
  save_lem d = Preserves-modify _ (λ w h. on_vetting w d h)

  pub Preserves-vetting_round : (rooms : Joined) → Preserves P (vetting_round e rooms)
  unfolding vetting_round
  Preserves-vetting_round rooms = Preserves-bind _ _ (Preserves-gets _) λ state.
      Preserves-bind _ _ (Preserves-process_rooms q e on_signup _ _) λ r.
        Preserves-bind _ _ (Preserves-cleanup q e on_signup _)
          λ r'. Preserves-if _ _ _ (save_lem _) Preserves-skip
