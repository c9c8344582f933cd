-- ===== src/Lobby/Round/Files.antt =====
-- A round of the lobby loop keeps what does not speak of the signup table and the lobby rooms.
use shape_rotator_matrix.Base.{ℕ, String, List, [], ◌∷◌, Bool, true, false}
use shape_rotator_matrix.Dict.{Dict}
use shape_rotator_matrix.Exec.{Exec}
use shape_rotator_matrix.Exec.Rules.{
  Preserves, Preserves-pure, Preserves-bind, Preserves-if, Preserves-modify, Preserves-gets,
  Preserves-skip,
}
use shape_rotator_matrix.World.{CodeEntry, Lobby, World, Env, save_lobby}
use shape_rotator_matrix.World.Frames.{
  OnFiles, Preserves-request, Preserves-post, Preserves-send_msg_raw, Preserves-audit,
  Preserves-clock,
}
use shape_rotator_matrix.Welcome.Files.{Preserves-invite_to_children, Preserves-mint_welcome}
use shape_rotator_matrix.Haiku.{Verdict, passed, because}
use shape_rotator_matrix.Sync.{Event, Joined}
use shape_rotator_matrix.Lobby.Rooms.{LobbyWork}
use shape_rotator_matrix.Lobby.Process.{
  lobby_leave_room, lobby_invite_to_space, challenge_joins, grant, promote, refuse_answer,
  vet_answer, vet_answers, verdict_of, process_lobby_room,
}
use shape_rotator_matrix.Lobby.Resend.{
  resend_users, resend_rooms, process_lobby_resends, note_resent,
}
use shape_rotator_matrix.Lobby.Sweep.{cleanup_rooms, cleanup_stale_lobby}
use shape_rotator_matrix.Lobby.Round.{
  accept_pending_invites, process_rooms, process_table, lobby_round,
}

module _ {P : World → Type 0} (q : OnFiles P) (e : Env)
    (on_signup : (w : World) (d : Dict CodeEntry) → P w → P (record w { signup = d })) where
  leave_lem : (room : String) → Preserves P (lobby_leave_room e room)
  unfolding lobby_leave_room
  leave_lem room = Preserves-bind _ _ (Preserves-request q e _) λ _. Preserves-skip

  joins_lem :
      (self room : String) (joins : List Event) (meta : Lobby)
      → Preserves P (challenge_joins e self room joins meta)
  unfolding challenge_joins
  joins_lem self room [] meta = Preserves-pure _
  joins_lem self room (ev ∷ evs) meta = Preserves-if _ _ _ (joins_lem self room evs meta) (
      Preserves-bind _ _
        (Preserves-if _ _ _ (Preserves-bind _ _ (Preserves-request q e _) λ _. Preserves-skip)
          Preserves-skip)
        λ _. Preserves-bind _ _ (Preserves-send_msg_raw q e _ _) λ _.
          Preserves-bind _ _ (Preserves-clock q e)
            λ now. Preserves-bind _ _ (Preserves-audit q _) λ _. joins_lem self room evs _)

  grant_lem :
      (room : String) (meta : Lobby) (mxid text : String) (already : Bool)
      → Preserves P (grant e room meta mxid text already)
  unfolding grant
  grant_lem room meta mxid text already = Preserves-bind _ _ (Preserves-clock q e) λ now.
      Preserves-bind _ _ (Preserves-invite_to_children q e mxid) λ children.
        Preserves-bind _ _ (Preserves-mint_welcome q e on_signup mxid) λ url.
          Preserves-bind _ _ (Preserves-send_msg_raw q e _ _) λ _.
            Preserves-bind _ _ (Preserves-audit q _)
              λ _. Preserves-bind _ _ (leave_lem room) λ _. Preserves-pure _

  promote_lem :
      (room : String) (meta : Lobby) (mxid text : String)
      → Preserves P (promote e room meta mxid text)
  unfolding promote lobby_invite_to_space
  promote_lem room meta mxid text = Preserves-bind _ _ (Preserves-post q e _) λ r.
      Preserves-if _ _ _ (grant_lem room meta mxid text _)
        (Preserves-bind _ _ (Preserves-audit q _) λ _. Preserves-pure _)

  refuse_lem :
      (room : String) (meta : Lobby) (mxid why : String)
      → Preserves P (refuse_answer e room meta mxid why)
  unfolding refuse_answer
  refuse_lem room meta mxid why =
      Preserves-if _ _ _
        (Preserves-bind _ _ (Preserves-send_msg_raw q e _ _)
          λ _. Preserves-bind _ _ (Preserves-audit q _) λ _. Preserves-pure _)
        (Preserves-bind _ _ (Preserves-send_msg_raw q e _ _) λ _. Preserves-pure _)

  answer_lem :
      (room : String) (meta : Lobby) (msg : Event) (go_on : Lobby → Exec World Lobby) (v : Verdict)
      → ((m : Lobby) → Preserves P (go_on m))
      → Preserves P (vet_answer e room meta msg go_on v)
  unfolding vet_answer
  answer_lem room meta msg go_on passed k = promote_lem room meta msg.sender msg.body
  answer_lem room meta msg go_on (because why) k =
      Preserves-bind _ _ (refuse_lem room meta msg.sender why) λ m. k m

  answers_lem :
      (self room : String) (msgs : List Event) (meta : Lobby)
      → Preserves P (vet_answers e self room msgs meta)
  unfolding vet_answers
  answers_lem self room [] meta = Preserves-pure _
  answers_lem self room (msg ∷ msgs) meta =
      Preserves-if _ _ _ (answers_lem self room msgs meta)
        (answer_lem room meta msg _ (verdict_of e meta msg) (λ m. answers_lem self room msgs m))

  rooms_lem :
      (self : String) (works : List LobbyWork) (state : Dict Lobby) (dirty : Bool)
      → Preserves P (process_rooms e self works state dirty)
  unfolding process_rooms process_lobby_room
  rooms_lem self [] state dirty = Preserves-pure _
  rooms_lem self (r ∷ rs) state dirty =
      Preserves-bind _ _
        (Preserves-bind _ _ (joins_lem self r.room r.new_joins r.meta)
          λ m. answers_lem self r.room r.msgs m)
        λ updated. rooms_lem self rs _ true

  users_lem :
      (now : ℕ) (room : String) (users : List String) (meta : Lobby)
      → Preserves P (resend_users e now room users meta)
  unfolding resend_users
  users_lem now room [] meta = Preserves-pure _
  users_lem now room (mxid ∷ users) meta =
      Preserves-if _ _ _
        (Preserves-bind _ _ (Preserves-send_msg_raw q e _ _) λ _.
          Preserves-bind _ _ (Preserves-audit q _) λ _.
            Preserves-bind _ _ (users_lem now room users (note_resent now mxid meta))
              λ r. Preserves-pure _)
        (users_lem now room users meta)

  resend_lem : (now : ℕ) (rooms : Dict Lobby) → Preserves P (resend_rooms e now rooms)
  unfolding resend_rooms
  resend_lem now [] = Preserves-pure _
  resend_lem now ((room, meta) ∷ rooms) =
      Preserves-if _ _ _
        (Preserves-bind _ _ (users_lem now room meta.challenged meta)
          λ r. Preserves-bind _ _ (resend_lem now rooms) λ r'. Preserves-pure _)
        (Preserves-bind _ _ (resend_lem now rooms) λ r. Preserves-pure _)

  sweep_lem : (now : ℕ) (rooms : Dict Lobby) → Preserves P (cleanup_rooms e now rooms)
  unfolding cleanup_rooms
  sweep_lem now [] = Preserves-pure _
  sweep_lem now ((room, meta) ∷ rooms) =
      Preserves-if _ _ _
        (Preserves-bind _ _ (leave_lem room) λ _.
          Preserves-bind _ _ (Preserves-audit q _)
            λ _. Preserves-bind _ _ (sweep_lem now rooms) λ r. Preserves-pure _)
        (Preserves-bind _ _ (sweep_lem now rooms) λ r. Preserves-pure _)

  pub Preserves-accept_invites :
      (rooms : List String) → Preserves P (accept_pending_invites e rooms)
  unfolding accept_pending_invites
  Preserves-accept_invites [] = Preserves-skip
  Preserves-accept_invites (room ∷ rooms) =
      Preserves-bind _ _ (Preserves-request q e _) λ _. Preserves-accept_invites rooms

  pub Preserves-process_table :
      (self : String) (rooms : Joined) (state : Dict Lobby)
      → Preserves P (process_table e self rooms state)
  unfolding process_table process_lobby_resends cleanup_stale_lobby
  Preserves-process_table self rooms state =
      Preserves-bind _ _ (rooms_lem self _ state false) λ (s1, d1).
        Preserves-bind _ _ (Preserves-bind _ _ (Preserves-clock q e) λ now. resend_lem now s1)
          λ (s2, d2).
            Preserves-bind _ _ (Preserves-bind _ _ (Preserves-clock q e) λ now. sweep_lem now s2)
              λ r. Preserves-pure _

module _ {P : World → Type 0} (q : OnFiles P) (e : Env)
    (on_signup : (w : World) (d : Dict CodeEntry) → P w → P (record w { signup = d }))
    (on_lobby : (w : World) (d : Dict Lobby) → P w → P (record w { lobby = d })) where
  save_lem : (d : Dict Lobby) → Preserves P (save_lobby d)
  unfolding save_lobby
  save_lem d = Preserves-modify _ (λ w h. on_lobby w d h)

  pub Preserves-lobby_round :
      (self : String) (rooms : Joined) (invites : List String)
      → Preserves P (lobby_round e self rooms invites)
  unfolding lobby_round
  Preserves-lobby_round self rooms invites =
      Preserves-bind _ _ (Preserves-accept_invites q e on_signup invites) λ _.
        Preserves-bind _ _ (Preserves-gets _) λ state.
          Preserves-bind _ _ (Preserves-process_table q e on_signup self rooms state)
            λ r. Preserves-if _ _ _ (save_lem _) Preserves-skip
