-- ===== src/System/Uses.antt =====
-- What the whole process does to places while no admin acts.
use shape_rotator_matrix.Base.{
  ℕ, ◌+◌, ◌≤◌, String, ◌≡◌, refl, Option, none, some, List, [], ◌∷◌, ap, arith, length, Bool-cases,
  inl, inr, if◌then◌else◌,
}
use shape_rotator_matrix.Text.{strip, is_empty}
use shape_rotator_matrix.Dict.{Dict, length-set}
use shape_rotator_matrix.Exec.{◌>>=◌}
use shape_rotator_matrix.Exec.Triples.{Post-either}
use shape_rotator_matrix.World.{Vetting, Lobby, World, Env}
use shape_rotator_matrix.Places.{places_of}
use shape_rotator_matrix.Places.Laws.{total, Moves-total}
use shape_rotator_matrix.Places.Refines.{
  Refines, Refines-refl, Refines-trans, of_lengths, of_same, of_open, NoGain, Refines-NoGain,
}
use shape_rotator_matrix.Sync.{Joined}
use shape_rotator_matrix.Lobby.Join.{
  new_lobby, JoinReply, bad_json, missing_code, invalid_code, create_failed, joined, join_handler,
}
use shape_rotator_matrix.Lobby.Join.Settles.{Wrote, join_handler-Wrote}
use shape_rotator_matrix.Lobby.Round.{lobby_round}
use shape_rotator_matrix.Lobby.Round.Files.{Preserves-lobby_round}
use shape_rotator_matrix.Lobby.Round.Sizes.{length-lobby_round}
use shape_rotator_matrix.Signup
use shape_rotator_matrix.Signup.{Form, SignupReply, signup_handler}
use shape_rotator_matrix.Signup.Spends.{Paid, Broken, signup_handler-Paid}
use shape_rotator_matrix.Round.Uses.{sync_round-Refines}
use shape_rotator_matrix.System.{
  Step, main_round, lobby_sync, join_request, signup_request, Steps, stop, step,
}

-- The rooms in which someone was let into the space.
abbrev pub promoted_vetting : Dict Vetting → ℕ
promoted_vetting [] = 0
promoted_vetting ((room, meta) ∷ rooms) = (if meta.promoted then 1 else 0) + promoted_vetting rooms

abbrev pub promoted_lobby : Dict Lobby → ℕ
promoted_lobby [] = 0
promoted_lobby ((room, meta) ∷ rooms) = (if meta.promoted then 1 else 0) + promoted_lobby rooms

promoted_vetting-le : (rooms : Dict Vetting) → promoted_vetting rooms ≤ length rooms
promoted_vetting-le [] = omega arith
promoted_vetting-le ((room, meta) ∷ rooms) = ground (arith, promoted_vetting-le rooms)

promoted_lobby-le : (rooms : Dict Lobby) → promoted_lobby rooms ≤ length rooms
promoted_lobby-le [] = omega arith
promoted_lobby-le ((room, meta) ∷ rooms) = ground (arith, promoted_lobby-le rooms)

lobby_lem :
    (e : Env) (self : String) (rooms : Joined) (invites : List String) (w : World)
    → Refines w (lobby_round e self rooms invites w).1
lobby_lem e self rooms invites w =
    let same =
      (Preserves-lobby_round {P = λ v. (v.codes ≡ w.codes) × (v.vetting ≡ w.vetting)}
          (record { on_trace = λ v t h. h; on_log = λ v l h. h; on_drawn = λ v n h. h }) e
          (λ v d h. h) (λ v d h. h) self rooms invites).from
        w (refl, refl) in
    of_lengths w _ same.0 (ap length same.1) (length-lobby_round e self rooms invites w)

wrote_lem : (code : String) (a : World) (r : JoinReply) (b : World) → Wrote code a r b → Refines a b
wrote_lem code a bad_json b h = of_same h
wrote_lem code a missing_code b h = of_same h
wrote_lem code a invalid_code b h = of_same h
wrote_lem code a create_failed b h = of_same h
wrote_lem code a (joined alias room title keyword) b h = of_open code a b h.live h.spent (
    omega (
      arith,
      length-set room (new_lobby alias code h.now title keyword) a.lobby,
      ap length h.opened,
      ap length h.vetting,
    ))

join_lem : (e : Env) (body : Option String) (w : World) → Refines w (join_handler e body w).1
unfolding join_handler ◌>>=◌
join_lem e none w = Refines-refl w
join_lem e (some raw) w =
    Post-either (Refines w) (join_handler e (some raw) w) (wrote_lem (strip raw) w)
      (λ b h. of_same h) (join_handler-Wrote e raw w)

paid_lem : (code : String) (a : World) (r : SignupReply) (b : World) → Paid code a r b → Refines a b
paid_lem code a Signup.signup_disabled b h = of_same h
paid_lem code a Signup.bad_json b h = of_same h
paid_lem code a Signup.missing_fields b h = of_same h
paid_lem code a Signup.bad_username b h = of_same h
paid_lem code a Signup.password_too_short b h = of_same h
paid_lem code a Signup.invalid_code b h = of_same h
paid_lem code a (Signup.register_init_unexpected status) b h = of_same h
paid_lem code a (Signup.register_failed errcode) b h = of_same h
paid_lem code a (Signup.signed_up mxid steps) b h =
    of_lengths a b h.codes (ap length h.vetting) (ap length h.lobby)

broken_lem : (code : String) (a b : World) → Broken code a b → Refines a b
broken_lem code a b (inl h) = of_same h
broken_lem code a b (inr h) = of_lengths a b h.codes (ap length h.vetting) (ap length h.lobby)

signup_lem : (e : Env) (body : Option Form) (w : World) → Refines w (signup_handler e body w).1
unfolding signup_handler ◌>>=◌
signup_lem e none w = elim (Bool-cases (is_empty e.reg_token)) [
  | inl off ↦ rw off (Refines-refl w)
  | inr on ↦ rw on (Refines-refl w)
]
signup_lem e (some form) w =
    Post-either (Refines w) (signup_handler e (some form) w) (paid_lem (strip form.code) w)
      (broken_lem (strip form.code) w) (signup_handler-Paid e form w)

step_lem : {e : Env} {a b : World} → Step e a b → Refines a b
step_lem {e} (main_round rooms chats w outside) = sync_round-Refines e rooms chats w outside
step_lem {e} (lobby_sync self rooms invites w) = lobby_lem e self rooms invites w
step_lem {e} (join_request body w) = join_lem e body w
step_lem {e} (signup_request body w) = signup_lem e body w

-- However many rounds of the two loops and requests to the two handlers follow each other, in any
-- order, with any replies of the servers and however each of them ends: as long as only outsiders
-- write in the rounds, the state files go through moves of the abstract machine of places only, each
-- of which spends a use of a live knock code for one room.
pub Steps-Refines : {e : Env} {a b : World} → Steps e a b → Refines a b
Steps-Refines (stop w) = Refines-refl w
Steps-Refines (step first rest) = Refines-trans (step_lem first) (Steps-Refines rest)

-- However many rounds of the two loops and requests to the two handlers follow each other, in any
-- order, with any replies of the servers and however each of them ends: as long as only outsiders
-- write in the rounds, no knock code ever has more uses than at the start.
pub Steps-NoGain : {e : Env} {a b : World} → Steps e a b → NoGain a b
Steps-NoGain steps = Refines-NoGain (Steps-Refines steps)

-- However many rounds of the two loops and requests to the two handlers follow each other, in any
-- order, with any replies of the servers and however each of them ends, as long as only outsiders
-- write in the rounds: the uses left in all knock codes and the vetting and lobby rooms on file are
-- together no more than at the start, and the rooms in which someone was let into the space are in
-- the end at most as many as those uses and rooms were.
pub Steps-bound :
    {e : Env} {a b : World}
    → Steps e a b
    → (total (places_of b) ≤ total (places_of a))
      × (promoted_vetting b.vetting + promoted_lobby b.lobby ≤ total (places_of a))
Steps-bound {a = a} {b = b} steps =
    let fewer = Moves-total (Steps-Refines steps).moves in
    (fewer, omega (arith, fewer, promoted_vetting-le b.vetting, promoted_lobby-le b.lobby))
