-- ===== src/Round/Uses.antt =====
-- What a round of the main loop does to places: nobody but an admin adds uses to a knock code.
use shape_rotator_matrix.Base.{
  ◌<◌, String, ◌≡◌, refl, Bool, true, false, List, [], ◌∷◌, elem, All, ap, arith, length, ◌==◌,
  Bool-cases, inl, inr, if◌then◌else◌, not, ◌||◌,
}
use shape_rotator_matrix.Text.{strip, is_prefix_of}
use shape_rotator_matrix.Dict.{length-set}
use shape_rotator_matrix.Exec.Rules.{Preserves, Preserves-bind, Preserves-skip, Preserves-try}
use shape_rotator_matrix.World.{Request, World, Env}
use shape_rotator_matrix.Codes.{is_dead}
use shape_rotator_matrix.Places.Refines.{
  Refines, Refines-refl, Refines-OnFiles, of_lengths, of_same, of_open, from_steps, NoGain,
  Refines-NoGain,
}
use shape_rotator_matrix.Sync.{Joined}
use shape_rotator_matrix.Knock.{new_vetting, handle_knock, iter_knock_events}
use shape_rotator_matrix.Knock.Admission.{Settled, handle_knock_dead, handle_knock-Settled}
use shape_rotator_matrix.Vetting.{vetting_round}
use shape_rotator_matrix.Vetting.Files.{Preserves-vetting_round}
use shape_rotator_matrix.Vetting.Sizes.{length-vetting_round}
use shape_rotator_matrix.Announce.Files.{Preserves-announce_lobby_events}
use shape_rotator_matrix.Admin.Dispatch.{level_in}
use shape_rotator_matrix.Admin.Dispatch.Guarded.{stranger_changes_nothing}
use shape_rotator_matrix.Round.{Chat, queued, handle_knocks, drain, sync_round}

knock_lem :
    (e : Env) (room user reason : String) (w : World)
    → Refines w (handle_knock e room user reason w).1
knock_lem e room user reason w = elim (Bool-cases (is_dead (strip reason) w.codes)) [
  | inl dead ↦ rw (handle_knock_dead e room user reason w dead) (of_lengths w _ refl refl refl)
  | inr live ↦ settled_lem live (handle_knock-Settled e room user reason w live)
]
  where
    settled_lem :
        {code : String} {b : World}
        → is_dead code w.codes ≡ false
        → Settled e code user w b
        → Refines w b
    settled_lem live (inl same) = of_same same
    settled_lem {code} {b} live (inr h) = of_open code w b live h.spent (
        omega (
          arith,
          length-set h.room (new_vetting e user code h.title h.keyword h.now) w.vetting,
          ap length h.opened,
          ap length h.lobby,
        ))

knocks_lem :
    (e : Env) (a : World) (knocks : List (String × String × String))
    → Preserves (Refines a) (handle_knocks e knocks)
unfolding handle_knocks
knocks_lem e a [] = Preserves-skip
knocks_lem e a ((room, user, reason) ∷ knocks) =
    Preserves-bind _ _ (from_steps a _ (knock_lem e room user reason)) λ _. knocks_lem e a knocks

vetting_lem : (e : Env) (rooms : Joined) (w : World) → Refines w (vetting_round e rooms w).1
vetting_lem e rooms w =
    let same =
      (Preserves-vetting_round {P = λ v. (v.codes ≡ w.codes) × (v.lobby ≡ w.lobby)}
          (record { on_trace = λ v t h. h; on_log = λ v l h. h; on_drawn = λ v n h. h }) e
          (λ v d h. h) (λ v d h. h) rooms).from
        w (refl, refl) in
    of_lengths w _ same.0 (length-vetting_round e rooms w) (ap length same.1)

-- Someone who is neither on the allowlist nor at the required power level of the command room.
pub record IsOutsider (e : Env) (sender : String) : Type 0 where
  pub unlisted : elem sender e.admin_allowlist ≡ false
  pub low :
      (t : List Request)
      → level_in (e.level_table t e.admin_command_room) sender < e.admin_pl_threshold

keep_lem :
    (e : Env) (b : Bool) (c : String × String) (rest : List (String × String))
    → IsOutsider e c.0
    → All (λ d. IsOutsider e d.0) rest
    → All (λ d. IsOutsider e d.0) (if b then rest else c ∷ rest)
keep_lem e true c rest h hs = hs
keep_lem e false c rest h hs = (h, hs)

queued_lem :
    (e : Env) (chats : List Chat)
    → All (λ chat. IsOutsider e chat.sender) chats
    → All (λ c. IsOutsider e c.0) (queued e chats)
unfolding queued
queued_lem e [] h = tt
queued_lem e (chat ∷ chats) h =
    keep_lem e
      (not (chat.room == e.admin_command_room)
        || chat.sender == e.our_mxid
        || not (is_prefix_of "!" (strip chat.body)))
      (chat.sender, strip chat.body) (queued e chats) h.0 (queued_lem e chats h.1)

drain_lem :
    (e : Env) (a : World) (commands : List (String × String))
    → All (λ c. IsOutsider e c.0) commands
    → Preserves (Refines a) (drain e commands)
unfolding drain
drain_lem e a [] h = Preserves-skip
drain_lem e a ((sender, body) ∷ commands) h =
    Preserves-bind _ _
      (from_steps a _ λ w. of_same (
        stranger_changes_nothing e e.admin_command_room sender body w h.0.unlisted
          (h.0.low w.trace)))
      λ _. drain_lem e a commands h.1

-- Where all who write messages are outsiders, a round of the main loop makes moves only, however it
-- ends.
pub sync_round-Refines :
    (e : Env) (rooms : Joined) (chats : List Chat) (w : World)
    → All (λ chat. IsOutsider e chat.sender) chats
    → Refines w (sync_round e rooms chats w).1
unfolding sync_round
sync_round-Refines e rooms chats w outside =
    (Preserves-bind _ _ (knocks_lem e w (iter_knock_events e.space_id rooms)) λ _.
        Preserves-bind _ _ (from_steps w _ (vetting_lem e rooms)) λ _.
          Preserves-bind _ _
            (Preserves-try _ _
              (Preserves-announce_lobby_events (Refines-OnFiles w) e
                (λ v d h. record { moves = h.moves }))
              (λ x. Preserves-skip))
            λ _. drain_lem e w (queued e chats) (queued_lem e chats outside)).from
      w (Refines-refl w)

-- Where all who write messages are outsiders, a round of the main loop leaves no knock code with
-- more uses than it had, whatever the events of the round are, whatever the servers reply, and
-- however the round ends: only admins can add uses.
pub sync_round-NoGain :
    (e : Env) (rooms : Joined) (chats : List Chat) (w : World)
    → All (λ chat. IsOutsider e chat.sender) chats
    → NoGain w (sync_round e rooms chats w).1
sync_round-NoGain e rooms chats w outside =
    Refines-NoGain (sync_round-Refines e rooms chats w outside)
