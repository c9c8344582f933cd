-- ===== src/Lobby/Process/Promotion.antt =====
-- Who is promoted out of a lobby room, and why.
use shape_rotator_matrix.Base.{
  String, ◌≡◌, refl, ◌∙◌, ◌⊎◌, inl, inr, Bool, true, false, ◌||◌, some, List, [], ◌∷◌, Any, arith,
  eqb, leb, ◌==◌, Bool-cases, if◌then◌else◌,
}
use mathlib.Core.Path.{subst₂}
use shape_rotator_matrix.Dict.{Dict, lookup, get_or, set}
use shape_rotator_matrix.Exec.{Exec, ok}
use shape_rotator_matrix.Exec.Returns.{
  Returns, Returns-pure, Returns-bind, Returns-seq, Returns-if, Returns-weaken, returned,
}
use shape_rotator_matrix.World.{Lobby, World, Env}
use shape_rotator_matrix.Haiku.{Verdict, passed, because, vet}
use shape_rotator_matrix.Sync.{Event}
use shape_rotator_matrix.Lobby.Process.{
  note_joiner, note_sent, challenge_joins, grant, promote, refuse_answer, vet_answer, verdict_of,
  vet_answers, process_lobby_room, tries_after, reason_of,
}

-- The room is as open as before.
pub record StillOpen (a b : Lobby) : Type 0 where
  pub promoted : b.promoted ≡ a.promoted
  pub closed : b.closed ≡ a.closed

-- The room is closed in favour of the sender of an answer that passed.
pub record Won (e : Env) (a : Lobby) (msgs : List Event) (b : Lobby) : Type 0 where
  pub promoted : b.promoted ≡ true
  pub closed : b.closed ≡ true
  pub reason : (b.closed_reason ≡ some "promoted") ⊎ (b.closed_reason ≡ some "already_member")
  pub earned : Any (λ msg. (msg.sender ≡ b.promoted_user) × (verdict_of e a msg ≡ passed)) msgs

abbrev pub Ends : Env → Lobby → List Event → Lobby → Type 0
Ends e a msgs b = StillOpen a b ⊎ Won e a msgs b

-- The answers are judged by these parts of the entry alone.
record SameTest (a b : Lobby) : Type 0 where
  promoted : b.promoted ≡ a.promoted
  closed : b.closed ≡ a.closed
  displaynames : b.displaynames ≡ a.displaynames
  keyword : b.keyword ≡ a.keyword

-- The display names once the joiners have been noted, each under the name of the join event.
abbrev pub names_after : String → List Event → Dict String → Dict String
names_after self [] names = names
names_after self (ev ∷ evs) names =
    names_after self evs
      (if ev.state_key == self then names else set ev.state_key ev.displayname names)

abbrev pub with_names : String → List Event → Lobby → Lobby
with_names self joins meta = record meta { displaynames = names_after self joins meta.displaynames }

module _ (e : Env) (self room : String) where
  grant_lem :
      (meta : Lobby) (msg : Event) (msgs : List Event) (already : Bool)
      → verdict_of e meta msg ≡ passed
      → Returns (Won e meta (msg ∷ msgs)) (grant e room meta msg.sender msg.body already)
  unfolding grant
  grant_lem meta msg msgs already v = Returns-bind _ _ λ now. Returns-bind _ _ λ children.
      Returns-bind _ _ λ url. Returns-bind _ _ λ _. Returns-bind _ _ λ _. Returns-bind _ _ λ _.
        Returns-pure _ (record {
          promoted = refl;
          closed = refl;
          reason = reason_lem already;
          earned = inl (refl, v);
        })
    where
      reason_lem :
          (b : Bool)
          → (some (reason_of b) ≡ some "promoted") ⊎ (some (reason_of b) ≡ some "already_member")
      reason_lem true = inr refl
      reason_lem false = inl refl

  promote_lem :
      (meta : Lobby) (msg : Event) (msgs : List Event)
      → verdict_of e meta msg ≡ passed
      → Returns (Ends e meta (msg ∷ msgs)) (promote e room meta msg.sender msg.body)
  unfolding promote
  promote_lem meta msg msgs v = Returns-bind _ _ λ (status, body).
      Returns-if (eqb status 200 || eqb status 403) _ _
        (λ _. Returns-weaken _ (λ b h. inr h) (grant_lem meta msg msgs (eqb status 403) v))
        (λ _.
          Returns-bind _ _ λ _. Returns-pure _ (inl (record { promoted = refl; closed = refl })))

  refuse_lem :
      (meta : Lobby) (mxid why : String)
      → Returns (SameTest meta) (refuse_answer e room meta mxid why)
  unfolding refuse_answer
  refuse_lem meta mxid why =
      Returns-if (leb (tries_after e mxid meta) 0) _ _
        (λ _. Returns-bind _ _ λ _. Returns-bind _ _ λ _. Returns-pure _ (ground arith))
        (λ _. Returns-bind _ _ λ _. Returns-pure _ (ground arith))

  -- What holds of an entry with the same parts holds of the entry.
  same-Ends :
      (a b : Lobby) (msgs : List Event) (c : Lobby)
      → SameTest a b
      → Ends e b msgs c
      → Ends e a msgs c
  same-Ends a b msgs c same (inl h) =
      inl (record { promoted = h.promoted ∙ same.promoted; closed = h.closed ∙ same.closed })
  same-Ends a b msgs c same (inr h) = inr (record {
    promoted = h.promoted;
    closed = h.closed;
    reason = h.reason;
    earned =
        subst₂
          (λ d k.
            Any
              (λ m.
                (m.sender ≡ c.promoted_user)
                × (vet e.lower (get_or "" (lookup m.sender d)) m.body k ≡ passed))
              msgs)
          same.displaynames same.keyword h.earned;
  })

  -- What holds for the later answers holds for all of them.
  later-Ends :
      (a : Lobby) (msg : Event) (msgs : List Event) (c : Lobby)
      → Ends e a msgs c
      → Ends e a (msg ∷ msgs) c
  later-Ends a msg msgs c (inl h) = inl h
  later-Ends a msg msgs c (inr h) = inr (record {
    promoted = h.promoted;
    closed = h.closed;
    reason = h.reason;
    earned = inr h.earned;
  })

  answer_lem :
      (meta : Lobby) (msg : Event) (msgs : List Event) (go_on : Lobby → Exec World Lobby)
      → ((b : Lobby) → Returns (Ends e b msgs) (go_on b))
      → (v : Verdict) → verdict_of e meta msg ≡ v
      → Returns (Ends e meta (msg ∷ msgs)) (vet_answer e room meta msg go_on v)
  unfolding vet_answer
  answer_lem meta msg msgs go_on rec passed is_v = promote_lem meta msg msgs is_v
  answer_lem meta msg msgs go_on rec (because why) is_v =
      Returns-seq _ _ (refuse_lem meta msg.sender why) (λ b same.
        Returns-weaken _ (λ c h. later-Ends meta msg msgs c (same-Ends meta b msgs c same h))
          (rec b))

  vet_answers_lem :
      (msgs : List Event) (meta : Lobby)
      → Returns (Ends e meta msgs) (vet_answers e self room msgs meta)
  unfolding vet_answers
  vet_answers_lem [] meta = Returns-pure _ (inl (record { promoted = refl; closed = refl }))
  vet_answers_lem (msg ∷ msgs) meta =
      Returns-if (msg.sender == self) _ _
        (λ _. Returns-weaken _ (λ c h. later-Ends meta msg msgs c h) (vet_answers_lem msgs meta))
        (λ _.
          answer_lem meta msg msgs (vet_answers e self room msgs) (λ b. vet_answers_lem msgs b)
            (verdict_of e meta msg) refl)

  challenge_joins_lem :
      (joins : List Event) (meta : Lobby)
      → Returns (SameTest (with_names self joins meta)) (challenge_joins e self room joins meta)
  unfolding challenge_joins
  challenge_joins_lem [] meta = Returns-pure _ (ground arith)
  challenge_joins_lem (ev ∷ evs) meta = elim (Bool-cases (ev.state_key == self)) [
    | inl own ↦ rw own (challenge_joins_lem evs meta)
    | inr other ↦ rw other (
        Returns-bind _ _ λ _. Returns-bind _ _ λ _. Returns-bind _ _ λ now. Returns-bind _ _ λ _.
          Returns-weaken _
            (λ b h. record {
              promoted = h.promoted;
              closed = h.closed;
              displaynames = h.displaynames;
              keyword = h.keyword;
            })
            (challenge_joins_lem evs
              (note_sent ev.state_key now (note_joiner e ev.state_key ev.displayname meta))))
  ]

  process_lem :
      (joins msgs : List Event) (meta : Lobby)
      → Returns
          (Ends e (with_names self joins meta) msgs)
          (process_lobby_room e self room meta joins msgs)
  unfolding process_lobby_room
  process_lem joins msgs meta = Returns-seq _ _ (challenge_joins_lem joins meta) (λ b same.
      Returns-weaken _ (λ c h. same-Ends (with_names self joins meta) b msgs c same h)
        (vet_answers_lem msgs b))

-- The entry that processing a lobby room returns is either as open as it was, or the room is
-- closed in favour of a user who sent an answer, among those of this round, that passes the
-- captcha under the user's noted display name; the reason then says whether the user was invited
-- or was a member already.
pub process_lobby_room-Ends :
    (e : Env) (self room : String) (meta meta' : Lobby) (joins msgs : List Event) (w w' : World)
    → process_lobby_room e self room meta joins msgs w ≡ (ok meta', w')
    → Ends e (with_names self joins meta) msgs meta'
process_lobby_room-Ends e self room meta meta' joins msgs w w' h =
    returned (process_lobby_room e self room meta joins msgs)
      (process_lem e self room joins msgs meta) h
