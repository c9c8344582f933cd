-- ===== src/Vetting/Judgement.antt =====
-- What the messages of a vetting room come to, against a judgement that knows nothing of rooms,
-- requests or files.
use shape_rotator_matrix.Base.{
  ℕ, ◌-◌, String, ◌≡◌, refl, sym, subst, ◌⊎◌, inl, inr, true, Option, none, some, List, [], ◌∷◌,
  map, arith, leb, eqb, Bool-cases, if◌then◌else◌,
}
use shape_rotator_matrix.Exec.{Exec, ok}
use shape_rotator_matrix.Exec.Returns.{Returns, Returns-pure, Returns-bind}
use shape_rotator_matrix.Exec.Triples.{
  Post, Triple, Triple-bind, Triple-if, Triple-return, Triple-returns, Triple-preserves,
  Triple-both, Triple-map,
}
use shape_rotator_matrix.World.{Vetting, World, Env}
use shape_rotator_matrix.World.Frames.{Preserves-audit}
use shape_rotator_matrix.Vetting.Files.{grant-Preserves}
use shape_rotator_matrix.Vetting.Invitation.{
  Invited, Went, Invited-OnFiles, went_lem, not_went_lem, invite_lem,
}
use shape_rotator_matrix.Haiku.{Verdict, passed, because, vet}
use shape_rotator_matrix.Sync.{Event}
use shape_rotator_matrix.Vetting.{
  status_of, grant, promote, close_exhausted, spend_try, vet_message, vet_messages, note_join,
  process_vetting_room,
}

-- The fate of a row of answers: still open with so many tries, out of tries, or accepted.
pub data Fate : Type 0 where
  pending : ℕ → Fate
  exhausted : Fate
  accepted : ℕ → Fate

abbrev judge_one : Verdict → ℕ → Fate → Fate
judge_one passed tries later = accepted tries
judge_one (because why) tries later = if leb tries 1 then exhausted else later

-- Each refused answer costs a try; the first accepted answer ends the row, and so does the last try.
abbrev pub judge : (String → Verdict) → ℕ → List String → Fate
judge test tries [] = pending tries
judge test tries (text ∷ texts) =
    let later = judge test (tries - 1) texts in judge_one (test text) tries later

-- The entry of the room afterwards.
abbrev pub Agrees : Env → Fate → Vetting → Vetting → World → Type 0
Agrees e (pending k) meta meta' w = meta' ≡ record meta { tries_left = k }
Agrees e exhausted meta meta' w =
    (meta'.promoted ≡ meta.promoted)
    × (meta'.closed ≡ true)
    × (meta'.closed_reason ≡ some "tries_exhausted")
Agrees e (accepted k) meta meta' w =
    (Invited e meta.mxid Went w
      × (meta'.promoted ≡ true)
      × (meta'.closed ≡ meta.closed)
      × (meta'.tries_left ≡ k))
    ⊎ (Invited e meta.mxid (λ r. ¬ Went r) w × (meta' ≡ record meta { tries_left = k }))

abbrev bodies : List Event → List String
bodies = map (λ ev. ev.body)

module _ (e : Env) (room : String) where
  grant_lem :
      (meta : Vetting) (text : String)
      → Returns
          (λ meta'.
            (meta'.promoted ≡ true)
            × (meta'.closed ≡ meta.closed)
            × (meta'.tries_left ≡ meta.tries_left))
          (grant e room meta text)
  unfolding grant
  grant_lem meta text = Returns-bind _ _ λ now. Returns-bind _ _ λ children. Returns-bind _ _ λ url.
      Returns-bind _ _
        λ _. Returns-bind _ _ λ _. Returns-bind _ _ λ _. Returns-pure _ (refl, refl, refl)

  granted_lem :
      (meta : Vetting) (text : String)
      → Triple
          (Invited e meta.mxid Went)
          (grant e room meta text)
          (Agrees e (accepted meta.tries_left) meta)
          (λ w. Unit)
  granted_lem meta text =
      Triple-map
        (Triple-returns _ _
          (grant-Preserves (Invited-OnFiles e meta.mxid Went) e (λ w d h. h) room meta text)
          (grant_lem meta text) (λ w h. h))
        (λ meta' w h. let (invited, facts) = h in inl (invited, facts.0, facts.1, facts.2))
        (λ w h. tt)

  promote_lem :
      (meta : Vetting) (text : String)
      → Triple
          (λ w. Unit)
          (promote e room meta text)
          (Agrees e (accepted meta.tries_left) meta)
          (λ w. Unit)
  unfolding promote
  promote_lem meta text = Triple-bind _ _ (invite_lem e meta.mxid) λ reply.
      Triple-if (eqb (status_of reply) 200) _ _
        (λ is. record {
          run = λ w h.
              (granted_lem meta text).run w (h.0, h.1, subst Went (sym h.2) (went_lem reply is));
        })
        (λ is_not.
          Triple-bind _ _
            (Triple-preserves _ (Preserves-audit (Invited-OnFiles e meta.mxid (λ r. r ≡ reply)) _)
              (λ w h. tt))
            λ _. Triple-return _ (λ w h.
              inr ((h.0, h.1, subst (λ r. ¬ Went r) (sym h.2) (not_went_lem reply is_not)), refl)))

  any_lem : {A : Type 0} {m : Exec World A} → Triple (λ w. Unit) m (λ _ w. Unit) (λ w. Unit)
  any_lem {A} {m} = Triple-both m (λ w h. tt)

  close_lem :
      (meta base : Vetting)
      → meta.promoted ≡ base.promoted
      → Triple (λ w. Unit) (close_exhausted e room meta) (Agrees e exhausted base) (λ w. Unit)
  unfolding close_exhausted
  close_lem meta base p = Triple-bind _ _ any_lem λ _.
      Triple-bind _ _ any_lem
        λ _. Triple-bind _ _ any_lem λ _. Triple-return _ (λ w h. (p, refl, refl))

  test_of : Vetting → String → Verdict
  test_of meta text = vet e.lower meta.displayname text meta.keyword

  last_try : (n : ℕ) → leb (n - 1) 0 ≡ leb n 1
  last_try n = ground arith

  later_lem :
      (later : Fate) (meta : Vetting) (m : Exec World Vetting)
      → Triple (λ w. Unit) m (Agrees e later (spend_try meta)) (λ w. Unit)
      → Triple (λ w. Unit) m (Agrees e later meta) (λ w. Unit)
  later_lem (pending k) meta m r = r
  later_lem exhausted meta m r = r
  later_lem (accepted k) meta m r = r

  vet_message_lem :
      (meta : Vetting) (text : String) (go_on : Vetting → Exec World Vetting) (later : Fate)
      → Triple (λ w. Unit) (go_on (spend_try meta)) (Agrees e later (spend_try meta)) (λ w. Unit)
      → (v : Verdict)
      → Triple
          (λ w. Unit)
          (vet_message e room meta text go_on v)
          (Agrees e (judge_one v meta.tries_left later) meta)
          (λ w. Unit)
  unfolding vet_message
  vet_message_lem meta text go_on later rec passed = promote_lem meta text
  vet_message_lem meta text go_on later rec (because why) =
      rw (last_try meta.tries_left) (elim (Bool-cases (leb meta.tries_left 1)) [
        | inl last ↦ rw last (close_lem (spend_try meta) meta refl)
        | inr more ↦
            rw more (Triple-bind _ _ any_lem λ _. later_lem later meta (go_on (spend_try meta)) rec)
      ])

  vet_messages_lem :
      (meta : Vetting) (msgs : List Event)
      → Triple
          (λ w. Unit)
          (vet_messages e room meta msgs)
          (Agrees e (judge (test_of meta) meta.tries_left (bodies msgs)) meta)
          (λ w. Unit)
  unfolding vet_messages test_of
  vet_messages_lem meta [] = Triple-return _ (λ w h. refl)
  vet_messages_lem meta (msg ∷ msgs) =
      vet_message_lem meta msg.body (λ m. vet_messages e room m msgs) _
        (vet_messages_lem (spend_try meta) msgs)
        (vet e.lower meta.displayname msg.body meta.keyword)

abbrev OnSome : (Vetting → World → Type 0) → Option Vetting → World → Type 0
OnSome Q none w = ⊥
OnSome Q (some meta) w = Q meta w

process_lem :
    (e : Env) (room : String) (meta : Vetting) (join_ev : Option Event) (msg : Event)
    (msgs : List Event)
    → let met = note_join join_ev meta in
      Triple
        (λ w. Unit)
        (process_vetting_room e room meta join_ev (msg ∷ msgs))
        (OnSome (Agrees e (judge (test_of e room met) met.tries_left (bodies (msg ∷ msgs))) met))
        (λ w. Unit)
unfolding process_vetting_room
process_lem e room meta join_ev msg msgs =
    Triple-bind _ _ (vet_messages_lem e room (note_join join_ev meta) (msg ∷ msgs))
      (λ m. Triple-return _ (λ w h. h))

-- Where processing a room's messages returns an entry, it is the one that the judgement of the
-- answers, in order, calls for: with as many tries less as answers were refused, or closed for want
-- of tries and not promoted, or, where an answer was accepted, one of two: the homeserver accepted
-- the invitation of the user to the space and the entry is promoted, or the invitation, which was
-- among the requests made, failed, and only the tries have changed.
pub process-Agrees :
    (e : Env) (room : String) (meta meta' : Vetting) (join_ev : Option Event) (msg : Event)
    (msgs : List Event) (w w' : World)
    → process_vetting_room e room meta join_ev (msg ∷ msgs) w ≡ (ok (some meta'), w')
    → let met = note_join join_ev meta in
      Agrees e
        (judge
          (λ text. vet e.lower met.displayname text met.keyword)
          met.tries_left
          (bodies (msg ∷ msgs)))
        met
        meta'
        w'
unfolding test_of
process-Agrees e room meta meta' join_ev msg msgs w w' h =
    subst (Post (OnSome _) (λ w. Unit)) h ((process_lem e room meta join_ev msg msgs).run w tt)
