-- ===== src/Lobby/Resend/Counts.antt =====
-- What a sweep for resends makes of the counters of every room and user.
use shape_rotator_matrix.Base.{
  ℕ, ◌+◌, ◌≤◌, String, ◌≡◌, refl, ap, subst, ◌∙◌, inl, inr, Bool, true, false, ◌&&◌, ◌==◌, Option,
  none, some, List, [], ◌∷◌, elem, arith, Bool-cases, eq_refl, eq_iff,
}
use shape_rotator_matrix.Dict.{lookup, get_or, lookup-set, lookup-set_self}
use shape_rotator_matrix.Exec.Returns.{
  Returns, Returns-pure, Returns-bind, Returns-seq, Returns-if, Returns-weaken,
}
use shape_rotator_matrix.World.{Lobby, Env}
use shape_rotator_matrix.Lobby.Resend.{resends_of, sent_before, is_due, note_resent, resend_users}

-- The user was sent the challenge of the room, was not sent it again, has waited for as long as the
-- limit says and has not spent a try.
pub record IsDue (e : Env) (now : ℕ) (meta : Lobby) (mxid : String) : Type 0 where
  pub sent_at : ℕ
  pub sent : lookup mxid meta.challenge_sent_ts ≡ some sent_at
  pub waited : sent_at + e.lobby_resend_after ≤ now
  pub once : get_or 0 (lookup mxid meta.challenge_resends) ≡ 0
  pub untried : get_or e.lobby_max_tries (lookup mxid meta.tries) ≡ e.lobby_max_tries

-- The counter and the time of a user, where the challenge is sent again and where it is not.
abbrev pub Counted : ℕ → Bool → Lobby → Lobby → String → Type 0
Counted now true meta meta' mxid =
    (get_or 0 (lookup mxid meta'.challenge_resends) ≡ 1)
    × (lookup mxid meta'.challenge_sent_ts ≡ some now)
Counted now false meta meta' mxid =
    (lookup mxid meta'.challenge_resends ≡ lookup mxid meta.challenge_resends)
    × (lookup mxid meta'.challenge_sent_ts ≡ lookup mxid meta.challenge_sent_ts)

-- Nothing but the two counters of the room changes.
abbrev pub OnlyCounters : Lobby → Lobby → Type 0
OnlyCounters meta meta' = meta' ≡ record meta {
  challenge_sent_ts = meta'.challenge_sent_ts;
  challenge_resends = meta'.challenge_resends;
}

sent_lem :
    (e : Env) (now : ℕ) (meta : Lobby) (mxid : String) (sent : Option ℕ)
    → lookup mxid meta.challenge_sent_ts ≡ sent
    → is_due e now meta mxid ≡ true
    → IsDue e now meta mxid
unfolding is_due sent_before
sent_lem e now meta mxid none is due = ground (arith, is)
sent_lem e now meta mxid (some t) is due = record {
  sent_at = t;
  sent = is;
  waited = ground (arith, is);
  once = ground (arith, is);
  untried = ground (arith, is);
}

pub due_lem :
    (e : Env) (now : ℕ) (meta : Lobby) (mxid : String)
    → is_due e now meta mxid ≡ true
    → IsDue e now meta mxid
due_lem e now meta mxid = sent_lem e now meta mxid (lookup mxid meta.challenge_sent_ts) refl

pub due_of_IsDue :
    (e : Env) (now : ℕ) (meta : Lobby) (mxid : String)
    → IsDue e now meta mxid
    → is_due e now meta mxid ≡ true
unfolding is_due sent_before
due_of_IsDue e now meta mxid h = rw (h.sent, h.untried) (ground (arith, h.once, h.waited))

same_due :
    (e : Env) (now : ℕ) (meta meta' : Lobby) (mxid : String)
    → Counted now false meta meta' mxid
    → meta'.tries ≡ meta.tries
    → is_due e now meta' mxid ≡ is_due e now meta mxid
unfolding is_due
same_due e now meta meta' mxid h t = rw (h.0, h.1, t) refl

not_due_again :
    (e : Env) (now : ℕ) (meta : Lobby) (mxid : String)
    → is_due e now (note_resent now mxid meta) mxid ≡ false
unfolding is_due
not_due_again e now meta mxid =
    rw (lookup-set_self mxid (resends_of mxid meta + 1) meta.challenge_resends) (ground arith)

and_false : (b : Bool) → (b && false) ≡ false
and_false true = refl
and_false false = refl

noted_lem :
    (e : Env) (now : ℕ) (meta meta' : Lobby) (mxid : String)
    → is_due e now meta mxid ≡ true
    → Counted now false (note_resent now mxid meta) meta' mxid
    → Counted now true meta meta' mxid
noted_lem e now meta meta' mxid due h = (
  ap (get_or 0) (h.0 ∙ lookup-set_self _ _ _) ∙ ap (λ n. n + 1) (due_lem e now meta mxid due).once,
  h.1 ∙ lookup-set_self _ _ _,
)

Counted-other :
    (now : ℕ) (b : Bool) (meta meta' : Lobby) (mxid u : String)
    → mxid == u ≡ false
    → Counted now b (note_resent now mxid meta) meta' u
    → Counted now b meta meta' u
Counted-other now true meta meta' mxid u other h = h
Counted-other now false meta meta' mxid u other h =
    (h.0 ∙ rw (lookup-set, other) refl, h.1 ∙ rw (lookup-set, other) refl)

-- One resend, and the users after it.
after_resend :
    (e : Env) (now : ℕ) (meta meta' : Lobby) (mxid : String) (users : List String)
    → is_due e now meta mxid ≡ true
    → let noted = note_resent now mxid meta in
      ((u : String) → Counted now (elem u users && is_due e now noted u) noted meta' u)
      → (u : String) → Counted now (elem u (mxid ∷ users) && is_due e now meta u) meta meta' u
after_resend e now meta meta' mxid users due h u = elim (Bool-cases (mxid == u)) [
  | inl same ↦
      subst (λ v. Counted now (elem v (mxid ∷ users) && is_due e now meta v) meta meta' v)
        ((eq_iff mxid u).0 same)
        (rw (eq_refl mxid, due)
          (noted_lem e now meta meta' mxid due (
            subst (λ b. Counted now b (note_resent now mxid meta) meta' mxid)
              (ap (λ b. elem mxid users && b) (not_due_again e now meta mxid)
                ∙ and_false (elem mxid users))
              (h mxid))))
  | inr other ↦ rw other (
      Counted-other now _ meta meta' mxid u other (
        subst (λ b. Counted now (elem u users && b) (note_resent now mxid meta) meta' u)
          (same_due e now meta (note_resent now mxid meta) u
            (rw (lookup-set, other) refl, rw (lookup-set, other) refl) refl)
          (h u)))
]

-- A user who is not due, and the users after them.
after_skip :
    (e : Env) (now : ℕ) (meta meta' : Lobby) (mxid : String) (users : List String)
    → is_due e now meta mxid ≡ false
    → ((u : String) → Counted now (elem u users && is_due e now meta u) meta meta' u)
    → (u : String) → Counted now (elem u (mxid ∷ users) && is_due e now meta u) meta meta' u
after_skip e now meta meta' mxid users fresh h u = elim (Bool-cases (mxid == u)) [
  | inl same ↦
      subst (λ v. Counted now (elem v (mxid ∷ users) && is_due e now meta v) meta meta' v)
        ((eq_iff mxid u).0 same)
        (rw (eq_refl mxid, fresh)
          (subst (λ b. Counted now b meta meta' mxid)
            (ap (λ b. elem mxid users && b) fresh ∙ and_false (elem mxid users)) (h mxid)))
  | inr other ↦ rw other (h u)
]

-- The counters of every user of the room, by the users that are still to come.
abbrev pub CountedAll : Env → ℕ → List String → Lobby → Lobby → Type 0
CountedAll e now users meta meta' =
    OnlyCounters meta meta'
    × ((u : String) → Counted now (elem u users && is_due e now meta u) meta meta' u)

pub resend_users_lem :
    (e : Env) (now : ℕ) (room : String) (users : List String) (meta : Lobby)
    → Returns (λ r. CountedAll e now users meta r.0) (resend_users e now room users meta)
unfolding resend_users
resend_users_lem e now room [] meta = Returns-pure _ (refl, λ u. (refl, refl))
resend_users_lem e now room (mxid ∷ users) meta =
    Returns-if (is_due e now meta mxid) _ _
      (λ due. Returns-bind _ _ λ _. Returns-bind _ _ λ _.
        Returns-seq _ _ (resend_users_lem e now room users (note_resent now mxid meta))
          (λ (meta', dirty) h.
            Returns-pure _ (h.0, after_resend e now meta meta' mxid users due h.1)))
      (λ fresh.
        Returns-weaken _ (λ r h. (h.0, after_skip e now meta r.0 mxid users fresh h.1))
          (resend_users_lem e now room users meta))
