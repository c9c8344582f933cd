-- ===== src/Relay/Matrix/Again.antt =====
-- Events that come again while they are in the ring of `relay.py`.
use shape_rotator_matrix.Base.{
  ℕ, zero, suc, ◌+◌, ◌-◌, ◌≤◌, ◌<◌, ltb, String, ◌≡◌, refl, ap, ◌∙◌, true, false, Option, none,
  some, List, [], ◌∷◌, ◌++◌, length, drop, elem, length-append, arith, eq_refl, Bool-cases, inl,
  inr,
}
use shape_rotator_matrix.Text.{is_empty}
use shape_rotator_matrix.Exec.{Outcome, ok, raised, skip, ◌>>=◌}
use shape_rotator_matrix.Relay.State.{State, keep_last, mark_mx, mx_seen_limit}
use shape_rotator_matrix.Relay.Bridge.{Bridge, MxEvent, Clients}
use shape_rotator_matrix.Relay.Matrix.{relay_event, relay_events}
use shape_rotator_matrix.Relay.Matrix.Dedup.{OnCursors, IsSeen, event_keeps, event_silent}

-- The id stands in the ring, with at most `k` ids after it.
abbrev pub HeldIn : String → ℕ → List String → Type 0
HeldIn id k ids =
    (older : List String) × (newer : List String) × (ids ≡ older ++ id ∷ newer) × (length newer ≤ k)

drop-append : (n : ℕ) (xs ys : List String) → n ≤ length xs → drop n (xs ++ ys) ≡ drop n xs ++ ys
drop-append zero xs ys h = refl
drop-append (suc n) [] ys h = ground arith
drop-append (suc n) (x ∷ xs) ys h = drop-append n xs ys (omega (arith, h))

append_assoc : (xs ys zs : List String) → (xs ++ ys) ++ zs ≡ xs ++ (ys ++ zs)
append_assoc [] ys zs = refl
append_assoc (x ∷ xs) ys zs = ap (λ l. x ∷ l) (append_assoc xs ys zs)

elem-held : (id : String) (xs ys : List String) → elem id (xs ++ id ∷ ys) ≡ true
elem-held id [] ys = ground (arith, eq_refl id)
elem-held id (x ∷ xs) ys = ground (arith, elem-held id xs ys)

keep_last-HeldIn :
    (id : String) (k limit : ℕ) (ids : List String)
    → k < limit
    → HeldIn id k ids
    → HeldIn id k (keep_last limit ids)
unfolding keep_last
keep_last-HeldIn id k limit ids small (older, newer, is, few) =
    let n = length ids - limit in
    let size = ap length is ∙ length-append older (id ∷ newer) in
    elim (Bool-cases (ltb limit (length ids))) [
      | inl more ↦ rw more (
        drop n older,
        newer,
        ap (drop n) is ∙ drop-append n older (id ∷ newer) (omega (arith, size, small, few)),
        few,
      )
      | inr fits ↦ rw fits (older, newer, is, few)
    ]

abbrev Held : String → ℕ → Bridge → Type 0
Held id k b = HeldIn id k b.state.mx_seen

Held-OnCursors : (id : String) (k : ℕ) → OnCursors (Held id k)
Held-OnCursors id k = record {
  on_posts = λ b ps h. h;
  on_names = λ b ns h. h;
  on_save = λ b h. h;
  on_sync = λ b cur h. h;
}

-- An id that is recorded for the first time is the newest.
mark_first :
    (id : String) (s : State) → elem id s.mx_seen ≡ false → HeldIn id 0 (mark_mx id s).1.mx_seen
unfolding mark_mx
mark_first id s new = rw new (
    keep_last-HeldIn id 0 mx_seen_limit (s.mx_seen ++ id ∷ []) (omega arith)
      (s.mx_seen, [], refl, omega arith))

-- Another id moves it back by one.
mark_other :
    (id other : String) (k : ℕ) (s : State)
    → suc k < mx_seen_limit
    → HeldIn id k s.mx_seen
    → HeldIn id (suc k) (mark_mx other s).1.mx_seen
unfolding mark_mx
mark_other id other k s small (older, newer, is, few) = elim (Bool-cases (elem other s.mx_seen)) [
  | inl seen ↦ rw seen (older, newer, is, omega (arith, few))
  | inr new ↦ rw new (
      keep_last-HeldIn id (suc k) mx_seen_limit (s.mx_seen ++ other ∷ []) small (
        older,
        newer ++ other ∷ [],
        ap (λ l. l ++ other ∷ []) is ∙ append_assoc older (id ∷ newer) (other ∷ []),
        omega (arith, few, length-append newer (other ∷ [])),
      ))
]

event-Held :
    (c : Clients) (ev : Option MxEvent) (id : String) (k : ℕ) (b : Bridge)
    → suc k < mx_seen_limit
    → Held id k b
    → Held id (suc k) (relay_event c ev b).1
unfolding relay_event skip
event-Held c none id k b small h = (h.0, h.1, h.2, omega (arith, h.3))
event-Held c (some ev) id k b small h = elim (Bool-cases (is_empty ev.event_id)) [
  | inl nameless ↦ rw nameless (h.0, h.1, h.2, omega (arith, h.3))
  | inr named ↦
      event_keeps (Held-OnCursors id (suc k)) c ev b named
        (mark_other id ev.event_id k b.state small h)
]

module _ (c : Clients) (id : String) where
  step_lem :
      (r : Outcome (Unit {0})) (b : Bridge) (evs : List (Option MxEvent)) (k : ℕ)
      → k + length evs < mx_seen_limit
      → Held id k b
      → ((b' : Bridge) → Held id k b' → IsSeen id (relay_events c evs b').1)
      → IsSeen id (((λ _. (r, b)) >>= (λ _. relay_events c evs)) b).1
  unfolding ◌>>=◌
  step_lem (ok u) b evs k small h rest = rest b h
  step_lem (raised x) b evs k small (older, newer, is, few) rest =
      ap (elem id) is ∙ elem-held id older newer

  events-IsSeen :
      (evs : List (Option MxEvent)) (k : ℕ) (b : Bridge)
      → k + length evs < mx_seen_limit
      → Held id k b
      → IsSeen id (relay_events c evs b).1
  unfolding relay_events ◌>>=◌
  events-IsSeen [] k b small (older, newer, is, few) = ap (elem id) is ∙ elem-held id older newer
  events-IsSeen (ev ∷ evs) k b small h =
      step_lem (relay_event c ev b).0 (relay_event c ev b).1 evs (suc k) (omega (arith, small))
        (event-Held c ev id k b (omega (arith, small)) h)
        (λ b' h'. events-IsSeen evs (suc k) b' (omega (arith, small)) h')

-- An event that is not in the ring when it is handled is not posted again where it comes again after
-- fewer than 500 other events: not where it was relayed, and not where the post of it failed, the
-- event could not be decrypted or an exception ended the events in between either.
pub relay_event_again :
    (c : Clients) (ev : MxEvent) (evs : List (Option MxEvent)) (b : Bridge)
    → elem ev.event_id b.state.mx_seen ≡ false
    → length evs < 500
    → let b1 = (relay_event c (some ev) b).1 in
      let b2 = (relay_events c evs b1).1 in (relay_event c (some ev) b2).1.posts ≡ b2.posts
unfolding relay_event ◌>>=◌
relay_event_again c ev evs b new few = elim (Bool-cases (is_empty ev.event_id)) [
  | inl nameless ↦ rw nameless refl
  | inr named ↦ event_silent c ev (relay_events c evs (relay_event c (some ev) b).1).1 (
      events-IsSeen c ev.event_id evs 0 (relay_event c (some ev) b).1 (omega (arith, few)) (
        event_keeps (Held-OnCursors ev.event_id 0) c ev b named
          (mark_first ev.event_id b.state new)))
]
