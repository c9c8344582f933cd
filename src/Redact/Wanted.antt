-- ===== src/Redact/Wanted.antt =====
-- Which events become targets.
use shape_rotator_matrix.Base.{
  ℕ, zero, suc, ◌+◌, ◌≤◌, String, ◌≡◌, refl, sym, inl, inr, Bool, true, false, Bool-cases, not,
  ◌||◌, List, [], ◌∷◌, ◌++◌, map, All, Any, elem, ltb, leb, eqb, ◌&&◌, ◌==◌, arith, eq_iff,
  if◌then◌else◌,
}
use shape_rotator_matrix.Text.{is_empty}
use shape_rotator_matrix.Exec.{Outcome, ok, raised, ◌>>=◌, from_outcome}
use shape_rotator_matrix.Exec.Returns.{
  Returns, Returns-pure, Returns-raise, Returns-if, Returns-seq,
}
use shape_rotator_matrix.Redact.Tool.{
  Event, Body, Call, messages_call, Tool, Server, http, opened, is_redacted,
}
use shape_rotator_matrix.Redact.Scan.{
  Query, Target, Scan, first_scan, target_of, scan_event, scan_chunk, chunk_of, end_of, has_events,
  turn_page, collect_loop, collect_targets,
}

-- The event is one that the query is about.
pub record Wanted (q : Query) (ev : Event) : Type 0 where
  pub in_time : (q.since_ms ≤ ev.origin_server_ts) × (ev.origin_server_ts ≤ q.until_ms)
  pub sender : ev.sender ≡ q.sender_mxid
  pub live : is_redacted ev ≡ false
  pub named : is_empty ev.event_id ≡ false

-- The server listed the event on a page of the room.
pub record Listed (srv : Server) (q : Query) (ev : Event) : Type 0 where
  pub past : List Call
  pub from : String
  pub reply : ℕ × Body
  pub replied : srv past (messages_call q.room from) ≡ ok reply
  pub member : Any (λ x. x ≡ ev) (chunk_of reply.1)

abbrev pub count : String → List String → ℕ
count x [] = 0
count x (y ∷ ys) = (if y == x then 1 else 0) + count x ys

abbrev pub id_of : Target → String
id_of t = t.event_id

abbrev pub ids : List Target → List String
ids = map id_of

-- The target stands for an event that was listed and is wanted.
abbrev pub IsFound : Server → Query → Target → Type 0
IsFound srv q t = (ev : Event) × Listed srv q ev × Wanted q ev × (t ≡ target_of ev)

-- Every target is found, and no id stands twice among them.
pub record Sound (srv : Server) (q : Query) (s : Scan) : Type 0 where
  pub found : All (IsFound srv q) s.targets
  pub counted : (x : String) → count x (ids s.targets) ≡ count x s.seen_ids
  pub once : (x : String) → count x s.seen_ids ≤ 1

All-snoc :
    {A : Type 0} (P : A → Type 0) (xs : List A) (x : A) → All P xs → P x → All P (xs ++ x ∷ [])
All-snoc P [] x h p = (p, tt)
All-snoc P (y ∷ xs) x h p = (h.0, All-snoc P xs x h.1 p)

count-snoc :
    (x : String) (ts : List Target) (t : Target)
    → count x (ids (ts ++ t ∷ [])) ≡ count x (ids ts) + (if t.event_id == x then 1 else 0)
count-snoc x [] t = omega arith
count-snoc x (u ∷ ts) t = omega (arith, count-snoc x ts t)

count_of_not-elem : (x : String) (ys : List String) → elem x ys ≡ false → count x ys ≡ 0
count_of_not-elem x [] h = refl
count_of_not-elem x (y ∷ ys) h = ground (arith, count_of_not-elem x ys)

module _ (srv : Server) (q : Query) where
  take_lem :
      (ev : Event) (s : Scan)
      → Sound srv q s
      → Listed srv q ev
      → Wanted q ev
      → elem ev.event_id s.seen_ids ≡ false
      → Sound srv q (record s {
        seen_ids = ev.event_id ∷ s.seen_ids;
        targets = s.targets ++ target_of ev ∷ [];
      })
  take_lem ev s sound listed wanted new = record {
    found =
        All-snoc (IsFound srv q) s.targets (target_of ev) sound.found (ev, listed, wanted, refl);
    counted = λ x. omega (arith, count-snoc x s.targets (target_of ev), sound.counted x);
    once = λ x. elim (Bool-cases (ev.event_id == x)) [
      | inl same ↦
          let none' : count x s.seen_ids ≡ 0 =
            rw (sym ((eq_iff ev.event_id x).0 same))
              (count_of_not-elem ev.event_id s.seen_ids new) in
          rw (same, none') (omega arith)
      | inr apart ↦ rw apart (omega (arith, sound.once x))
    ];
  }

  Sound-unless :
      (b : Bool) (s s' : Scan)
      → Sound srv q s
      → (b ≡ false → Sound srv q s')
      → Sound srv q (if b then s else s')
  Sound-unless true s s' h h' = h
  Sound-unless false s s' h h' = h' refl

  scan_event-Sound :
      (ev : Event) (s : Scan) → Listed srv q ev → Sound srv q s → Sound srv q (scan_event q ev s)
  unfolding scan_event
  scan_event-Sound ev s listed sound =
      Sound-unless (ltb ev.origin_server_ts q.since_ms) _ _
        (record { found = sound.found; counted = sound.counted; once = sound.once })
        λ h1. Sound-unless (ltb q.until_ms ev.origin_server_ts) _ _ sound λ h2.
          Sound-unless (not (ev.sender == q.sender_mxid)) _ _ sound λ h3.
            Sound-unless (is_redacted ev) _ _ sound λ h4.
              Sound-unless (is_empty ev.event_id || elem ev.event_id s.seen_ids) _ _ sound λ h5.
                take_lem ev s sound listed
                  (record {
                    in_time = (ground arith, ground arith);
                    sender = ground (arith, eq_iff ev.sender q.sender_mxid);
                    live = h4;
                    named = ground arith;
                  })
                  (ground arith)

  scan_chunk-Sound :
      (evs : List Event) (s : Scan)
      → ((ev : Event) → Any (λ x. x ≡ ev) evs → Listed srv q ev)
      → Sound srv q s
      → Sound srv q (scan_chunk q evs s)
  unfolding scan_chunk
  scan_chunk-Sound [] s listed sound = sound
  scan_chunk-Sound (ev ∷ evs) s listed sound =
      scan_chunk-Sound evs (scan_event q ev s) (λ x m. listed x (inr m))
        (scan_event-Sound ev s (listed ev (inl refl)) sound)

  -- What the server answered to a request.
  abbrev pub Answered : Call → ℕ × Body → Type 0
  Answered c r = (past : List Call) × (srv past c ≡ ok r)

  from_outcome-Answered :
      (c : Call) (reply : Outcome (ℕ × Body)) (past : List Call)
      → srv past c ≡ reply
      → Returns {S = Tool} (Answered c) (from_outcome reply)
  from_outcome-Answered c (ok r) past is = Returns-pure r (past, is)
  from_outcome-Answered c (raised x) past is = Returns-raise x

  pub http-Answered : (c : Call) → Returns (Answered c) (http srv c)
  unfolding http ◌>>=◌
  http-Answered c = record {
    on_ok = λ t.
        (Returns-seq _ opened (from_outcome-Answered c (srv t.calls c) t.calls refl)
            λ (status, body) answered.
              Returns-if (leb 200 status && leb status 299) _ _ (λ h. Returns-pure _ answered)
                (λ h. Returns-raise _)).on_ok
          (record t { calls = c ∷ t.calls });
  }

  turn_page-Sound :
      (status : ℕ) (body : Body) (from : String) (s : Scan)
      → Answered (messages_call q.room from) (status, body)
      → Sound srv q s
      → Sound srv q (turn_page q body s)
  unfolding turn_page
  turn_page-Sound status body from s (past, replied) sound =
      let after' =
        scan_chunk-Sound (chunk_of body) s
          (λ ev m. record {
            past = past;
            from = from;
            reply = (status, body);
            replied = replied;
            member = m;
          })
          sound in
      record { found = after'.found; counted = after'.counted; once = after'.once }

  collect_loop-Sound :
      (n : ℕ) (s : Scan) → Sound srv q s → Returns (Sound srv q) (collect_loop srv q n s)
  unfolding collect_loop
  collect_loop-Sound zero s sound = Returns-pure _ sound
  collect_loop-Sound (suc n) s sound =
      Returns-if s.older_than_since _ _ (λ h. Returns-pure _ sound)
        λ h. Returns-seq _ _ (http-Answered _) λ r answered.
          let turned = turn_page-Sound r.0 r.1 s.token_from s answered sound in
          Returns-if (not (eqb r.0 200)) _ _ (λ h. Returns-raise _)
            λ h.
              Returns-if (not (has_events (chunk_of r.1))) _ _ (λ h. Returns-pure _ sound)
                λ h.
                  Returns-if (is_empty (end_of r.1)) _ _ (λ h. Returns-pure _ turned)
                    λ h. collect_loop-Sound n (turn_page q r.1 s) turned

  pub collect_targets-Sound : (n : ℕ) → Returns (Sound srv q) (collect_targets srv q n)
  unfolding collect_targets
  collect_targets-Sound n =
      collect_loop-Sound n first_scan
        (record { found = tt; counted = λ x. refl; once = λ x. omega arith })
