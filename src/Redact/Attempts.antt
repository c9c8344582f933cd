-- ===== src/Redact/Attempts.antt =====
-- How many redactions a run of the script attempts, and of what.
use shape_rotator_matrix.Base.{
  ℕ, zero, suc, ◌+◌, ◌≤◌, String, ◌≡◌, ap, ◌∙◌, Bool, true, false, not, ◌&&◌, List, [], ◌∷◌, length,
  All, eqb, arith,
}
use shape_rotator_matrix.Text.{is_empty}
use shape_rotator_matrix.Exec.{Exec, ◌>>=◌, modify, when}
use shape_rotator_matrix.Exec.Rules.{
  Preserves, Preserves-pure, Preserves-if, Preserves-bind, Preserves-modify, Preserves-skip,
}
use shape_rotator_matrix.Exec.Triples.{
  Triple, Triple-bind, Triple-pure, Triple-raise, Triple-ends, Triple-both, Triple-if, after,
}
use shape_rotator_matrix.Redact.Tool.{Body, messages_call, pause, Tool, Server}
use shape_rotator_matrix.Redact.Scan.{
  Query, Target, Scan, first_scan, chunk_of, end_of, has_events, turn_page, take_page, collect_loop,
  collect_targets,
}
use shape_rotator_matrix.Redact.Run.{Args, Report, counted, has_more, redact_loop}
use shape_rotator_matrix.Redact.Wanted.{count, ids}
use shape_rotator_matrix.Redact.Calls.{redacted, walked, http-calls, redact-calls}

-- From `l` to `l'`, only ids of `xs` have been added, none oftener than it stands in `xs`.
pub record Grows (P : String → Type 0) (xs l l' : List String) : Type 0 where
  pub counts : (x : String) → count x l' ≤ count x l + count x xs
  pub size : length l' ≤ length l + length xs
  pub only : All P l → All P xs → All P l'

module _ (P : String → Type 0) where
  Grows-one : (x : String) (xs l : List String) → Grows P (x ∷ xs) l (x ∷ l)
  Grows-one x xs l = record {
    counts = λ y. omega arith;
    size = omega arith;
    only = λ h k. (k.0, h);
  }

  Grows-cons : (x : String) (xs l l' : List String) → Grows P xs (x ∷ l) l' → Grows P (x ∷ xs) l l'
  Grows-cons x xs l l' g = record {
    counts = λ y. omega (arith, g.counts y);
    size = omega (arith, g.size);
    only = λ h k. g.only (k.0, h) k.1;
  }

  Grows-none : (xs l : List String) → Grows P xs l l
  Grows-none xs l = record { counts = λ y. omega arith; size = omega arith; only = λ h k. h }

module _ (srv : Server) (args : Args) (P : String → Type 0) where
  pause_lem :
      (b : Bool) (l : List String) (t : Tool)
      → redacted t.calls ≡ l
      → redacted (when b (modify (λ w. record w { calls = pause ∷ w.calls })) t).1.calls ≡ l
  unfolding ◌>>=◌
  pause_lem true l t h = h
  pause_lem false l t h = h

  pub redact_loop-Grows :
      (ts : List Target) (r : Report) (l : List String)
      → let R = λ (v : Tool). Grows P (ids ts) l (redacted v.calls) in
        Triple (λ v. redacted v.calls ≡ l) (redact_loop srv args ts r) (λ _ v. R v) R
  unfolding redact_loop
  redact_loop-Grows [] r l = Triple-pure r (λ v h. rw h (Grows-none P [] l))
  redact_loop-Grows (x ∷ ts) r l =
      Triple-bind _ _
        (Triple-ends _
          (λ v h.
            ap (λ (w : Tool). redacted w.calls)
              (redact-calls srv args.room x.event_id args.reason v)
            ∙ ap (◌∷◌ x.event_id) h)
          (λ v h. rw h (Grows-one P x.event_id (ids ts) l)))
        λ status.
          Triple-bind _ _
            (Triple-ends _ (λ v h. pause_lem (args.paced && has_more ts) (x.event_id ∷ l) v h)
              (λ v h. rw h (Grows-one P x.event_id (ids ts) l)))
            λ _. Triple-both _ λ v h. Grows-cons P x.event_id (ids ts) l _ (
              after {R = λ (w : Tool). Grows P (ids ts) (x.event_id ∷ l) (redacted w.calls)} _
                (redact_loop-Grows ts (counted status r) (x.event_id ∷ l)) v h)

  pub redact_loop-walked :
      (ts : List Target) (r : Report) (k : ℕ)
      → Preserves (λ v. walked v.calls ≤ k) (redact_loop srv args ts r)
  unfolding redact_loop
  redact_loop-walked [] r k = Preserves-pure _
  redact_loop-walked (x ∷ ts) r k =
      Preserves-bind _ _
        (record { from = λ v h. rw (redact-calls srv args.room x.event_id args.reason v) h })
        λ status.
          Preserves-bind _ _
            (Preserves-if (args.paced && has_more ts) _ _ (Preserves-modify _ (λ v h. h))
              Preserves-skip)
            λ _. redact_loop-walked ts (counted status r) k

-- The walk requests no redaction, and at most `n` pages.
module _ (srv : Server) (q : Query) (l : List String) where
  abbrev pub Walks : ℕ → Tool → Type 0
  Walks k v = (redacted v.calls ≡ l) × (walked v.calls ≤ k)

  Walks-weaken : (j k : ℕ) (v : Tool) → j ≤ k → Walks j v → Walks k v
  Walks-weaken j k v le h = (h.0, omega (arith, le, h.1))

  abbrev pub WalksTo : {A : Type 0} → ℕ → Exec Tool A → ℕ → Type 0
  WalksTo j m k = Triple (Walks j) m (λ _ v. Walks k v) (Walks k)

  take_page-Walks :
      (s : Scan) (more : Scan → Exec Tool Scan) (j k : ℕ) (r : ℕ × Body)
      → j ≤ k
      → ((s' : Scan) → WalksTo j (more s') k)
      → WalksTo j (take_page q s more r) k
  take_page-Walks s more j k r le rest =
      Triple-if (not (eqb r.0 200)) _ _ (λ _. Triple-raise _ λ v h. Walks-weaken j k v le h)
        λ _.
          Triple-if (not (has_events (chunk_of r.1))) _ _
            (λ _. Triple-pure _ λ v h. Walks-weaken j k v le h)
            λ _.
              Triple-if (is_empty (end_of r.1)) _ _
                (λ _. Triple-pure _ λ v h. Walks-weaken j k v le h) (λ _. rest (turn_page q r.1 s))

  pub collect_loop-Walks : (n j k : ℕ) (s : Scan) → n + j ≤ k → WalksTo j (collect_loop srv q n s) k
  unfolding collect_loop
  collect_loop-Walks zero j k s le = Triple-pure s λ v h. Walks-weaken j k v (omega (arith, le)) h
  collect_loop-Walks (suc n) j k s le =
      Triple-if s.older_than_since _ _
        (λ _. Triple-pure s λ v h. Walks-weaken j k v (omega (arith, le)) h)
        λ _.
          Triple-bind _ _
            (Triple-ends {Q = Walks (suc j)} _
              (λ v h.
                rw (http-calls srv (messages_call q.room s.token_from) v) (h.0, omega (arith, h.1)))
              (λ v h. Walks-weaken (suc j) k v (omega (arith, le)) h))
            λ r.
              take_page-Walks s (collect_loop srv q n) (suc j) k r (omega (arith, le))
                λ s'. collect_loop-Walks n (suc j) k s' (omega (arith, le))

  pub collect_targets-Walks : (n : ℕ) → WalksTo 0 (collect_targets srv q n) n
  unfolding collect_targets
  collect_targets-Walks n = collect_loop-Walks n 0 n first_scan (omega arith)
