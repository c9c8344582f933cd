-- ===== src/Redact/Limits.antt =====
-- What a run of the script may do at most.
use shape_rotator_matrix.Base.{
  ℕ, zero, suc, ◌≤◌, ◌<◌, String, ◌≡◌, sym, ap, true, false, none, some, List, [], ◌∷◌, length, All,
  ltb, arith, if◌then◌else◌,
}
use shape_rotator_matrix.Exec.Triples.{
  Triple, Triple-bind, Triple-pure, Triple-both, Triple-if, Triple-with, after,
}
use shape_rotator_matrix.Redact.Tool.{Event, Call, Tool, Server}
use shape_rotator_matrix.Redact.Scan.{Query, Target, Scan}
use shape_rotator_matrix.Redact.Run.{Args, take_targets, max_pages, query_of, work}
use shape_rotator_matrix.Redact.Wanted.{
  Wanted, Listed, count, id_of, ids, IsFound, Sound, collect_targets-Sound,
}
use shape_rotator_matrix.Redact.Calls.{redacted, walked}
use shape_rotator_matrix.Redact.Attempts.{
  Grows, redact_loop-Grows, redact_loop-walked, Walks, collect_targets-Walks,
}

-- The id of an event that was listed and is wanted.
abbrev pub IsWantedId : Server → Query → String → Type 0
IsWantedId srv q id = (ev : Event) × Listed srv q ev × Wanted q ev × (ev.event_id ≡ id)

-- The requests that a run with these arguments may have made.
pub record Within (srv : Server) (args : Args) (mxid : String) (calls : List Call) : Type 0 where
  pub wanted : All (IsWantedId srv (query_of args mxid)) (redacted calls)
  pub once : (id : String) → count id (redacted calls) ≤ 1
  pub limited : 0 < args.limit → length (redacted calls) ≤ args.limit
  pub dry : args.dry_run ≡ true → redacted calls ≡ []
  pub pages : walked calls ≤ max_pages

module _ (P : String → Type 0) where
  take-All : (n : ℕ) (ts : List Target) → All P (ids ts) → All P (ids (take_targets n ts))
  unfolding take_targets
  take-All zero ts h = tt
  take-All (suc n) [] h = tt
  take-All (suc n) (t ∷ ts) h = (h.0, take-All n ts h.1)

count-take :
    (x : String) (n : ℕ) (ts : List Target) → count x (ids (take_targets n ts)) ≤ count x (ids ts)
unfolding take_targets
count-take x zero ts = omega arith
count-take x (suc n) [] = omega arith
count-take x (suc n) (t ∷ ts) = omega (arith, count-take x n ts)

length-take : (n : ℕ) (ts : List Target) → length (ids (take_targets n ts)) ≤ n
unfolding take_targets
length-take zero ts = omega arith
length-take (suc n) [] = omega arith
length-take (suc n) (t ∷ ts) = omega (arith, length-take n ts)

All-ids :
    (srv : Server) (q : Query) (ts : List Target)
    → All (IsFound srv q) ts
    → All (IsWantedId srv q) (ids ts)
All-ids srv q [] h = tt
All-ids srv q (t ∷ ts) ((ev, listed, wanted, is), h) =
    ((ev, listed, wanted, sym (ap id_of is)), All-ids srv q ts h)

module _ (srv : Server) (args : Args) (mxid : String) where
  abbrev pub IsWithin : Tool → Type 0
  IsWithin v = Within srv args mxid v.calls

  idle_lem : (v : Tool) → Walks srv (query_of args mxid) [] max_pages v → IsWithin v
  idle_lem v (none', pages) = record {
    wanted = rw none' tt;
    once = λ id. rw none' (omega arith);
    limited = λ h. rw none' (omega arith);
    dry = λ h. none';
    pages = pages;
  }

  limit_lem :
      (n k : ℕ) → n ≤ (if ltb 0 args.limit then args.limit else k) → 0 < args.limit → n ≤ args.limit
  limit_lem n k le positive = ground arith

  abbrev cap : Scan → ℕ
  cap s = if ltb 0 args.limit then args.limit else length s.targets

  done_lem :
      (s : Scan) (calls : List Call)
      → Sound srv (query_of args mxid) s
      → Grows
          (IsWantedId srv (query_of args mxid))
          (ids (take_targets (cap s) s.targets))
          []
          (redacted calls)
      → walked calls ≤ max_pages
      → args.dry_run ≡ false
      → Within srv args mxid calls
  done_lem s calls sound grows pages wet = record {
    wanted = grows.only tt (
        take-All (IsWantedId srv (query_of args mxid)) (cap s) s.targets
          (All-ids srv (query_of args mxid) s.targets sound.found));
    once = λ id.
        omega (
          arith,
          grows.counts id,
          count-take id (cap s) s.targets,
          sound.counted id,
          sound.once id,
        );
    limited =
        limit_lem _ (length s.targets) (omega (arith, grows.size, length-take (cap s) s.targets));
    dry = λ h. cc (h, wet);
    pages = pages;
  }

  pub work-IsWithin :
      Triple (Walks srv (query_of args mxid) [] 0) (work srv args mxid) (λ _ v. IsWithin v) IsWithin
  unfolding work
  work-IsWithin =
      Triple-bind _ _
        (Triple-with (Walks srv (query_of args mxid) [] max_pages) _ IsWithin
          (Sound srv (query_of args mxid)) _
          (collect_targets-Walks srv (query_of args mxid) [] max_pages)
          (collect_targets-Sound srv (query_of args mxid) max_pages) idle_lem)
        λ s.
          Triple-if args.dry_run _ _ (λ h. Triple-pure none λ v k. idle_lem v k.0)
            λ wet.
              Triple-bind _ _
                (Triple-both _ λ v k.
                  done_lem s _ k.1
                    (after _
                      (redact_loop-Grows srv args (IsWantedId srv (query_of args mxid))
                        (take_targets (cap s) s.targets) _ [])
                      v k.0.0)
                    ((redact_loop-walked srv args (IsWantedId srv (query_of args mxid))
                        (take_targets (cap s) s.targets) _ max_pages).from
                      v k.0.1)
                    wet)
                λ r. Triple-pure (some r) λ v k. k
