-- ===== src/Redact/Run.antt =====
-- `main`, from the parsed arguments on.
use shape_rotator_matrix.Base.{
  ℕ, zero, suc, String, Bool, true, false, ◌&&◌, Option, none, some, List, [], ◌∷◌, ltb, eqb,
  length, if◌then◌else◌,
}
use shape_rotator_matrix.Exec.{Exec, pure, modify, ◌>>=◌, ◌>>◌, when}
use shape_rotator_matrix.Redact.Tool.{pause, Tool, Server, login, logout, redact}
use shape_rotator_matrix.Redact.Scan.{Query, Target, collect_targets}

-- The arguments, the password read from its file, and the two parsed times. `paced`: the rate is
-- positive.
pub record Args : Type 0 where
  pub user : String
  pub password : String
  pub room : String
  pub since_ms : ℕ
  pub until_ms : ℕ
  pub dry_run : Bool
  pub limit : ℕ
  pub reason : String
  pub paced : Bool

-- How many redactions were answered with 200, and how many with another status.
pub record Report : Type 0 where
  pub ok_count : ℕ
  pub fail_count : ℕ

-- `targets[:cap]`
unfoldable pub take_targets : ℕ → List Target → List Target
take_targets zero ts = []
take_targets (suc n) [] = []
take_targets (suc n) (t ∷ ts) = t ∷ take_targets n ts

abbrev pub max_pages : ℕ
max_pages = 2000

abbrev pub counted : ℕ → Report → Report
counted status r =
    if eqb status 200
    then record r { ok_count = suc r.ok_count }
    else record r { fail_count = suc r.fail_count }

abbrev pub has_more : List Target → Bool
has_more [] = false
has_more (t ∷ ts) = true

abbrev pub query_of : Args → String → Query
query_of args mxid = record {
  room = args.room;
  sender_mxid = mxid;
  since_ms = args.since_ms;
  until_ms = args.until_ms;
}

module _ (srv : Server) (args : Args) where
  -- The loop over the targets.
  unfoldable pub redact_loop : List Target → Report → Exec Tool Report
  redact_loop [] r = pure r
  redact_loop (t ∷ ts) r = do
    status ← redact srv args.room t.event_id args.reason
    when (args.paced && has_more ts) (modify (λ w. record w { calls = pause ∷ w.calls }))
    redact_loop ts (counted status r)

  -- The body of the `try`.
  unfoldable pub work : String → Exec Tool (Option Report)
  work mxid = do
    s ← collect_targets srv (query_of args mxid) max_pages
    if args.dry_run then pure none else (do
      let cap = if ltb 0 args.limit then args.limit else length s.targets
      r ← redact_loop (take_targets cap s.targets) (record { ok_count = 0; fail_count = 0 })
      pure (some r))

  -- `try: m  finally: logout(...)`
  unfoldable pub finally_logout : Exec Tool (Option Report) → Exec Tool (Option Report)
  unfolding logout ◌>>=◌
  finally_logout m t = let (r, t') = m t in (r, (logout srv t').1)

  unfoldable pub main : Exec Tool (Option Report)
  main = do (token, device, mxid) ← login srv args.user args.password; finally_logout (work mxid)
