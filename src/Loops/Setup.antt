-- ===== src/Loops/Setup.antt =====
-- The set-up of the crypto store before the main loop.
use shape_rotator_matrix.Base.{String, ◌≡◌, Option, none, some, List, [], ◌∷◌}
use shape_rotator_matrix.Exec.{Exn, Outcome, ok, raised, ◌>>◌, from_outcome, from_error}
use shape_rotator_matrix.Exec.Rules.{
  Preserves, Preserves-bind, Preserves-pure, Preserves-raise, Preserves-gets, Preserves-skip,
  Preserves-modify,
}
use shape_rotator_matrix.Credentials.{Boot, Server, Entry}
use shape_rotator_matrix.Heal.{
  or_fail, put_group_session, import_sessions, import_file, import_inbound_sessions,
}
use shape_rotator_matrix.Loops.{open_crypto}

-- The set-up of the crypto store leaves the file of the position alone.
abbrev pub Stays : Boot → Boot → Type 0
Stays b c = c.disk.sync_since ≡ b.disk.sync_since

fail_lem : (b : Boot) (o : Option Exn) → Preserves (Stays b) (or_fail o)
fail_lem b none = Preserves-skip
fail_lem b (some x) = Preserves-raise x

outcome_lem : {A : Type 0} (b : Boot) (r : Outcome A) → Preserves (Stays b) (from_outcome r)
outcome_lem b (ok a) = Preserves-pure a
outcome_lem b (raised x) = Preserves-raise x

error_lem : (b : Boot) (o : Option Exn) → Preserves (Stays b) (from_error o)
error_lem b none = Preserves-skip
error_lem b (some x) = Preserves-raise x

sessions_lem :
    (b : Boot) (s : Server) (es : List Entry) → Preserves (Stays b) (import_sessions s es)
unfolding import_sessions put_group_session
sessions_lem b s [] = Preserves-skip
sessions_lem b s (entry ∷ es) = Preserves-bind _ _ (outcome_lem b _) λ h.
    Preserves-bind _ _ (Preserves-bind _ _ (fail_lem b _) λ _. Preserves-modify _ (λ c g. g))
      λ _. sessions_lem b s es

file_lem : (b : Boot) (s : Server) (f : Option (List Entry)) → Preserves (Stays b) (import_file s f)
file_lem b s none = Preserves-skip
file_lem b s (some es) = sessions_lem b s es

pub setup-Stays :
    (b : Boot) (s : Server) (mxid device : String)
    → Preserves (Stays b) (do open_crypto s mxid device; import_inbound_sessions s)
unfolding open_crypto import_inbound_sessions
setup-Stays b s mxid device =
    Preserves-bind _ _ (Preserves-bind _ _ (Preserves-modify _ (λ c g. g)) λ _. error_lem b _)
      λ _. Preserves-bind _ _ (Preserves-gets _) λ f. file_lem b s f
