-- ===== src/Loops/Follows.antt =====
-- Whole runs of the two loops, which follow the replies.
use shape_rotator_matrix.Base.{◌∙◌, ℕ, String, ◌≡◌, refl, ap, Option, none, some, if◌then◌else◌}
use shape_rotator_matrix.Text.{is_empty}
use shape_rotator_matrix.Text.Strip.{strip_again}
use shape_rotator_matrix.Exec.{
  Outcome, ok, raised, Stmt, gets, skip, ◌>>=◌, ◌>>◌, from_outcome, on_option,
}
use shape_rotator_matrix.Exec.Rules.{
  Preserves, Preserves-bind, Preserves-pure, Preserves-raise, Preserves-gets, Preserves-skip,
}
use shape_rotator_matrix.Exec.Triples.{
  Triple, Triple-if, Triple-bind, Triple-preserves, Triple-gets, after,
}
use shape_rotator_matrix.World.{Env}
use shape_rotator_matrix.Credentials.{Server, read_text}
use shape_rotator_matrix.Loops.{
  Looping, Source, on_boot, open_crypto, main_turn, lobby_turn, turns, position, lobby_whoami,
  lobby_sync_loop, sync_loop,
}
use shape_rotator_matrix.Loops.Setup.{setup-Stays}
use shape_rotator_matrix.Heal.{import_inbound_sessions}
use shape_rotator_matrix.Loops.Cursor.{IsFollowing, At, main_triple, lobby_triple, turns_triple}

module _ (start : Option String) where
  read-position : (f : Option String) → read_text (position f) ≡ read_text f
  unfolding read_text
  read-position none = refl
  read-position (some t) = ap (λ s. if is_empty s then none else some s) (strip_again t)

  setup-IsFollowing :
      (s : Server) (mxid device : String)
      → Preserves
          (IsFollowing start)
          (on_boot (do open_crypto s mxid device; import_inbound_sessions s))
  unfolding on_boot
  setup-IsFollowing s mxid device = record {
    from = λ x h. record {
      chain = h.chain;
      file = (setup-Stays x.boot s mxid device).from x.boot refl ∙ h.file;
    };
  }

  -- The position is read from the file at the start of a loop.
  begin_triple :
      (m : Option String → Stmt Looping)
      → ((since : Option String)
          → Triple (At start since) (m since) (λ _ x. IsFollowing start x) (IsFollowing start))
      → Triple
          (IsFollowing start)
          (do since ← gets (λ x. position x.boot.disk.sync_since); m since)
          (λ _ x. IsFollowing start x)
          (IsFollowing start)
  begin_triple m t =
      Triple-bind _ _
        (Triple-gets (λ x. position x.boot.disk.sync_since)
          (λ x h. record { following = h; here = read-position x.boot.disk.sync_since }))
        t

  lobby_whoami-IsFollowing : (c : Source) → Preserves (IsFollowing start) (lobby_whoami c)
  unfolding lobby_whoami
  lobby_whoami-IsFollowing c =
      Preserves-bind _ _ (Preserves-gets _)
        λ asks. Preserves-bind _ _ (outcome_lem (c.whoami asks)) λ reply. Preserves-pure _
    where
      outcome_lem : {A : Type 0} (r : Outcome A) → Preserves (IsFollowing start) (from_outcome r)
      outcome_lem (ok a) = Preserves-pure a
      outcome_lem (raised x) = Preserves-raise x

  found_triple :
      (e : Env) (c : Source) (n : ℕ) (found : Option String)
      → Triple
          (IsFollowing start)
          (on_option found skip (λ self. if is_empty self then skip else do
            since ← gets (λ x. position x.boot.disk.sync_since)
            turns c (lobby_turn e self) n since))
          (λ _ x. IsFollowing start x)
          (IsFollowing start)
  found_triple e c n none = Triple-preserves _ Preserves-skip (λ x h. h)
  found_triple e c n (some self) =
      Triple-if (is_empty self) _ _ (λ h. Triple-preserves _ Preserves-skip (λ x h. h))
        (λ h.
          begin_triple _ (turns_triple start c (lobby_turn e self) (lobby_triple start e self) n))

  lobby_sync_loop-IsFollowing :
      (e : Env) (c : Source) (n : ℕ) (x : Looping)
      → IsFollowing start x
      → IsFollowing start (lobby_sync_loop e c n x).1
  unfolding lobby_sync_loop
  lobby_sync_loop-IsFollowing e c n x h =
      after (lobby_sync_loop e c n)
        (Triple-bind _ _ (Triple-preserves _ (lobby_whoami-IsFollowing c) (λ y g. g))
          (found_triple e c n))
        x h

  sync_loop-IsFollowing :
      (e : Env) (c : Source) (s : Server) (n : ℕ) (x : Looping)
      → IsFollowing start x
      → IsFollowing start (sync_loop e c s n x).1
  unfolding sync_loop
  sync_loop-IsFollowing e c s n x h =
      after (sync_loop e c s n)
        (Triple-bind _ _ (Triple-gets _ (λ y g. g)) λ i.
          Triple-bind _ _ (Triple-preserves _ (setup-IsFollowing s _ _) (λ y g. g))
            λ _. begin_triple _ (turns_triple start c (main_turn _) (main_triple start _) n))
        x h

-- Where every request so far started at the end of the last batch before it, and the file of the
-- position holds where the last batch ended, a run of either loop keeps it so: for any number of
-- turns, whatever the homeserver replies and however the run ends. A batch counts as taken also where
-- an exception in its handling ended the loop. What a wipe does to the file is not part of a run.
pub loops-IsFollowing :
    (start : Option String) (e : Env) (c : Source) (s : Server) (n : ℕ) (x : Looping)
    → IsFollowing start x
    → IsFollowing start (sync_loop e c s n x).1 × IsFollowing start (lobby_sync_loop e c n x).1
loops-IsFollowing start e c s n x h =
    (sync_loop-IsFollowing start e c s n x h, lobby_sync_loop-IsFollowing start e c n x h)
