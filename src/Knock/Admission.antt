-- ===== src/Knock/Admission.antt =====
-- What a knock does to the code table and the vetting rooms.
use shape_rotator_matrix.Base.{
  ℕ, String, ◌≡◌, ◌⊎◌, inl, inr, true, false, Option, none, some, ◌∷◌, arith, if◌then◌else◌,
}
use shape_rotator_matrix.Text.{strip, is_empty}
use shape_rotator_matrix.Dict.{set}
use shape_rotator_matrix.Exec.{Exn, ok, ◌>>=◌, ◌>>◌}
use shape_rotator_matrix.Exec.Rules.{Preserves, preserves_rules, Preserves-bind}
use shape_rotator_matrix.Exec.Triples.{
  Triple, Triple-bind, Triple-preserves, Triple-if, Triple-both, after,
}
use shape_rotator_matrix.World.{
  save_codes, save_vetting, clock, send_msg, post, request, World, Env, Audit, audit,
}
use shape_rotator_matrix.World.Frames.{
  SameFiles, SameFiles-refl, SameFiles-OnFiles, Preserves-request, Preserves-audit,
}
use shape_rotator_matrix.Haiku.{fetch_wiki_challenge}
use shape_rotator_matrix.Haiku.Files.{Preserves-fetch_wiki_challenge}
use shape_rotator_matrix.Codes.{is_dead, spend}
use shape_rotator_matrix.Knock.{
  new_vetting, create_vetting_room, print_error, admit_knock, handle_knock,
}

-- The knock of `user` with `code` was admitted between the two worlds: one use of the code is
-- spent, and one vetting room for the user is open.
pub record Admitted (e : Env) (code user : String) (a b : World) : Type 0 where
  pub room : String
  pub title : String
  pub keyword : String
  pub now : ℕ
  pub spent : b.codes ≡ spend code a.codes
  pub opened : b.vetting ≡ set room (new_vetting e user code title keyword now) a.vetting
  pub signup : b.signup ≡ a.signup
  pub lobby : b.lobby ≡ a.lobby

module _ (e : Env) (code user : String) (a : World) where
  abbrev pub Settled : World → Type 0
  Settled b = SameFiles a b ⊎ Admitted e code user a b

  admit_lem :
      (vroom title keyword : String) (s : World)
      → SameFiles a s
      → Admitted e code user a (admit_knock e a.codes code user vroom title keyword s).1
  unfolding admit_knock save_codes save_vetting clock send_msg post request audit ◌>>=◌
  admit_lem vroom title keyword s h = record {
    room = vroom;
    title = title;
    keyword = keyword;
    now = e.now s.trace;
    spent = ground arith;
    opened = ground arith;
    signup = ground arith;
    lobby = ground arith;
  }

  Preserves-create : Preserves (SameFiles a) (create_vetting_room e user)
  unfolding create_vetting_room
  Preserves-create = search (preserves_rules, Preserves-request, SameFiles-OnFiles a)

  Preserves-print_error : (err : Option Exn) → Preserves (SameFiles a) (print_error err)
  Preserves-print_error none = search preserves_rules
  Preserves-print_error (some x) = search preserves_rules

  refuse-Preserves :
      (err : Option Exn)
      → Preserves (SameFiles a) (audit (Audit.vetting_room_failed user code) >> print_error err)
  refuse-Preserves err =
      Preserves-bind _ _ (Preserves-audit (SameFiles-OnFiles a) _) (λ _. Preserves-print_error err)

  open_triple :
      (title keyword vroom : String) (err : Option Exn)
      → Triple
          (SameFiles a)
          (if is_empty vroom
            then (audit (Audit.vetting_room_failed user code) >> print_error err)
            else admit_knock e a.codes code user vroom title keyword)
          (λ _. Settled)
          Settled
  open_triple title keyword vroom err =
      Triple-if (is_empty vroom) _ _
        (λ _. Triple-both _ (λ s h. inl ((refuse-Preserves err).from s h)))
        (λ _. Triple-both _ (λ s h. inr (admit_lem vroom title keyword s h)))

  knock_triple :
      Triple
        (SameFiles a)
        (do
          (title, keyword) ← fetch_wiki_challenge e
          (vroom, err) ← create_vetting_room e user
          if is_empty vroom
              then (do audit (Audit.vetting_room_failed user code); print_error err)
              else admit_knock e a.codes code user vroom title keyword)
        (λ _. Settled)
        Settled
  knock_triple =
      Triple-bind _ _
        (Triple-preserves _ (Preserves-fetch_wiki_challenge (SameFiles-OnFiles a) e) (λ s h. inl h))
        (λ (title, keyword).
          Triple-bind _ _ (Triple-preserves _ Preserves-create (λ s h. inl h))
            (λ (vroom, err). open_triple title keyword vroom err))

-- A knock whose code is unknown or has no uses left is logged as rejected, and changes nothing else.
pub handle_knock_dead :
    (e : Env) (room user reason : String) (w : World)
    → is_dead (strip reason) w.codes ≡ true
    → handle_knock e room user reason w
      ≡ (ok tt, record w { log = Audit.knock_rejected user reason ∷ w.log })
unfolding handle_knock audit ◌>>=◌
handle_knock_dead e room user reason w dead = rw (dead, audit)

-- A knock with a live code either changes no state file, or spends exactly one use of that code and
-- opens exactly one vetting room, for the knocker, with the full number of tries. This holds
-- whatever the servers reply, and also where the handler ends with an exception.
pub handle_knock-Settled :
    (e : Env) (room user reason : String) (w : World)
    → is_dead (strip reason) w.codes ≡ false
    → Settled e (strip reason) user w (handle_knock e room user reason w).1
unfolding handle_knock ◌>>=◌
handle_knock-Settled e room user reason w live = rw live (
    after {R = Settled e (strip reason) user w} _ (knock_triple e (strip reason) user w) w
      (SameFiles-refl w))
