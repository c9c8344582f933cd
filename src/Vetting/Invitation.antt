-- ===== src/Vetting/Invitation.antt =====
-- The invitation to the space that `process_vetting_room` sends for an accepted answer, among the
-- requests of a run.
use shape_rotator_matrix.Base.{String, ◌≡◌, refl, ap, true, false, List, [], ◌∷◌, ◌++◌, arith, eqb}
use shape_rotator_matrix.Exec.Triples.{Triple}
use shape_rotator_matrix.World.{World, Env, Request, Reply, answer, failed, main_bot, request}
use shape_rotator_matrix.World.Frames.{OnFiles}
use shape_rotator_matrix.Vetting.{status_of}

-- The later requests come on top of the past ones.
abbrev pub Extends : List Request → List Request → Type 0
Extends past now = (later : List Request) × (now ≡ later ++ past)

abbrev pub invitation : Env → String → Request
invitation e mxid = Request.invite main_bot e.space_id mxid

-- The run invited the user to the space, and the homeserver gave this reply.
abbrev pub Invited : Env → String → (Reply → Type 0) → World → Type 0
Invited e mxid Q w =
    (past : List Request) × Extends (invitation e mxid ∷ past) w.trace
    × Q (e.reply past (invitation e mxid))

-- The invitation was accepted by the homeserver, or its exception has another status.
abbrev pub Went : Reply → Type 0
Went (answer status text) = Unit
Went (failed x) = x.http_status ≡ 200

pub went_lem : (r : Reply) → eqb (status_of r) 200 ≡ true → Went r
went_lem (answer status text) is = tt
went_lem (failed x) is = ground arith

pub not_went_lem : (r : Reply) → eqb (status_of r) 200 ≡ false → ¬ Went r
not_went_lem (answer status text) is_not h = ground arith
not_went_lem (failed x) is_not h = ground arith

module _ (e : Env) where
  pub Invited-OnFiles : (mxid : String) (Q : Reply → Type 0) → OnFiles (Invited e mxid Q)
  Invited-OnFiles mxid Q = record {
    on_trace = λ w r h. (h.0, (r ∷ h.1.0, ap (λ t. r ∷ t) h.1.1), h.2);
    on_log = λ w l h. h;
    on_drawn = λ w n h. h;
  }

  pub invite_lem :
      (mxid : String)
      → Triple
          (λ w. Unit)
          (request e (invitation e mxid))
          (λ r w. Invited e mxid (λ r'. r' ≡ r) w)
          (λ w. Unit)
  unfolding request
  invite_lem mxid = record { run = λ w h. (w.trace, ([], refl), refl) }
