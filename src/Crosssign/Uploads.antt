-- ===== src/Crosssign/Uploads.antt =====
-- The requests of `upload`.
use shape_rotator_matrix.Base.{
  ℕ, true, subst, arith, String, ◌≡◌, refl, Option, none, some, List, ◌∷◌, inl, inr, eqb,
  if◌then◌else◌,
}
use shape_rotator_matrix.Text.{is_empty}
use shape_rotator_matrix.Exec.{Outcome, ok, raised, from_outcome, raise, skip, ◌>>=◌, on_option}
use shape_rotator_matrix.Exec.Triples.{
  Post, Triple, Triple-preserves, Triple-bind, Triple-if, Triple-raise,
}
use shape_rotator_matrix.Crosssign.Keys.{KeySet, Crypto}
use shape_rotator_matrix.Crosssign.Requests.{
  Auth, Call, upload_keys, Body, Audit, Work, Server, request, runtime_error,
}
use shape_rotator_matrix.Crosssign.Frames.{OnWork, from_outcome-Preserves}
use shape_rotator_matrix.Crosssign.Bootstrap.{
  retry_upload, authorize, retry_failed, upload_failed, needs_uia, upload,
}
use shape_rotator_matrix.Crosssign.Chain.{Replied}

-- The log so far, and the upload of the keys.
abbrev pub Logged : List Audit → Work → Type 0
Logged l w = w.log ≡ l

abbrev pub Uploaded : Server → List Audit → KeySet → Work → Type 0
Uploaded srv l ks w =
    (w.log ≡ l)
    × (auth : Option Auth) × (body : Outcome Body) × Replied srv (upload_keys ks auth) (200, body)
        w.calls

pub Logged-OnWork : (l : List Audit) → OnWork (Logged l)
Logged-OnWork l = record { on_call = λ w c h. h; on_key = λ w n h. h }

pub Uploaded-OnWork : (srv : Server) (l : List Audit) (ks : KeySet) → OnWork (Uploaded srv l ks)
Uploaded-OnWork srv l ks = record {
  on_call = λ w c (log, auth, body, h). (log, auth, body, inr h);
  on_key = λ w n h. h;
}

pub Replied-OnWork :
    {Q : Work → Type 0} (srv : Server) (c : Call) (r : ℕ × Outcome Body)
    → OnWork Q
    → OnWork (λ w. Q w × Replied srv c r w.calls)
Replied-OnWork srv c r q = record {
  on_call = λ w d h. (q.on_call w d h.0, inr h.1);
  on_key = λ w n h. (q.on_key w n h.0, h.1);
}

pub accepted :
    (srv : Server) (c : Call) (r : ℕ × Outcome Body) (calls : List Call)
    → eqb r.0 200 ≡ true
    → Replied srv c r calls
    → Replied srv c (200, r.1) calls
accepted srv c r calls e h =
    let same : r.0 ≡ 200 = ground (arith, e) in subst (λ n. Replied srv c (n, r.1) calls) same h

skip_lem : {P Q R : Work → Type 0} → ((w : Work) → P w → Q w) → Triple P skip (λ _ w. Q w) R
unfolding skip
skip_lem h = record { run = h }

module _ (e : Crypto) (srv : Server) where
  pub request_lem :
      {Q R : Work → Type 0} (c : Call)
      → OnWork Q
      → ((w : Work) → Q w → R w)
      → Triple Q (request srv c) (λ r w. Q w × Replied srv c r w.calls) R
  unfolding request ◌>>=◌
  request_lem {Q = Q} {R = R} c q weaken = record {
    run = λ w h. reply_lem w h (srv w.calls c) refl;
  }
    where
      reply_lem :
          (w : Work)
          → Q w
          → (reply : Outcome (ℕ × Outcome Body)) → srv w.calls c ≡ reply
          → Post
              (λ r w'. Q w' × Replied srv c r w'.calls)
              R
              (from_outcome reply (record w { calls = c ∷ w.calls }))
      reply_lem w h (ok r) e = (q.on_call w c h, inl (refl, e))
      reply_lem w h (raised x) e = weaken _ (q.on_call w c h)

  module _ (l : List Audit) (ks : KeySet) (user_id password : String) where
    retry_lem :
        (P : Work → Type 0) (session : String)
        → OnWork P
        → ((w : Work) → P w → Logged l w)
        → Triple P
            (retry_upload e srv ks user_id password session)
            (λ _ w. Uploaded srv l ks w)
            (Logged l)
    unfolding retry_upload
    retry_lem P session q weaken = Triple-bind _ _ (request_lem _ q weaken) λ r.
        Triple-if (eqb r.0 200) skip (raise retry_failed)
          (λ fine. skip_lem (λ w h. (weaken w h.0, _, r.1, accepted srv _ r w.calls fine h.1)))
          (λ _. Triple-raise retry_failed (λ w h. weaken w h.0))

    session_lem :
        (P : Work → Type 0) (session : Option String)
        → OnWork P
        → ((w : Work) → P w → Logged l w)
        → Triple P
            (on_option session
              (raise (runtime_error "no UIA session"))
              (λ s. retry_upload e srv ks user_id password s))
            (λ _ w. Uploaded srv l ks w)
            (Logged l)
    session_lem P none q weaken = Triple-raise _ weaken
    session_lem P (some session) q weaken = retry_lem P session q weaken

    authorize_lem :
        (P : Work → Type 0) (reply : Outcome Body)
        → OnWork P
        → ((w : Work) → P w → Logged l w)
        → Triple P
            (authorize e srv ks user_id password reply)
            (λ _ w. Uploaded srv l ks w)
            (Logged l)
    unfolding authorize
    authorize_lem P reply q weaken =
        Triple-if (is_empty password) (raise needs_uia) _ (λ _. Triple-raise needs_uia weaken)
          (λ _.
            Triple-bind _ _ (Triple-preserves _ (from_outcome-Preserves q e srv reply) weaken)
              λ uia. session_lem P uia.session q weaken)

    pub upload_lem :
        Triple (Logged l) (upload e srv ks user_id password) (λ _ w. Uploaded srv l ks w) (Logged l)
    unfolding upload
    upload_lem = Triple-bind _ _ (request_lem _ (Logged-OnWork l) (λ w h. h)) λ r.
        let q = Replied-OnWork srv (upload_keys ks none) r (Logged-OnWork l) in
        Triple-if (eqb r.0 401) (authorize e srv ks user_id password r.1)
          (if eqb r.0 200 then skip else raise upload_failed)
          (λ _. authorize_lem _ r.1 q (λ w h. h.0))
          (λ _.
            Triple-if (eqb r.0 200) skip (raise upload_failed)
              (λ fine. skip_lem (λ w h. (h.0, none, r.1, accepted srv _ r w.calls fine h.1)))
              (λ _. Triple-raise upload_failed (λ w h. h.0)))
