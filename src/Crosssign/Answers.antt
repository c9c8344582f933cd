-- ===== src/Crosssign/Answers.antt =====
-- How `crosssign_handler` answers.
use shape_rotator_matrix.Base.{
  ℕ, eqb, arith, subst, not, ◌&&◌, List, ap, String, Bool, true, false, ◌≡◌, refl, Bool-cases,
  Option, none, some, ◌∷◌, inl, inr,
}
use shape_rotator_matrix.Text.{is_empty, strip}
use shape_rotator_matrix.Exec.{Outcome, ok, raised, raise, from_outcome, pure, ◌>>=◌, try_except}
use shape_rotator_matrix.Exec.Triples.{Post, Triple, Triple-preserves, Triple-bind, Triple-return}
use shape_rotator_matrix.Crosssign.Keys.{Object, KeySet, Crypto, sign_object, key_set}
use shape_rotator_matrix.Crosssign.Requests.{
  Body, Call, upload_signature, Audit, crosssign_failed, crosssign_ok, Work, Server, note,
}
use shape_rotator_matrix.Crosssign.Frames.{generate-Preserves, whoami-Preserves, find-Preserves}
use shape_rotator_matrix.Crosssign.Bootstrap.{
  Result, Response, bad_json, missing_fields, failed, done, Form, noted, sign_device, crosssign,
  crosssign_handler,
}
use shape_rotator_matrix.Crosssign.Chain.{
  Replied, DeviceSigned, IsRooted, sign_object-IsSigned, key_set-IsChained,
}
use shape_rotator_matrix.Crosssign.Uploads.{
  Logged, Uploaded, Logged-OnWork, Uploaded-OnWork, accepted, request_lem, upload_lem,
}

module _ (e : Crypto) (srv : Server) (verify : String → String → String → Bool)
    (verifies : (key text : String) → verify (e.public_of key) text (e.sign key text) ≡ true) where
  device_lem :
      (b : Bool) (user_id device_id ssk : String) (d : Object) (r : ℕ × Outcome Body) (body : Body)
      (calls : List Call)
      → (eqb r.0 200 && not body.has_failures) ≡ b
      → r.1 ≡ ok body
      → Replied srv
          (upload_signature user_id device_id (sign_object e d ssk user_id (e.public_of ssk)))
          r
          calls
      → DeviceSigned srv e verify user_id device_id ssk calls b
  device_lem false user_id device_id ssk d r body calls e1 e2 h = tt
  device_lem true user_id device_id ssk d r body calls e1 e2 h =
      let fine : eqb r.0 200 ≡ true = ground (arith, e1) in
      (
        _,
        body,
        subst
            (λ o.
              Replied srv
                (upload_signature user_id device_id (sign_object e d ssk user_id (e.public_of ssk)))
                (200, o) calls)
            e2 (accepted srv _ r calls fine h),
        ground (arith, e1),
        sign_object-IsSigned e verify verifies d ssk user_id,
      )

  module _ (l : List Audit) (ks : KeySet) (user_id device_id ssk : String) where
    body_lem :
        (d : Object) (r : ℕ × Outcome Body) (o : Outcome Body)
        → r.1 ≡ o
        → Triple
            (λ w.
              Uploaded srv l ks w
              × Replied srv
                  (upload_signature user_id device_id
                    (sign_object e d ssk user_id (e.public_of ssk)))
                  r
                  w.calls)
            (do body ← from_outcome o; pure (eqb r.0 200 && not body.has_failures))
            (λ b w. Uploaded srv l ks w × DeviceSigned srv e verify user_id device_id ssk w.calls b)
            (Logged l)
    unfolding pure raise ◌>>=◌
    body_lem d r (raised x) same = record { run = λ w h. h.0.0 }
    body_lem d r (ok body) same = record {
      run = λ w h. (h.0, device_lem _ user_id device_id ssk d r body w.calls refl same h.1);
    }

    sign_lem :
        (found : Option Object)
        → Triple
            (Uploaded srv l ks)
            (sign_device e srv user_id device_id ssk found)
            (λ b w. Uploaded srv l ks w × DeviceSigned srv e verify user_id device_id ssk w.calls b)
            (Logged l)
    unfolding sign_device
    sign_lem none = Triple-return false (λ w h. (h, tt))
    sign_lem (some d) =
        Triple-bind _ _ (request_lem e srv _ (Uploaded-OnWork srv l ks) (λ w h. h.0))
          λ r. body_lem d r r.1 refl

  crosssign_lem :
      (l : List Audit) (password : String)
      → Triple
          (Logged l)
          (crosssign e srv password)
          (λ r w. Logged l w × IsRooted srv e verify r w)
          (Logged l)
  unfolding crosssign
  crosssign_lem l password =
      let q = Logged-OnWork l in
      let new = Triple-preserves _ (generate-Preserves q e srv) (λ w h. h) in
      Triple-bind _ _ (Triple-preserves _ (whoami-Preserves q e srv) (λ w h. h)) λ ids.
        Triple-bind _ _ new λ msk. Triple-bind _ _ new λ ssk. Triple-bind _ _ new λ usk.
          let ks = key_set e ids.0 msk ssk usk in
          Triple-bind _ _ (upload_lem e srv l ks ids.0 password) λ _.
            Triple-bind _ _
              (Triple-preserves _ (find-Preserves (Uploaded-OnWork srv l ks) e srv 4 ids.0 ids.1)
                (λ w h. h.0))
              λ found. Triple-bind _ _ (sign_lem l ks ids.0 ids.1 ssk found) λ signed.
                Triple-return _ (λ w h. (
                  h.0.0,
                  record {
                    keys = ks;
                    auth = h.0.1;
                    body = h.0.2;
                    uploaded = h.0.3;
                    chained = key_set-IsChained e verify verifies _;
                    device = h.1;
                  },
                ))

-- How a request is answered.
abbrev pub Answered :
    Server → Crypto → (String → String → String → Bool) → Work → Response → Work → Type 0
Answered srv e verify w bad_json w' = w' ≡ w
Answered srv e verify w missing_fields w' = w' ≡ w
Answered srv e verify w (failed text) w' = w'.log ≡ crosssign_failed text ∷ w.log
Answered srv e verify w (done r) w' =
    (w'.log ≡ crosssign_ok r.user_id (e.public_of r.msk) ∷ w.log) × IsRooted srv e verify r w'

module _ (e : Crypto) (srv : Server) (verify : String → String → String → Bool) (w : Work) where
  response_lem :
      (o : Outcome Result) (t : Work)
      → Post (λ r t'. Logged w.log t' × IsRooted srv e verify r t') (Logged w.log) (o, t)
      → (response : Response) × (w' : Work) × ((do
        response ← try_except (do r ← (λ _. (o, t)); pure (done r)) (λ x. pure (failed x.text))
        noted e srv response)
            w
          ≡ (ok response, w'))
        × Answered srv e verify w response w'
  unfolding note ◌>>=◌
  response_lem (ok r) t h = (
    _,
    _,
    refl,
    (
      ap (λ log. crosssign_ok r.user_id (e.public_of r.msk) ∷ log) h.0,
      record {
        keys = h.1.keys;
        auth = h.1.auth;
        body = h.1.body;
        uploaded = h.1.uploaded;
        chained = h.1.chained;
        device = h.1.device;
      },
    ),
  )
  response_lem (raised x) t h = (_, _, refl, ap (λ log. crosssign_failed x.text ∷ log) h)

-- Where every signature that a key makes is valid under its public key, POST /signup/api/crosssign is
-- answered whatever the homeserver replies. A refused form changes nothing, and a failure is noted in
-- the audit log. An answer with keys is noted too; then the homeserver accepted an upload of the three
-- public keys of that user, each for its use and with a valid signature of the master key of the
-- answer, and where the answer says that the device is signed, it accepted without failures an object
-- of the device with a valid signature of the self-signing key of the answer.
pub crosssign_handler-Answered :
    (e : Crypto) (srv : Server) (verify : String → String → String → Bool)
    (verifies : (key text : String) → verify (e.public_of key) text (e.sign key text) ≡ true)
    (form : Option Form) (w : Work)
    → (response : Response) × (w' : Work) × (crosssign_handler e srv form w ≡ (ok response, w'))
      × Answered srv e verify w response w'
unfolding crosssign_handler ◌>>=◌
crosssign_handler-Answered e srv verify verifies none w = (bad_json, w, refl, refl)
crosssign_handler-Answered e srv verify verifies (some form) w =
    elim (Bool-cases (is_empty (strip form.access_token))) [
      | inl empty ↦ rw empty (missing_fields, w, refl, refl)
      | inr given ↦ rw given (
          let run = crosssign e srv form.password w in
          response_lem e srv verify w run.0 run.1
            ((crosssign_lem e srv verify verifies w.log form.password).run w refl))
    ]
