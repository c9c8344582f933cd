-- ===== src/Crosssign/Bootstrap.antt =====
-- `_crosssign` and `crosssign_handler`.
use shape_rotator_matrix.Base.{
  ℕ, zero, suc, eqb, String, Bool, false, not, ◌&&◌, Option, none, some, if◌then◌else◌,
}
use shape_rotator_matrix.Text.{is_empty, strip}
use shape_rotator_matrix.Exec.{
  Exn, Outcome, Exec, Stmt, pure, raise, skip, try_except, ◌>>=◌, ◌>>◌, from_outcome, on_option,
}
use shape_rotator_matrix.Crosssign.Keys.{Object, KeySet, Crypto, sign_object, key_set}
use shape_rotator_matrix.Crosssign.Requests.{
  whoami_call, upload_keys, query_keys, upload_signature, Body, crosssign_failed, crosssign_ok,
  Work, Server, request, sleep, generate, note, runtime_error, required,
}

pub record Result : Type 0 where
  pub device_signed : Bool
  pub user_id : String
  pub device_id : String
  pub msk : String  -- private; the public ones are computed of them
  pub ssk : String
  pub usk : String

-- How the handler answers.
pub data Response : Type 0 where
  bad_json missing_fields : Response
  failed : String → Response
  done : Result → Response

pub record Form : Type 0 where
  pub access_token : String
  pub password : String

abbrev pub retry_failed : Exn
retry_failed = runtime_error "device_signing/upload (UIA retry) failed"

abbrev pub upload_failed : Exn
upload_failed = runtime_error "device_signing/upload failed"

abbrev pub needs_uia : Exn
needs_uia = runtime_error "homeserver requires UIA; pass `password` to /crosssign"

-- The requests carry the access token, which is left out.
module _ (e : Crypto) (srv : Server) where
  unfoldable pub whoami : Exec Work (String × String)
  whoami = do
    (status, reply) ← request srv whoami_call
    if eqb status 200
        then (do
          me ← from_outcome reply
          user_id ← required "user_id" me.user_id
          device_id ← required "device_id" me.device_id
          pure (user_id, device_id))
        else raise (runtime_error "whoami failed")

  -- The second upload, with the password.
  unfoldable pub retry_upload : KeySet → String → String → String → Stmt Work
  retry_upload ks user_id password session = do
    (status, reply) ←
        request srv (
          upload_keys ks (some (record { user = user_id; password = password; session = session })))
    if eqb status 200 then skip else raise retry_failed

  unfoldable pub authorize : KeySet → String → String → Outcome Body → Stmt Work
  authorize ks user_id password reply = if is_empty password then raise needs_uia else (do
    uia ← from_outcome reply
    on_option uia.session (raise (runtime_error "no UIA session"))
        (λ session. retry_upload ks user_id password session))

  unfoldable pub upload : KeySet → String → String → Stmt Work
  upload ks user_id password = do
    (status, reply) ← request srv (upload_keys ks none)
    if eqb status 401
        then authorize ks user_id password reply
        else if eqb status 200
        then skip
        else raise upload_failed

  unfoldable pub query_device : String → String → Exec Work (Option Object)
  query_device user_id device_id = do
    (status, reply) ← request srv (query_keys user_id device_id)
    if eqb status 200 then (do q ← from_outcome reply; pure q.device) else pure none

  -- `for attempt in range(4)`, by the attempts left.
  unfoldable pub find_device : ℕ → String → String → Exec Work (Option Object)
  find_device zero user_id device_id = pure none
  find_device (suc n) user_id device_id = do
    found ← query_device user_id device_id
    on_option found (do sleep; find_device n user_id device_id) (λ d. pure (some d))

  -- The signature of the device with the self-signing key.
  unfoldable pub sign_device : String → String → String → Option Object → Exec Work Bool
  sign_device user_id device_id ssk none = pure false
  sign_device user_id device_id ssk (some d) = do
    let signed = sign_object e d ssk user_id (e.public_of ssk)
    (status, reply) ← request srv (upload_signature user_id device_id signed)
    body ← from_outcome reply
    pure (eqb status 200 && not body.has_failures)

  -- `_crosssign`
  unfoldable pub crosssign : String → Exec Work Result
  crosssign password = do
    (user_id, device_id) ← whoami
    msk ← generate e
    ssk ← generate e
    usk ← generate e
    upload (key_set e user_id msk ssk usk) user_id password
    found ← find_device 4 user_id device_id
    signed ← sign_device user_id device_id ssk found
    pure (record {
      device_signed = signed;
      user_id = user_id;
      device_id = device_id;
      msk = msk;
      ssk = ssk;
      usk = usk;
    })

  abbrev pub noted : Response → Exec Work Response
  noted bad_json = pure bad_json
  noted missing_fields = pure missing_fields
  noted (failed text) = do note (crosssign_failed text); pure (failed text)
  noted (done r) = do note (crosssign_ok r.user_id (e.public_of r.msk)); pure (done r)

  -- `crosssign_handler`, given the form if the request has a JSON body.
  unfoldable pub crosssign_handler : Option Form → Exec Work Response
  crosssign_handler none = pure bad_json
  crosssign_handler (some form) =
      if is_empty (strip form.access_token) then pure missing_fields else (do
        response ←
            try_except (do r ← crosssign form.password; pure (done r)) (λ x. pure (failed x.text))
        noted response)
