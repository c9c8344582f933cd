-- ===== src/Crosssign/Requests.antt =====
-- The requests of `_crosssign`, and the state that it keeps.
use shape_rotator_matrix.Base.{ℕ, ◌+◌, String, Bool, Option, none, some, List, ◌∷◌}
use shape_rotator_matrix.Exec.{
  Exn, Outcome, Exec, Stmt, pure, raise, gets, modify, ◌>>=◌, ◌>>◌, from_outcome,
}
use shape_rotator_matrix.Crosssign.Keys.{Object, KeySet, Crypto}

-- `upload_body["auth"]`
pub record Auth : Type 0 where
  pub user : String
  pub password : String
  pub session : String

pub data Call : Type 0 where
  whoami_call : Call
  upload_keys : KeySet → Option Auth → Call
  query_keys : String → String → Call
  upload_signature : String → String → Object → Call
  pause : Call

-- What the code reads of a JSON body: an empty session or device reads as absent.
pub record Body : Type 0 where
  pub user_id : Option String
  pub device_id : Option String
  pub session : Option String
  pub device : Option Object
  pub has_failures : Bool

pub data Audit : Type 0 where
  crosssign_failed : String → Audit
  crosssign_ok : String → String → Audit

-- The requests so far and the audit log, newest first, and the number of keys generated.
pub record Work : Type 0 where
  pub calls : List Call
  pub log : List Audit
  pub made : ℕ

-- The homeserver may answer by all that came before: a status, with a body or what reading it as JSON
-- raises, or no answer.
abbrev pub Server : Type 0
Server = List Call → Call → Outcome (ℕ × Outcome Body)

unfoldable pub request : Server → Call → Exec Work (ℕ × Outcome Body)
request srv c = do
  reply ← gets (λ w. srv w.calls c)
  modify (λ w. record w { calls = c ∷ w.calls })
  from_outcome reply

-- `asyncio.sleep(1.5)`
unfoldable pub sleep : Stmt Work
sleep = modify (λ w. record w { calls = pause ∷ w.calls })

-- `Ed25519PrivateKey.generate()`
unfoldable pub generate : Crypto → Exec Work String
generate e = do
  key ← gets (λ w. e.generated w.made)
  modify (λ w. record w { made = w.made + 1 })
  pure key

unfoldable pub note : Audit → Stmt Work
note a = modify (λ w. record w { log = a ∷ w.log })

abbrev pub runtime_error : String → Exn
runtime_error text = record { http_status = 500; text = text }

-- `me[key]`
abbrev pub required : String → Option String → Exec Work String
required key none = raise (runtime_error key)
required key (some v) = pure v
