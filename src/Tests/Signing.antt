-- ===== src/Tests/Signing.antt =====
-- Cross-signing at a concrete input.
use shape_rotator_matrix.Base.{String, Bool, ◌≡◌, true, false, none, some, [], ◌∷◌, ◌==◌, eq_refl}
use shape_rotator_matrix.Text.{concat}
use shape_rotator_matrix.Exec.{ok}
use shape_rotator_matrix.Crosssign.Keys.{Object, str, Crypto}
use shape_rotator_matrix.Crosssign.Requests.{
  whoami_call, upload_keys, query_keys, upload_signature, pause, Body, Work, Server,
}
use shape_rotator_matrix.Crosssign.Bootstrap.{Response, Form, crosssign_handler}
use shape_rotator_matrix.Crosssign.Answers.{Answered, crosssign_handler-Answered}

abbrev crypto : Crypto
crypto = record {
  generated = λ n. "key";
  public_of = λ key. key;
  sign = λ key text. concat key text;
  canon = λ fields. "{}";
}

abbrev verify : String → String → String → Bool
verify key text signature = signature == concat key text

verify-sign : (key text : String) → verify (crypto.public_of key) text (crypto.sign key text) ≡ true
verify-sign key text = eq_refl (concat key text)

abbrev device : Object
device = record { fields = ("device_id", str "D") ∷ []; signatures = []; unsigned = none }

abbrev body : Body
body = record {
  user_id = some "@ada:example.org";
  device_id = some "D";
  session = some "s";
  device = some device;
  has_failures = false;
}

-- The homeserver wants the password.
abbrev server : Server
server past (upload_keys ks none) = ok (401, ok body)
server past (upload_keys ks (some auth)) = ok (200, ok body)
server past whoami_call = ok (200, ok body)
server past (query_keys user dev) = ok (200, ok body)
server past (upload_signature user dev o) = ok (200, ok body)
server past pause = ok (200, ok body)

abbrev form : Form
form = record { access_token = "token"; password = "correct horse" }

abbrev work : Work
work = record { calls = []; log = []; made = 0 }

crosssign_handler-Answered_example :
    (response : Response) × (w' : Work) × (crosssign_handler crypto server (some form) work
      ≡ (ok response, w'))
    × Answered server crypto verify work response w'
crosssign_handler-Answered_example =
    crosssign_handler-Answered crypto server verify verify-sign (some form) work
