-- ===== src/Crosssign/Keys.antt =====
-- The key objects and `_sign_object`.
use shape_rotator_matrix.Base.{ℕ, String, Option, none, List, [], ◌∷◌}
use shape_rotator_matrix.Text.{concat}
use shape_rotator_matrix.Dict.{Dict, lookup, set, get_or}

-- A value of an object that is to be signed: a text, texts, an object of texts, or anything else by
-- its JSON text.
pub data Value : Type 0 where
  str : String → Value
  strs : List String → Value
  obj : Dict String → Value
  raw : String → Value

-- An object with its two members that a signature leaves out.
pub record Object : Type 0 where
  pub fields : Dict Value
  pub signatures : Dict (Dict String)
  pub unsigned : Option String

-- What is outside the program: the Ed25519 keys, of which the n-th generated one is known by its
-- private key, each in the form that `_b64` gives it, and `_canon`, which is `json.dumps`.
pub record Crypto : Type 0 where
  pub generated : ℕ → String
  pub public_of : String → String
  pub sign : String → String → String
  pub canon : Dict Value → String

-- `f"ed25519:{key_id}"`
unfoldable pub ed25519 : String → String
ed25519 key_id = concat "ed25519:" key_id

-- `_sign_object`
unfoldable pub sign_object : Crypto → Object → String → String → String → Object
sign_object e o signer user_id key_id =
    let sig = e.sign signer (e.canon o.fields) in
    let user_sigs = set (ed25519 key_id) sig (get_or [] (lookup user_id o.signatures)) in
    record o { signatures = set user_id user_sigs o.signatures }

-- The object of a public key, before it is signed.
unfoldable pub key_object : String → String → String → Object
key_object user_id usage key = record {
  fields =
      ("user_id", str user_id)
      ∷ ("usage", strs (usage ∷ []))
      ∷ ("keys", obj ((ed25519 key, key) ∷ []))
      ∷ [];
  signatures = [];
  unsigned = none;
}

-- The object of the public key of `key`, signed by the master key.
unfoldable pub signed_key : Crypto → String → String → String → String → Object
signed_key e user_id msk usage key =
    sign_object e (key_object user_id usage (e.public_of key)) msk user_id (e.public_of msk)

-- The three keys of `upload_body`.
pub record KeySet : Type 0 where
  pub master : Object
  pub self_signing : Object
  pub user_signing : Object

unfoldable pub key_set : Crypto → String → String → String → String → KeySet
key_set e user_id msk ssk usk = record {
  master = signed_key e user_id msk "master" msk;
  self_signing = signed_key e user_id msk "self_signing" ssk;
  user_signing = signed_key e user_id msk "user_signing" usk;
}
