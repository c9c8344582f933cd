-- ===== src/Crosssign/Chain.antt =====
-- What a cross-signing is to upload: keys that the master key has signed.
use shape_rotator_matrix.Base.{
  ℕ, String, Bool, true, false, ◌≡◌, refl, Option, some, List, [], ◌∷◌, ◌⊎◌,
}
use shape_rotator_matrix.Dict.{lookup, get_or, lookup-set_self}
use shape_rotator_matrix.Exec.{Outcome, ok}
use shape_rotator_matrix.Crosssign.Keys.{
  Object, obj, strs, KeySet, Crypto, ed25519, sign_object, key_object, signed_key, key_set,
}
use shape_rotator_matrix.Crosssign.Requests.{
  Auth, Call, upload_keys, upload_signature, Body, Work, Server,
}
use shape_rotator_matrix.Crosssign.Bootstrap.{Result}

-- The request was made, and answered so.
abbrev pub Replied : Server → Call → ℕ × Outcome Body → List Call → Type 0
Replied srv c r [] = ⊥
Replied srv c r (d ∷ ds) = ((d ≡ c) × (srv ds c ≡ ok r)) ⊎ Replied srv c r ds

-- What the public key `key` of the user has signed.
pub record IsSigned (e : Crypto) (verify : String → String → String → Bool) (user_id key : String)
    (o : Object) : Type 0 where
  pub signature : String
  pub found : lookup (ed25519 key) (get_or [] (lookup user_id o.signatures)) ≡ some signature
  pub valid : verify key (e.canon o.fields) signature ≡ true

-- The three keys, which the master key has signed, with their uses.
pub record IsChained (e : Crypto) (verify : String → String → String → Bool) (r : Result)
    (ks : KeySet) : Type 0 where
  pub lists_master :
      lookup "keys" ks.master.fields
      ≡ some (obj ((ed25519 (e.public_of r.msk), e.public_of r.msk) ∷ []))
  pub lists_self_signing :
      lookup "keys" ks.self_signing.fields
      ≡ some (obj ((ed25519 (e.public_of r.ssk), e.public_of r.ssk) ∷ []))
  pub lists_user_signing :
      lookup "keys" ks.user_signing.fields
      ≡ some (obj ((ed25519 (e.public_of r.usk), e.public_of r.usk) ∷ []))
  pub master_usage : lookup "usage" ks.master.fields ≡ some (strs ("master" ∷ []))
  pub self_signing_usage : lookup "usage" ks.self_signing.fields ≡ some (strs ("self_signing" ∷ []))
  pub user_signing_usage : lookup "usage" ks.user_signing.fields ≡ some (strs ("user_signing" ∷ []))
  pub master : IsSigned e verify r.user_id (e.public_of r.msk) ks.master
  pub self_signing : IsSigned e verify r.user_id (e.public_of r.msk) ks.self_signing
  pub user_signing : IsSigned e verify r.user_id (e.public_of r.msk) ks.user_signing

-- The device was uploaded with a signature of the self-signing key, and accepted without failures,
-- if the result says so.
abbrev pub DeviceSigned :
    Server
    → Crypto
    → (String → String → String → Bool)
    → String
    → String
    → String
    → List Call
    → Bool
    → Type 0
DeviceSigned srv e verify user_id device_id ssk calls false = Unit
DeviceSigned srv e verify user_id device_id ssk calls true =
    (o : Object) × (body : Body) × Replied srv (upload_signature user_id device_id o) (200, ok body)
      calls
    × (body.has_failures ≡ false)
    × IsSigned e verify user_id (e.public_of ssk) o

-- The keys of the result were uploaded, and the homeserver accepted them.
pub record IsRooted (srv : Server) (e : Crypto) (verify : String → String → String → Bool)
    (r : Result) (w : Work) : Type 0 where
  pub keys : KeySet
  pub auth : Option Auth
  pub body : Outcome Body
  pub uploaded : Replied srv (upload_keys keys auth) (200, body) w.calls
  pub chained : IsChained e verify r keys
  pub device : DeviceSigned srv e verify r.user_id r.device_id r.ssk w.calls r.device_signed

module _ (e : Crypto) (verify : String → String → String → Bool)
    (verifies : (key text : String) → verify (e.public_of key) text (e.sign key text) ≡ true) where
  pub sign_object-IsSigned :
      (o : Object) (signer user_id : String)
      → IsSigned e verify user_id
          (e.public_of signer)
          (sign_object e o signer user_id (e.public_of signer))
  unfolding sign_object
  sign_object-IsSigned o signer user_id = record {
    signature = e.sign signer (e.canon o.fields);
    found = rw (lookup-set_self user_id _ o.signatures) (lookup-set_self _ _ _);
    valid = verifies signer (e.canon o.fields);
  }

  pub key_set-IsChained :
      (r : Result) → IsChained e verify r (key_set e r.user_id r.msk r.ssk r.usk)
  unfolding key_set signed_key sign_object key_object lookup
  key_set-IsChained r = record {
    lists_master = refl;
    lists_self_signing = refl;
    lists_user_signing = refl;
    master_usage = refl;
    self_signing_usage = refl;
    user_signing_usage = refl;
    master = sign_object-IsSigned _ r.msk r.user_id;
    self_signing = sign_object-IsSigned _ r.msk r.user_id;
    user_signing = sign_object-IsSigned _ r.msk r.user_id;
  }
