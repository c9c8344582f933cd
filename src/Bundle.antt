-- ===== src/Bundle.antt =====
-- knock-approver/approver.py, `build_room_key_bundle`: the sessions of a room, exported and uploaded
-- for a new member.
pub mod Build
pub mod Roundtrip
use shape_rotator_matrix.Base.{
  ℕ, eqb, not, ◌||◌, String, Option, none, some, List, [], ◌∷◌, if◌then◌else◌,
}
use shape_rotator_matrix.Text.{is_empty}
use shape_rotator_matrix.Exec.{
  Exn, Outcome, ok, raised, Exec, pure, raise, gets, modify, ◌>>=◌, ◌>>◌, from_outcome, on_option,
}
use shape_rotator_matrix.Responder.Data.{FileInfo}

-- A row of `crypto_megolm_inbound_session`, as far as it is used.
pub record Row : Type 0 where
  pub session_id : String
  pub sender_key : String
  pub withheld_code : Option String

-- What `get_group_session` yields.
pub record Inbound : Type 0 where
  pub signing_key : String
  pub exported : Outcome String  -- from the first known index on

-- An entry of `room_keys`; its algorithm is always m.megolm.v1.aes-sha2.
pub record RoomKey : Type 0 where
  pub room_id : String
  pub ed25519 : String
  pub sender_key : String
  pub session_id : String
  pub session_key : String

-- An entry of `withheld`; its reason is always the same.
pub record Withheld : Type 0 where
  pub code : String
  pub room_id : String
  pub sender_key : String
  pub session_id : String

-- What the serialized `EncryptedFile` has.
pub record Sealed : Type 0 where
  pub ciphertext : String
  pub key : String
  pub sha256 : String
  pub iv : String

pub record Attachment : Type 0 where
  pub url : String
  pub file : FileInfo

-- The crypto store of mautrix.
pub record Store : Type 0 where
  pub fetch : String → Outcome (List Row)
  pub get_group_session : String → String → Outcome (Option Inbound)

-- `json.dumps` of the bundle, the encryption of an attachment, and the media repository: it may answer
-- by all that was uploaded, with a status and the `content_uri` of the body.
pub record Library : Type 0 where
  pub dumps : List RoomKey → List Withheld → String
  pub encrypt_attachment : String → Sealed
  pub upload : List String → String → Outcome (ℕ × Outcome (Option String))

-- The ciphertexts uploaded so far, newest first.
pub record Media : Type 0 where
  pub sent : List String

abbrev runtime_error : String → Exn
runtime_error text = record { http_status = 500; text = text }

abbrev pub with_key : RoomKey → List RoomKey × List Withheld → List RoomKey × List Withheld
with_key k (room_keys, withheld) = (k ∷ room_keys, withheld)

abbrev pub with_withheld : Withheld → List RoomKey × List Withheld → List RoomKey × List Withheld
with_withheld x (room_keys, withheld) = (room_keys, x ∷ withheld)

-- The entry of an exported session.
abbrev pub room_key : String → Row → Inbound → String → RoomKey
room_key room row session session_key = record {
  room_id = room;
  ed25519 = session.signing_key;
  sender_key = row.sender_key;
  session_id = row.session_id;
  session_key = session_key;
}

abbrev pub withheld_of : String → Row → String → Withheld
withheld_of room row code = record {
  code = code;
  room_id = room;
  sender_key = row.sender_key;
  session_id = row.session_id;
}

abbrev pub missing_session : Exn
missing_session = runtime_error "inbound session disappeared"

module _ (st : Store) (room : String) where
  -- The export of one session, or the error that it vanished.
  unfoldable pub export_row : Row → Exec Media RoomKey
  export_row row = do
    found ← from_outcome (st.get_group_session room row.session_id)
    on_option found (raise missing_session) (λ session. do
      session_key ← from_outcome session.exported
      pure (room_key room row session session_key))

  -- The loop over the rows.
  unfoldable pub collect : List Row → Exec Media (List RoomKey × List Withheld)
  collect [] = pure ([], [])
  collect (row ∷ rows) =
      on_option row.withheld_code
        (do k ← export_row row; rest ← collect rows; pure (with_key k rest))
        (λ code. do rest ← collect rows; pure (with_withheld (withheld_of room row code) rest))

module _ (lib : Library) where
  abbrev pub uri_of : Option String → Exec Media String
  uri_of none = raise (runtime_error "media upload omitted content_uri")
  uri_of (some uri) =
      if is_empty uri then raise (runtime_error "media upload omitted content_uri") else pure uri

  unfoldable pub upload_media : String → Exec Media String
  upload_media ciphertext = do
    reply ← gets (λ u. lib.upload u.sent ciphertext)
    modify (λ u. record u { sent = ciphertext ∷ u.sent })
    (status, body) ← from_outcome reply
    if not (eqb status 200 || eqb status 201)
        then raise (runtime_error "media upload failed")
        else (do uploaded ← from_outcome body; uri_of uploaded)

  abbrev pub attachment : Sealed → String → Attachment
  attachment x uri = record {
    url = uri;
    file = record { url = some uri; key = some x.key; sha256 = some x.sha256; iv = some x.iv };
  }

  -- The part after the query.
  unfoldable pub bundle_rows : Store → String → List Row → Exec Media Attachment
  bundle_rows st room rows = do
    (room_keys, withheld) ← collect st room rows
    let x = lib.encrypt_attachment (lib.dumps room_keys withheld)
    uri ← upload_media x.ciphertext
    pure (attachment x uri)

  -- `build_room_key_bundle`, given the global store if it is set.
  unfoldable pub build_room_key_bundle : Option Store → String → Exec Media Attachment
  build_room_key_bundle none room = raise (runtime_error "MSC4268 crypto store is not initialized")
  build_room_key_bundle (some st) room = do
    rows ← from_outcome (st.fetch room)
    bundle_rows st room rows
