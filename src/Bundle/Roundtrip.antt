-- ===== src/Bundle/Roundtrip.antt =====
-- A bundle that the approver built, imported by the responder.
use shape_rotator_matrix.Base.{
  String, ◌≡◌, refl, sym, ap, subst, ◌∙◌, true, false, none, some, List, [], ◌∷◌, ◌++◌, map,
}
use mathlib.Core.List.{append-nil}
use shape_rotator_matrix.Text.{is_empty, is_prefix_of}
use shape_rotator_matrix.Dict.{lookup}
use shape_rotator_matrix.Exec.{ok, ◌>>=◌}
use shape_rotator_matrix.Exec.Returns.{returned}
use shape_rotator_matrix.Exec.Triples.{Post}
use shape_rotator_matrix.Responder.Data.{Item, Group, Decrypted, Bot, Client}
use shape_rotator_matrix.Responder.Bundle.{
  group_of, is_inviter, download_mxc, fetch_items, import_room_key_bundle,
}
use shape_rotator_matrix.Responder.Rejected.{Imports, AllImport, added, import_stops}
use shape_rotator_matrix.Bundle.{
  Row, Inbound, RoomKey, Withheld, Attachment, Store, Library, Media, attachment, collect,
  build_room_key_bundle,
}
use shape_rotator_matrix.Bundle.Build.{
  shared, IsKeyOf, AreKeysOf, IsExport, IsBuilt, collect-IsExport, build_lem,
}

-- The entry as the responder reads it.
abbrev pub item_of : RoomKey → Item
item_of k = record {
  algorithm = some "m.megolm.v1.aes-sha2";
  room_id = some k.room_id;
  session_key = some k.session_key;
  ed25519 = some k.ed25519;
  sender_key = some k.sender_key;
  session_id = some k.session_id;
}

-- The two sides fit: decryption undoes encryption; where the store of the sender has the session of a
-- row and exports its key, the crypto library imports that key with the signing key, the sender key
-- and the room of the session; and the store of the responder takes it.
pub record Fits (lib : Library) (st : Store) (cl : Client) (room : String) : Type 0 where
  pub decrypts :
      (text : String)
      → let x = lib.encrypt_attachment text in
        cl.decrypt_attachment x.ciphertext x.key x.sha256 x.iv ≡ ok text
  pub session_of : Row → String
  pub imports :
      (row : Row) (session : Inbound) (key : String)
      → st.get_group_session room row.session_id ≡ ok (some session)
      → session.exported ≡ ok key
      → cl.import_session key session.signing_key row.sender_key room ≡ ok (session_of row)
  pub stores : (g : Group) → cl.put_error g ≡ none

-- The latest upload.
abbrev pub latest : List String → String
latest [] = ""
latest (ciphertext ∷ older) = ciphertext

module _ (lib : Library) (st : Store) (cl : Client) (room : String)
    (fits : Fits lib st cl room) where
  abbrev pub imported : Row → Group
  imported row = group_of room row.sender_key row.session_id (fits.session_of row)

  import_lem :
      (row : Row) (k : RoomKey) → IsKeyOf st room row k → Imports cl room (item_of k) (imported row)
  import_lem row k h = record {
    algorithm = refl;
    same_room = ap some h.room_id;
    session_key = k.session_key;
    has_session_key = refl;
    ed25519 = k.ed25519;
    has_ed25519 = refl;
    has_sender_key = ap some h.sender_key;
    has_session_id = ap some h.session_id;
    imported =
        subst
          (λ ed. cl.import_session k.session_key ed row.sender_key room ≡ ok (fits.session_of row))
          (sym h.signing_key) (fits.imports row h.session k.session_key h.held h.exported);
    is_group = refl;
    stored = fits.stores _;
  }

  all_import :
      (rows : List Row) (keys : List RoomKey)
      → AreKeysOf st room rows keys
      → AllImport cl room (map item_of keys) (map imported rows)
  all_import [] [] h = tt
  all_import [] (k ∷ keys) h = elim h [ ]
  all_import (row ∷ rows) [] h = elim h [ ]
  all_import (row ∷ rows) (k ∷ keys) h = (import_lem row k h.0, all_import rows keys h.1)

  fetch_lem :
      (keys : List RoomKey) (withheld : List Withheld) (url : String) (b b' : Bot)
      → cl.parse_bundle (lib.dumps keys withheld) ≡ ok (some (map item_of keys))
      → let x = lib.encrypt_attachment (lib.dumps keys withheld) in
        download_mxc cl url b ≡ (ok x.ciphertext, b')
        → fetch_items cl url (attachment lib x url).file b ≡ (ok (map item_of keys ++ []), b')
  unfolding fetch_items ◌>>=◌
  fetch_lem keys withheld url b b' parses got =
      rw (got, fits.decrypts (lib.dumps keys withheld), parses)
        (ap (λ items. (ok items, b')) (sym (append-nil (map item_of keys))))

  -- A bundle that `build_room_key_bundle` built for a room, sent by the member who invited the
  -- responder there, is accepted by `import_room_key_bundle`, where both sides fit and the download
  -- of its URL yields what was uploaded for it and the bundle is read as it was written. Then the
  -- responder's store gets exactly the sessions of the room that are not withheld, each as imported
  -- from the key that the approver's store exports for it, in the order of the rows.
  pub bundle_roundtrip :
      (rows : List Row) (u u' : Media) (att : Attachment) (ev : Decrypted) (b b' : Bot)
      → st.fetch room ≡ ok rows
      → ((keys : List RoomKey) (withheld : List Withheld)
          → collect st room rows u ≡ (ok (keys, withheld), u)
          → cl.parse_bundle (lib.dumps keys withheld) ≡ ok (some (map item_of keys)))
      → build_room_key_bundle lib (some st) room u ≡ (ok att, u')
      → download_mxc cl att.url b ≡ (ok (latest u'.sent), b')
      → is_prefix_of "mxc://" att.url ≡ true
      → ev.content.room_id ≡ room
      → is_empty room ≡ false
      → is_inviter (lookup room b.inviters) ev.sender ≡ true
      → ev.content.file ≡ some att.file
      → import_room_key_bundle cl ev b
        ≡ (ok true, record b' { groups = added (map imported (shared rows)) b'.groups })
  bundle_roundtrip rows u u' att ev b b' fetched parses run got mxc same there inviter has_file =
      let built : IsBuilt lib st room rows u att u' =
        subst (Post (λ a w. IsBuilt lib st room rows u a w) (λ w. Unit)) run
          ((build_lem lib u st room rows fetched).run u refl) in
      let keys = built.room_keys in
      let export : IsExport st room rows (keys, built.withheld) =
        returned _ (collect-IsExport st room rows) built.collected in
      let x = lib.encrypt_attachment (lib.dumps keys built.withheld) in
      let download : download_mxc cl att.url b ≡ (ok x.ciphertext, b') =
        got ∙ ap (λ sent. (ok (latest sent), b')) built.uploaded in
      import_stops cl room ev (attachment lib x att.url).file att.url (map item_of keys) []
        (map imported (shared rows)) b b' same there inviter
        (has_file ∙ ap (λ a. some a.file) built.answered) refl mxc
        (fetch_lem keys built.withheld att.url b b' (parses keys built.withheld built.collected)
          download)
        (all_import (shared rows) keys export) tt
