-- ===== src/Responder/Rejected.antt =====
-- What a bundle leaves in the crypto store, also where it is rejected.
use shape_rotator_matrix.Base.{
  String, ◌≡◌, refl, sym, ap, Bool, true, false, not, ◌||◌, none, some, List, [], ◌∷◌, ◌++◌,
  eq_refl,
}
use shape_rotator_matrix.Text.{is_empty, is_prefix_of}
use shape_rotator_matrix.Dict.{lookup}
use shape_rotator_matrix.Exec.{ok, raised, pure, try_except, ◌>>=◌, ◌>>◌}
use shape_rotator_matrix.Responder.Data.{FileInfo, Item, Group, Decrypted, Bot, Client}
use shape_rotator_matrix.Responder.Bundle.{
  error, group_of, is_inviter, is_text, import_item, import_items, fetch_items, import_file,
  import_room_key_bundle,
}

-- The entry is for this room, complete, and accepted by the crypto library and the store.
pub record Imports (cl : Client) (room : String) (item : Item) (g : Group) : Type 0 where
  pub algorithm : item.algorithm ≡ some "m.megolm.v1.aes-sha2"
  pub same_room : item.room_id ≡ some room
  pub session_key : String
  pub has_session_key : item.session_key ≡ some session_key
  pub ed25519 : String
  pub has_ed25519 : item.ed25519 ≡ some ed25519
  pub has_sender_key : item.sender_key ≡ some g.sender_key
  pub has_session_id : item.session_id ≡ some g.session_id
  pub imported : cl.import_session session_key ed25519 g.sender_key room ≡ ok g.session
  pub is_group : g.room_id ≡ room
  pub stored : cl.put_error g ≡ none

abbrev pub AllImport : Client → String → List Item → List Group → Type 0
AllImport cl room [] [] = Unit
AllImport cl room [] (g ∷ gs) = ⊥
AllImport cl room (item ∷ items) [] = ⊥
AllImport cl room (item ∷ items) (g ∷ gs) = Imports cl room item g × AllImport cl room items gs

-- The list is empty, or its first entry is for another room or algorithm.
abbrev pub Mismatches : String → List Item → Type 0
Mismatches room [] = Unit
Mismatches room (item ∷ items) =
    (not (is_text item.algorithm "m.megolm.v1.aes-sha2") || not (is_text item.room_id room)) ≡ true

abbrev pub is_nil : List Item → Bool
is_nil [] = true
is_nil (item ∷ items) = false

abbrev pub added : List Group → List Group → List Group
added [] groups = groups
added (g ∷ gs) groups = added gs (g ∷ groups)

module _ (cl : Client) (room : String) where
  import_item_lem :
      (item : Item) (g : Group) (b : Bot)
      → Imports cl room item g
      → import_item cl room item b ≡ (ok tt, record b { groups = g ∷ b.groups })
  unfolding import_item ◌>>=◌
  import_item_lem item g b h =
      let same : group_of room g.sender_key g.session_id g.session ≡ g =
        ap (λ r. group_of r g.sender_key g.session_id g.session) (sym h.is_group) in
      rw
        (
          h.algorithm,
          h.same_room,
          eq_refl room,
          h.has_session_key,
          h.has_ed25519,
          h.has_sender_key,
          h.imported,
          h.has_session_id,
          same,
          h.stored,
        )
        refl

  mismatch_lem :
      (item : Item) (rest : List Item) (b : Bot)
      → Mismatches room (item ∷ rest)
      → import_item cl room item b
        ≡ (raised (error "bundle contains a room or algorithm mismatch"), b)
  unfolding import_item ◌>>=◌
  mismatch_lem item rest b m = rw m refl

  import_items_lem :
      (good : List Item) (gs : List Group) (rest : List Item) (b : Bot)
      → AllImport cl room good gs
      → Mismatches room rest
      → try_except (do import_items cl room (good ++ rest); pure true) (λ x. pure false) b
        ≡ (ok (is_nil rest), record b { groups = added gs b.groups })
  unfolding import_items ◌>>=◌
  import_items_lem [] [] [] b h m = refl
  import_items_lem [] [] (item ∷ items) b h m = rw (mismatch_lem item items b m) refl
  import_items_lem [] (g ∷ gs) rest b h m = elim h [ ]
  import_items_lem (item ∷ items) [] rest b h m = elim h [ ]
  import_items_lem (item ∷ items) (g ∷ gs) rest b h m =
      rw (import_item_lem item g b h.0)
        (import_items_lem items gs rest (record b { groups = g ∷ b.groups }) h.1 m)

  -- A bundle from the inviter of its room, whose file is read as a list of entries: the entries are
  -- imported up to the first one for another room or algorithm. If there is none, the bundle is
  -- accepted; if there is one, it is rejected, but what came before stays in the crypto store.
  pub import_stops :
      (ev : Decrypted) (file : FileInfo) (url : String) (good rest : List Item) (gs : List Group)
      (b b' : Bot)
      → ev.content.room_id ≡ room
      → is_empty room ≡ false
      → is_inviter (lookup room b.inviters) ev.sender ≡ true
      → ev.content.file ≡ some file
      → file.url ≡ some url
      → is_prefix_of "mxc://" url ≡ true
      → fetch_items cl url file b ≡ (ok (good ++ rest), b')
      → AllImport cl room good gs
      → Mismatches room rest
      → import_room_key_bundle cl ev b
        ≡ (ok (is_nil rest), record b' { groups = added gs b'.groups })
  unfolding import_room_key_bundle import_file fetch_items ◌>>=◌
  import_stops ev file url good rest gs b b' same there inviter has_file has_url mxc fetched imports
        mismatch =
      rw (same, there, inviter, has_file, has_url, mxc, fetched)
        (import_items_lem good gs rest b' imports mismatch)
