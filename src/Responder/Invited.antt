-- ===== src/Responder/Invited.antt =====
-- Whose history the responder takes over.
use shape_rotator_matrix.Base.{
  String, ◌≡◌, refl, inl, inr, true, Bool-cases, not, ◌||◌, Option, none, some, List, [], ◌∷◌, All,
  Any, arith, eq_iff,
}
use shape_rotator_matrix.Text.{is_empty, is_prefix_of}
use shape_rotator_matrix.Dict.{lookup}
use shape_rotator_matrix.Exec.{Exn, Outcome, ok, raised, modify, ◌>>=◌, from_outcome, from_error}
use shape_rotator_matrix.Exec.Rules.{
  Preserves, Preserves-pure, Preserves-raise, Preserves-gets, Preserves-if, Preserves-try,
  Preserves-skip, Preserves-modify, Preserves-bind,
}
use shape_rotator_matrix.Responder.Data.{
  Kind, room_key_bundle, room_key, forwarded_room_key, other, FileInfo, Item, Group, Decrypted,
  InviteEvent, SyncData, Call, Bot, Client,
}
use shape_rotator_matrix.Responder.Bundle.{
  group_of, is_inviter, keys_of, download_mxc, import_item, import_items, fetch_items, import_file,
  try_url, try_file, import_room_key_bundle,
}
use shape_rotator_matrix.Responder.Loop.{is_invite, by_kind, on_encrypted}

-- A reply of /sync had an event by which `u` invited the bot to the room.
pub record WasInvited (cl : Client) (room u : String) : Type 0 where
  pub past : List Call
  pub since : Option String
  pub reply : SyncData
  pub replied : cl.sync past since ≡ ok (some reply)
  pub invited :
      Any
        (λ (r, evs).
          (r ≡ room)
          × Any (λ (ev : InviteEvent). (is_invite cl.mxid ev ≡ true) × (ev.sender ≡ u)) evs)
        reply.invite

-- The session is one of a bundle for its room, which came encrypted from a user who had invited the
-- bot to that room.
pub record IsVouched (cl : Client) (g : Group) : Type 0 where
  pub past : List Call
  pub raw : String
  pub bundle : Decrypted
  pub decrypted : cl.decrypt_olm_event past raw ≡ ok bundle
  pub same_room : bundle.content.room_id ≡ g.room_id
  pub invited : WasInvited cl g.room_id bundle.sender

module _ (cl : Client) where
  pub record IsSafe (b : Bot) : Type 0 where
    pub inviters : (room u : String) → lookup room b.inviters ≡ some u → WasInvited cl room u
    pub groups : All (IsVouched cl) b.groups

  pub outcome_lem : {A : Type 0} (r : Outcome A) → Preserves IsSafe (from_outcome r)
  outcome_lem (ok a) = Preserves-pure a
  outcome_lem (raised x) = Preserves-raise x

  pub error_lem : (o : Option Exn) → Preserves IsSafe (from_error {S = Bot} o)
  error_lem none = Preserves-skip
  error_lem (some x) = Preserves-raise x

  pub calls_lem : (f : Bot → List Call) → Preserves IsSafe (modify (λ b. record b { calls = f b }))
  calls_lem f = Preserves-modify _ (λ b h. record { inviters = h.inviters; groups = h.groups })

  download_mxc-IsSafe : (uri : String) → Preserves IsSafe (download_mxc cl uri)
  unfolding download_mxc
  download_mxc-IsSafe uri = Preserves-if _ _ _ (Preserves-raise _) (
      Preserves-bind _ _ (Preserves-gets _) λ reply. Preserves-bind _ _ (calls_lem _) λ _.
        Preserves-bind _ _ (outcome_lem reply)
          λ r. Preserves-if _ _ _ (Preserves-pure _) (Preserves-raise _))

  keys_lem : (o : Option (List Item)) → Preserves IsSafe (keys_of o)
  keys_lem none = Preserves-raise _
  keys_lem (some items) = Preserves-pure items

  fetch_items-IsSafe : (url : String) (file : FileInfo) → Preserves IsSafe (fetch_items cl url file)
  unfolding fetch_items
  fetch_items-IsSafe url file = Preserves-bind _ _ (download_mxc-IsSafe url) λ _.
      Preserves-bind _ _ (outcome_lem _) λ _. Preserves-bind _ _ (outcome_lem _) λ _.
        Preserves-bind _ _ (outcome_lem _)
          λ _. Preserves-bind _ _ (outcome_lem _) λ _. Preserves-bind _ _ (outcome_lem _) keys_lem

  module _ (room : String)
      (vouched : (sender_key session_id session : String)
        → IsVouched cl (group_of room sender_key session_id session)) where
    import_item-IsSafe : (item : Item) → Preserves IsSafe (import_item cl room item)
    unfolding import_item
    import_item-IsSafe item = Preserves-if _ _ _ (Preserves-raise _) (
        Preserves-bind _ _ (outcome_lem _) λ session_key.
          Preserves-bind _ _ (outcome_lem _) λ signing_key.
            Preserves-bind _ _ (outcome_lem _) λ sender_key.
              Preserves-bind _ _ (outcome_lem _) λ session.
                Preserves-bind _ _ (outcome_lem _) λ session_id.
                  Preserves-bind _ _ (error_lem _) λ _. Preserves-modify _ (λ b h. record {
                    inviters = h.inviters;
                    groups = (vouched sender_key session_id session, h.groups);
                  }))

    import_items-IsSafe : (items : List Item) → Preserves IsSafe (import_items cl room items)
    unfolding import_items
    import_items-IsSafe [] = Preserves-skip
    import_items-IsSafe (item ∷ items) =
        Preserves-bind _ _ (import_item-IsSafe item) λ _. import_items-IsSafe items

    try_file-IsSafe : (o : Option FileInfo) → Preserves IsSafe (try_file cl room o)
    unfolding import_file
    try_file-IsSafe none = Preserves-pure _
    try_file-IsSafe (some file) = url_lem file.url
      where
        url_lem : (o : Option String) → Preserves IsSafe (try_url cl room file o)
        url_lem none = Preserves-pure _
        url_lem (some url) =
            Preserves-if (is_prefix_of "mxc://" url) _ _
              (Preserves-try _ _
                (Preserves-bind _ _ (fetch_items-IsSafe url file)
                  λ items. Preserves-bind _ _ (import_items-IsSafe items) λ _. Preserves-pure _)
                λ x. Preserves-pure _)
              (Preserves-pure _)

  import-IsSafe :
      (past : List Call) (raw : String) (ev : Decrypted)
      → cl.decrypt_olm_event past raw ≡ ok ev
      → Preserves IsSafe (import_room_key_bundle cl ev)
  unfolding import_room_key_bundle ◌>>=◌
  import-IsSafe past raw ev decrypted = record {
    from = λ b h.
        elim (Bool-cases (
          is_empty ev.content.room_id
          || not (is_inviter (lookup ev.content.room_id b.inviters) ev.sender))) [
            | inl refused ↦ rw refused h
            | inr fine ↦ rw fine (
                (try_file-IsSafe ev.content.room_id
                    (λ sender_key session_id session. record {
                      past = past;
                      raw = raw;
                      bundle = ev;
                      decrypted = decrypted;
                      same_room = refl;
                      invited = h.inviters _ _ (inviter_lem _ _ (ground arith));
                    })
                    ev.content.file).from
                  b h)
          ];
  }
    where
      inviter_lem : (o : Option String) (s : String) → is_inviter o s ≡ true → o ≡ some s
      inviter_lem none s h = cc
      inviter_lem (some u) s h = ground (arith, eq_iff s u)

  kind_lem :
      (past : List Call) (raw : String) (ev : Decrypted)
      → cl.decrypt_olm_event past raw ≡ ok ev
      → (k : Kind) → Preserves IsSafe (by_kind cl ev k)
  kind_lem past raw ev is room_key_bundle =
      Preserves-bind _ _ (import-IsSafe past raw ev is) λ _. Preserves-skip
  kind_lem past raw ev is room_key = Preserves-skip
  kind_lem past raw ev is forwarded_room_key = Preserves-skip
  kind_lem past raw ev is other = Preserves-skip

  pub on_encrypted-IsSafe : (raw : String) → Preserves IsSafe (on_encrypted cl raw)
  unfolding on_encrypted ◌>>=◌
  on_encrypted-IsSafe raw = record { from = λ b h. go b h (cl.decrypt_olm_event b.calls raw) refl }
    where
      go :
          (b : Bot)
          → IsSafe b
          → (r : Outcome Decrypted) → cl.decrypt_olm_event b.calls raw ≡ r
          → IsSafe ((do ev ← from_outcome r; by_kind cl ev ev.kind) b).1
      go b h (ok ev) is = (kind_lem b.calls raw ev is ev.kind).from b h
      go b h (raised x) is = h
