-- ===== src/Bundle/Build.antt =====
-- What `build_room_key_bundle` uploads.
use shape_rotator_matrix.Base.{
  String, ◌≡◌, refl, sym, ap, subst, ◌∙◌, Option, none, some, List, [], ◌∷◌,
}
use shape_rotator_matrix.Exec.{
  Outcome, ok, raised, Exec, pure, raise, modify, ◌>>=◌, from_outcome, on_option,
}
use shape_rotator_matrix.Exec.Rules.{
  Preserves, Preserves-bind, Preserves-pure, Preserves-raise, Preserves-option, Preserves-if,
}
use shape_rotator_matrix.Exec.Returns.{Returns, Returns-pure, Returns-seq}
use shape_rotator_matrix.Exec.Triples.{
  Post, Triple, Triple-bind, Triple-return, Triple-preserves, Triple-ends, Triple-gets,
}
use shape_rotator_matrix.Bundle.{
  Row, Inbound, RoomKey, Withheld, Attachment, Store, Library, Media, with_key, with_withheld,
  withheld_of, room_key, missing_session, export_row, collect, uri_of, upload_media, attachment,
  bundle_rows, build_room_key_bundle,
}

-- The rows of the sessions that are not withheld.
abbrev pub shared : List Row → List Row
shared [] = []
shared (row ∷ rows) = on_option row.withheld_code (row ∷ shared rows) (λ code. shared rows)

-- The entry is the one of the session of that row, with the key that the session exports.
pub record IsKeyOf (st : Store) (room : String) (row : Row) (k : RoomKey) : Type 0 where
  pub session : Inbound
  pub held : st.get_group_session room row.session_id ≡ ok (some session)
  pub exported : session.exported ≡ ok k.session_key
  pub signing_key : k.ed25519 ≡ session.signing_key
  pub sender_key : k.sender_key ≡ row.sender_key
  pub session_id : k.session_id ≡ row.session_id
  pub room_id : k.room_id ≡ room

abbrev pub AreKeysOf : Store → String → List Row → List RoomKey → Type 0
AreKeysOf st room [] [] = Unit
AreKeysOf st room [] (k ∷ keys) = ⊥
AreKeysOf st room (row ∷ rows) [] = ⊥
AreKeysOf st room (row ∷ rows) (k ∷ keys) = IsKeyOf st room row k × AreKeysOf st room rows keys

abbrev pub IsExport : Store → String → List Row → List RoomKey × List Withheld → Type 0
IsExport st room rows (keys, withheld) = AreKeysOf st room (shared rows) keys

from_outcome-Preserves :
    {Q : Media → Type 0} {A : Type 0} (r : Outcome A) → Preserves Q (from_outcome r)
from_outcome-Preserves (ok a) = Preserves-pure _
from_outcome-Preserves (raised x) = Preserves-raise _

module _ (st : Store) (room : String) where
  key_lem :
      (row : Row) (session : Inbound) (r : Outcome String)
      → st.get_group_session room row.session_id ≡ ok (some session)
      → session.exported ≡ r
      → Returns {S = Media}
          (IsKeyOf st room row)
          (do session_key ← from_outcome r; pure (room_key room row session session_key))
  unfolding raise pure ◌>>=◌
  key_lem row session (raised x) held e = record { on_ok = λ u. tt }
  key_lem row session (ok key) held e = record {
    on_ok = λ u. record {
      session = session;
      held = held;
      exported = e;
      signing_key = refl;
      sender_key = refl;
      session_id = refl;
      room_id = refl;
    };
  }

  found_lem :
      (row : Row) (r : Outcome (Option Inbound))
      → st.get_group_session room row.session_id ≡ r
      → Returns {S = Media} (IsKeyOf st room row) (do
        found ← from_outcome r
        on_option found (raise missing_session) (λ session. do
          session_key ← from_outcome session.exported
          pure (room_key room row session session_key)))
  unfolding raise pure ◌>>=◌
  found_lem row (raised x) e = record { on_ok = λ u. tt }
  found_lem row (ok none) e = record { on_ok = λ u. tt }
  found_lem row (ok (some session)) e = record {
    on_ok = (key_lem row session session.exported e refl).on_ok;
  }

  export_row-IsKeyOf : (row : Row) → Returns (IsKeyOf st room row) (export_row st room row)
  unfolding export_row
  export_row-IsKeyOf row = found_lem row (st.get_group_session room row.session_id) refl

  pub collect-IsExport : (rows : List Row) → Returns (IsExport st room rows) (collect st room rows)
  unfolding collect
  collect-IsExport [] = Returns-pure _ tt
  collect-IsExport (row ∷ rows) = code_lem row.withheld_code (collect-IsExport rows)
    where
      code_lem :
          (code : Option String)
          → Returns (IsExport st room rows) (collect st room rows)
          → Returns {S = Media}
              (λ kw. AreKeysOf st room (on_option code (row ∷ shared rows) (λ c. shared rows)) kw.0)
              (on_option code
                (do k ← export_row st room row; rest ← collect st room rows; pure (with_key k rest))
                (λ c. do
                  rest ← collect st room rows
                  pure (with_withheld (withheld_of room row c) rest)))
      code_lem none h =
          Returns-seq _ _ (export_row-IsKeyOf row)
            λ k hk. Returns-seq _ _ h λ rest hr. Returns-pure _ (hk, hr)
      code_lem (some c) h = Returns-seq _ _ h λ rest hr. Returns-pure _ hr

  module _ {Q : Media → Type 0} where
    export_row-Preserves : (row : Row) → Preserves Q (export_row st room row)
    unfolding export_row
    export_row-Preserves row = Preserves-bind _ _ (from_outcome-Preserves _) λ found.
        Preserves-option found _ _ (Preserves-raise _)
          (λ session. Preserves-bind _ _ (from_outcome-Preserves _) λ key. Preserves-pure _)

    collect-Preserves : (rows : List Row) → Preserves Q (collect st room rows)
    unfolding collect
    collect-Preserves [] = Preserves-pure _
    collect-Preserves (row ∷ rows) =
        Preserves-option row.withheld_code _ _
          (Preserves-bind _ _ (export_row-Preserves row)
            λ k. Preserves-bind _ _ (collect-Preserves rows) λ rest. Preserves-pure _)
          (λ c. Preserves-bind _ _ (collect-Preserves rows) λ rest. Preserves-pure _)

-- A statement that leaves the state alone, and what it returned.
module _ {A : Type 0} (m : Exec Media A) (u : Media) where
  self_lem :
      (o : Outcome A) (v : Media)
      → v ≡ u
      → m u ≡ (o, v)
      → Post (λ a w. (w.sent ≡ u.sent) × (m u ≡ (ok a, u))) (λ w. Unit) (o, v)
  self_lem (ok a) v h e = (ap (λ w. w.sent) h, e ∙ ap (λ w. (ok a, w)) h)
  self_lem (raised x) v h e = tt

  Triple-self :
      Preserves (λ v. v ≡ u) m
      → Triple (λ v. v ≡ u) m (λ a w. (w.sent ≡ u.sent) × (m u ≡ (ok a, u))) (λ w. Unit)
  Triple-self k = record {
    run = λ v h.
        subst (λ t. Post (λ a w. (w.sent ≡ u.sent) × (m u ≡ (ok a, u))) (λ w. Unit) (m t)) (sym h)
          (self_lem (m u).0 (m u).1 (k.from u refl) refl);
  }

-- What is uploaded and answered for the rows of a room.
pub record IsBuilt (lib : Library) (st : Store) (room : String) (rows : List Row) (u : Media)
    (att : Attachment) (u' : Media) : Type 0 where
  pub room_keys : List RoomKey
  pub withheld : List Withheld
  pub collected : collect st room rows u ≡ (ok (room_keys, withheld), u)
  pub uploaded :
      u'.sent ≡ (lib.encrypt_attachment (lib.dumps room_keys withheld)).ciphertext ∷ u.sent
  pub answered :
      att ≡ attachment lib (lib.encrypt_attachment (lib.dumps room_keys withheld)) att.url

module _ (lib : Library) (past : List String) where
  uri-Preserves : {Q : Media → Type 0} (uri : Option String) → Preserves Q (uri_of lib uri)
  uri-Preserves none = Preserves-raise _
  uri-Preserves (some uri) = Preserves-if _ _ _ (Preserves-raise _) (Preserves-pure _)

  upload_lem :
      (ciphertext : String) (E : Type 0)
      → Triple
          (λ u. (u.sent ≡ past) × E)
          (upload_media lib ciphertext)
          (λ uri u. (u.sent ≡ ciphertext ∷ past) × E)
          (λ u. Unit)
  unfolding upload_media modify
  upload_lem ciphertext E =
      Triple-bind {Q = λ reply u. (u.sent ≡ past) × E} _ _
        (Triple-gets (λ u. lib.upload u.sent ciphertext) (λ u h. h))
        λ reply.
          Triple-bind {Q = λ r u. (u.sent ≡ ciphertext ∷ past) × E} _ _
            (Triple-ends (modify (λ u. record u { sent = ciphertext ∷ u.sent }))
              (λ u h. (ap (λ sent. ciphertext ∷ sent) h.0, h.1)) (λ u h. tt))
            λ _.
              Triple-preserves _
                (Preserves-bind _ _ (from_outcome-Preserves reply) λ r.
                  Preserves-if _ _ _ (Preserves-raise _)
                    (Preserves-bind _ _ (from_outcome-Preserves r.1) λ uri. uri-Preserves uri))
                (λ u h. tt)

module _ (lib : Library) (u : Media) (st : Store) (room : String) (rows : List Row) where
  rows_lem :
      Triple
        (λ v. v ≡ u)
        (bundle_rows lib st room rows)
        (λ att u'. IsBuilt lib st room rows u att u')
        (λ v. Unit)
  unfolding bundle_rows
  rows_lem =
      Triple-bind _ _ (Triple-self (collect st room rows) u (collect-Preserves st room rows)) λ kw.
        let x = lib.encrypt_attachment (lib.dumps kw.0 kw.1) in
        Triple-bind _ _ (upload_lem lib u.sent x.ciphertext _) λ uri.
          Triple-return (attachment lib x uri) (λ u' h. record {
            room_keys = kw.0;
            withheld = kw.1;
            collected = h.1;
            uploaded = h.0;
            answered = refl;
          })

  pub build_lem :
      st.fetch room ≡ ok rows
      → Triple
          (λ v. v ≡ u)
          (build_room_key_bundle lib (some st) room)
          (λ att u'. IsBuilt lib st room rows u att u')
          (λ v. Unit)
  unfolding build_room_key_bundle pure ◌>>=◌
  build_lem fetched = record { run = λ v h. rw fetched (rows_lem.run v h) }
