-- ===== src/Sas/Known.antt =====
-- Where the sessions of the table come from.
use shape_rotator_matrix.Base.{String, ◌≡◌, refl, ◌∙◌, ◌⊎◌, inl, inr, some, ◌==◌}
use shape_rotator_matrix.Dict.{lookup, lookup-set_cases, lookup_of_lookup-delete}
use shape_rotator_matrix.Exec.Rules.{Preserves, Preserves-if, Preserves-modify, Preserves-bind}
use shape_rotator_matrix.Sas.Session.{
  Content, text_at, Session, Message, Manager, Client, keep_session, send_to, cancel, handle_start,
}
use shape_rotator_matrix.Sas.Mac.{handle_key, handle_mac}
use shape_rotator_matrix.Sas.Manager.{request, start, Event, pop_session}
use shape_rotator_matrix.Sas.Frames.{
  Preserves-error, send_to-Preserves, send_mac-Preserves, cancel-Preserves, handle_mac-Preserves,
}

-- The event opens a transaction for a device of its sender.
pub record Opens (txn u d : String) (ev : Event) : Type 0 where
  pub type : (ev.type ≡ request) ⊎ (ev.type ≡ start)
  pub txn_id : text_at "transaction_id" ev.content ≡ txn
  pub sender : ev.sender ≡ u
  pub device : text_at "from_device" ev.content ≡ d

module _ {D : Type 0} (e : Client D) (O : String → String → String → Type 0) where
  -- A session that carries the bot's own identity, and of whose other side `O` holds.
  pub record Fits (s : Session) : Type 0 where
    pub origin : O s.txn_id s.their_user s.their_device
    pub our_user : s.our_user ≡ e.our_user
    pub our_device : s.our_device ≡ e.our_device

  -- Every session stands under its own id, which is not empty, and fits.
  abbrev pub AllFit : Manager D → Type 0
  AllFit w =
      (txn : String) (s : Session) → lookup txn w.sessions ≡ some s → (s.txn_id ≡ txn) × Fits s

  pub keep_session-AllFit : (s : Session) → Fits s → Preserves AllFit (keep_session s)
  unfolding keep_session
  keep_session-AllFit s fits = Preserves-modify _ λ w h txn t found.
      elim (lookup-set_cases s.txn_id txn s t _ found) [
        | inl (same, is_s) ↦ rw is_s (same, fits)
        | inr before ↦ h txn t before
      ]

  pub pop_session-AllFit : (txn : String) → Preserves AllFit (pop_session txn)
  unfolding pop_session
  pop_session-AllFit txn =
      Preserves-modify _ λ w h j t found. h j t (lookup_of_lookup-delete txn j t _ found)

  pub send_to-AllFit : (s : Session) (m : Message) → Preserves AllFit (send_to e s m)
  send_to-AllFit = send_to-Preserves e AllFit (λ w l h. h)

  module _ (s : Session) (fits : Fits s) where
    -- The session after a change of the fields that `Fits` does not read.
    changed_lem :
        (t : Session)
        → t.txn_id ≡ s.txn_id
        → t.their_user ≡ s.their_user
        → t.their_device ≡ s.their_device
        → t.our_user ≡ s.our_user
        → t.our_device ≡ s.our_device
        → Fits t
    changed_lem t p q r u d = record {
      origin = rw (p, q, r) fits.origin;
      our_user = u ∙ fits.our_user;
      our_device = d ∙ fits.our_device;
    }

    keep_changed :
        (t : Session)
        → t.txn_id ≡ s.txn_id
        → t.their_user ≡ s.their_user
        → t.their_device ≡ s.their_device
        → t.our_user ≡ s.our_user
        → t.our_device ≡ s.our_device
        → Preserves AllFit (keep_session t)
    keep_changed t p q r u d = keep_session-AllFit t (changed_lem t p q r u d)

    cancel-AllFit : (why : String) → Preserves AllFit (cancel e s why)
    cancel-AllFit why =
        cancel-Preserves e AllFit (λ w l h. h) s why (keep_changed _ refl refl refl refl refl)

    pub handle_start-AllFit : (c : Content) → Preserves AllFit (handle_start e s c)
    unfolding handle_start
    handle_start-AllFit c =
        Preserves-if (text_at "method" c == "m.sas.v1") _ _
          (Preserves-bind _ _ (keep_changed _ refl refl refl refl refl) λ _. send_to-AllFit s _)
          (cancel-AllFit _)

    pub handle_key-AllFit : (c : Content) → Preserves AllFit (handle_key e s c)
    unfolding handle_key
    handle_key-AllFit c = Preserves-bind _ _ (Preserves-error _) λ _.
        Preserves-bind _ _ (keep_changed _ refl refl refl refl refl) λ _.
          Preserves-bind _ _ (send_to-AllFit _ _) λ _. send_mac-Preserves e AllFit (λ w l h. h) _

    pub handle_mac-AllFit : (c : Content) → Preserves AllFit (handle_mac e s c)
    handle_mac-AllFit c =
        handle_mac-Preserves e AllFit (λ w l h. h) (λ w b h. h) s c
          (keep_changed _ refl refl refl refl refl)
