-- ===== src/Sas/Frames.antt =====
-- What the parts of a handler keep, from what each kind of change keeps.
use shape_rotator_matrix.Base.{String, ◌≡◌, refl, true, ◌&&◌, Option, none, some, List, ◌==◌}
use shape_rotator_matrix.Dict.{lookup}
use shape_rotator_matrix.Exec.{Exn, Outcome, ok, raised, Exec, ◌>>=◌, from_error, from_outcome}
use shape_rotator_matrix.Exec.Rules.{
  Preserves, Preserves-pure, Preserves-raise, Preserves-gets, Preserves-if, Preserves-option,
  Preserves-skip, Preserves-modify, Preserves-bind,
}
use shape_rotator_matrix.Sas.Session.{
  Content, text_at, Device, DeviceInfo, Session, Message, Sent, Manager, Client, keep_session,
  send_to, cancel,
}
use shape_rotator_matrix.Sas.Mac.{
  key_id_of, is_mac, send_mac, record_device, known_or_queried, ensure_device, trust_device,
  check_mac, handle_mac,
}

module _ {S A : Type 0} {P : S → Type 0} where
  pub Preserves-outcome : (r : Outcome A) → Preserves P (from_outcome r)
  Preserves-outcome (ok a) = Preserves-pure a
  Preserves-outcome (raised x) = Preserves-raise x

module _ {S A B : Type 0} {P : S → Type 0} where
  -- The rest of a statement may use what the outcome of a call is.
  pub Preserves-known :
      (r : Outcome A) (f : A → Exec S B)
      → ((a : A) → r ≡ ok a → Preserves P (f a))
      → Preserves P (from_outcome r >>= f)
  unfolding ◌>>=◌
  Preserves-known (ok a) f h = h a refl
  Preserves-known (raised x) f h = Preserves-raise x

pub Preserves-error :
    {S : Type 0} {P : S → Type 0} (o : Option Exn) → Preserves P (from_error {S = S} o)
Preserves-error none = Preserves-skip
Preserves-error (some x) = Preserves-raise x

-- A message that is sent is the only change.
module _ {D : Type 0} (e : Client D) (P : Manager D → Type 0)
    (sends : (w : Manager D) (l : List Sent) → P w → P (record w { sent = l })) where
  pub send_to-Preserves : (s : Session) (m : Message) → Preserves P (send_to e s m)
  unfolding send_to
  send_to-Preserves s m = Preserves-bind _ _ (Preserves-gets _) λ error.
      Preserves-bind _ _ (Preserves-modify _ (λ w h. sends w _ h)) λ _. Preserves-error error

  pub send_mac-Preserves : (s : Session) → Preserves P (send_mac e s)
  unfolding send_mac
  send_mac-Preserves s =
      Preserves-bind _ _ (Preserves-outcome _)
        λ _. Preserves-bind _ _ (Preserves-outcome _) λ _. send_to-Preserves s _

  pub cancel-Preserves :
      (s : Session) (why : String)
      → Preserves P (keep_session (record s { cancelled = true }))
      → Preserves P (cancel e s why)
  unfolding cancel
  cancel-Preserves s why keeps = Preserves-bind _ _ keeps λ _. send_to-Preserves s _

  module _ (stores : (w : Manager D) (b : D) → P w → P (record w { store = b })) (s : Session) where
    ensure_device-Preserves : Preserves P (ensure_device e s)
    unfolding ensure_device
    ensure_device-Preserves = Preserves-bind _ _ (Preserves-gets _) known_lem
      where
        record_lem : (info : Option DeviceInfo) → Preserves P (record_device e s info)
        record_lem none = Preserves-pure _
        record_lem (some info) = Preserves-bind _ _ (Preserves-outcome _) λ keys.
            Preserves-bind _ _ (Preserves-outcome _) λ ed.
              Preserves-bind _ _ (Preserves-outcome _) λ curve.
                Preserves-bind _ _ (Preserves-modify _ (λ w h. stores w _ h)) λ _. Preserves-pure _

        known_lem : (o : Option Device) → Preserves P (known_or_queried e s o)
        known_lem (some device) = Preserves-pure _
        known_lem none =
            Preserves-bind _ _ (Preserves-gets _)
              λ reply. Preserves-bind _ _ (Preserves-outcome _) record_lem

    check_mac-Preserves :
        (c : Content) (x : Device)
        → Preserves P (keep_session (record s { cancelled = true }))
        → Preserves P (check_mac e s c x)
    unfolding check_mac trust_device
    check_mac-Preserves c x keeps = Preserves-bind _ _ (Preserves-outcome _) λ key_code.
        Preserves-bind _ _ (Preserves-outcome _) λ keys_code.
          Preserves-bind _ _ (Preserves-outcome _) λ table.
            Preserves-if
              (is_mac (lookup (key_id_of s.their_device) table) key_code
                && text_at "keys" c == keys_code)
              _ _
              (Preserves-bind _ _ (Preserves-modify _ (λ w h. stores w _ h))
                λ _. send_to-Preserves s _)
              (cancel-Preserves s _ keeps)

    pub handle_mac-Preserves :
        (c : Content)
        → Preserves P (keep_session (record s { cancelled = true }))
        → Preserves P (handle_mac e s c)
    unfolding handle_mac
    handle_mac-Preserves c keeps = Preserves-bind _ _ ensure_device-Preserves λ device.
        Preserves-option device _ _ (cancel-Preserves s _ keeps) λ x. check_mac-Preserves c x keeps
