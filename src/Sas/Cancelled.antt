-- ===== src/Sas/Cancelled.antt =====
-- What a cancelled session can still do.
use shape_rotator_matrix.Base.{◌≡◌, refl, ◌∙◌, true, false, some, [], ◌∷◌, ◌==◌}
use shape_rotator_matrix.Text.{is_empty}
use shape_rotator_matrix.Dict.{lookup, lookup-set_self}
use shape_rotator_matrix.Sas.Session.{
  text_at, verified, Device, Session, done, cancel_code, message_to, Manager, Client,
}
use shape_rotator_matrix.Sas.Manager.{start, mac, Event, run_events}
use shape_rotator_matrix.Sas.Vouched.{Vouches}
use shape_rotator_matrix.Sas.Exchange.{Delivers, PutsFound, on_mac-trusted, on_start_unknown}
use shape_rotator_matrix.Sas.Complete.{txn_of, handled, run_cons}

-- A start with an unknown method cancels a session and tells the peer so. A MAC event that vouches
-- for the device afterwards still marks it as verified, where messages are delivered and the device
-- is known.
pub cancelled_session_verifies :
    {D : Type 0} (e : Client D)
    → Delivers e
    → PutsFound e
    → (s : Session) (st m : Event) (x : Device) (w : Manager D) → st.type ≡ start
    → m.type ≡ mac
    → txn_of st ≡ s.txn_id
    → txn_of m ≡ s.txn_id
    → is_empty s.txn_id ≡ false
    → lookup s.txn_id w.sessions ≡ some s
    → (text_at "method" st.content == "m.sas.v1") ≡ false
    → e.get_device s.their_user s.their_device w.store ≡ some x
    → Vouches e (record s { cancelled = true }) m.content s.their_user s.their_device x.signing_key
    → let w' = run_events e (st ∷ m ∷ []) w in
      (e.get_device s.their_user s.their_device w'.store ≡ some (record x { trust = verified }))
      × (w'.sent ≡ message_to s done ∷ message_to s (cancel_code "m.unknown_method") ∷ w.sent)
unfolding run_events message_to
cancelled_session_verifies e delivers puts s st m x w start_type mac_type start_txn mac_txn there
      live method known vouches =
    rw
      (run_cons e st (m ∷ []) w (
          handled e st start w start_type
          ∙ on_start_unknown e delivers s st w start_txn there live method)
        ∙ run_cons e m [] _ (
            handled e m mac _ mac_type
            ∙ on_mac-trusted e delivers (record s { cancelled = true }) m x _ mac_txn there
                (lookup-set_self s.txn_id (record s { cancelled = true }) w.sessions) known
                vouches))
      (puts _ _ _ _, refl)
