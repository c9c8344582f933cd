-- ===== src/Sas/Exchange.antt =====
-- A verification that runs to its end.
use shape_rotator_matrix.Base.{
  suc, String, ◌≡◌, refl, true, false, ◌&&◌, none, some, List, [], ◌∷◌, ◌==◌, eq_refl,
}
use shape_rotator_matrix.Text.{is_empty}
use shape_rotator_matrix.Dict.{Dict, lookup, set, delete}
use shape_rotator_matrix.Exec.{ok, ◌>>=◌}
use shape_rotator_matrix.Sas.Session.{
  Content, text_at, verified, Device, Session, Message, ready, accept, share_key, send_macs, done,
  cancel_code, Sent, message_to, Manager, Client, keep_session, send_to, cancel, handle_request,
  handle_start, commitment,
}
use shape_rotator_matrix.Sas.Mac.{
  key_id_of, mac_info_sending, is_mac, mac_of, send_mac, handle_key, ensure_device, trust_device,
  check_mac, handle_mac,
}
use shape_rotator_matrix.Sas.Manager.{
  Event, new_session, get_or_create, with_session, pop_session, on_request, on_start, on_key,
  on_mac,
}
use shape_rotator_matrix.Sas.Vouched.{Vouches}

-- No message fails.
abbrev pub Delivers : {D : Type 0} → Client D → Type 0
Delivers e = (l : List Sent) (m : Sent) → e.send_error l m ≡ none

-- A device that was put is found.
abbrev pub PutsFound : {D : Type 0} → Client D → Type 0
PutsFound {D} e =
    (u d : String) (x : Device) (b : D)
    → e.get_device u d (e.put_devices u ((d, x) ∷ []) b) ≡ some x

module _ {D : Type 0} (e : Client D) (delivers : Delivers e) where
  pub send_to_lem :
      (s : Session) (m : Message) (w : Manager D)
      → send_to e s m w ≡ (ok tt, record w { sent = message_to s m ∷ w.sent })
  unfolding send_to ◌>>=◌
  send_to_lem s m w = rw (delivers w.sent (message_to s m)) refl

  -- The state after a device is trusted.
  abbrev pub trusted : Session → Device → Manager D → Manager D
  trusted s x w = record w {
    store =
        e.put_devices s.their_user ((s.their_device, record x { trust = verified }) ∷ []) w.store;
    sent = message_to s done ∷ w.sent;
  }

  matching_lem :
      (c : Content) (s : Session) (k code : String) (table : Dict String)
      → lookup k table ≡ some code
      → (is_mac (lookup k table) code && text_at "keys" c == text_at "keys" c) ≡ true
  matching_lem c s k code table found = rw (found, eq_refl code, eq_refl (text_at "keys" c)) refl

  handle_mac-trusted :
      (s : Session) (c : Content) (x : Device) (w : Manager D)
      → e.get_device s.their_user s.their_device w.store ≡ some x
      → Vouches e s c s.their_user s.their_device x.signing_key
      → handle_mac e s c w ≡ (ok tt, trusted s x w)
  unfolding handle_mac ensure_device check_mac trust_device ◌>>=◌
  handle_mac-trusted s c x w known v =
      rw (known, v.computed, v.keys_mac, v.given, matching_lem c s _ v.code v.table v.key_mac)
        (send_to_lem s done _)

  -- A MAC event that vouches for the stored key of the device of a live session, whatever has become
  -- of that session before.
  pub on_mac-trusted :
      (s : Session) (ev : Event) (x : Device) (w : Manager D)
      → text_at "transaction_id" ev.content ≡ s.txn_id
      → is_empty s.txn_id ≡ false
      → lookup s.txn_id w.sessions ≡ some s
      → e.get_device s.their_user s.their_device w.store ≡ some x
      → Vouches e s ev.content s.their_user s.their_device x.signing_key
      → on_mac e ev w ≡ (ok tt, record (trusted s x w) { sessions = delete s.txn_id w.sessions })
  unfolding on_mac with_session pop_session ◌>>=◌
  on_mac-trusted s ev x w same there live known v =
      rw (same, there, live, handle_mac-trusted s ev.content x w known v) refl

  pub on_request_new :
      (ev : Event) (txn : String) (w : Manager D)
      → text_at "transaction_id" ev.content ≡ txn
      → is_empty txn ≡ false
      → lookup txn w.sessions ≡ none
      → let s = new_session e txn ev.content ev.sender w.made in
        on_request e ev w ≡ (
          ok tt,
          record w {
            made = suc w.made;
            sessions = set s.txn_id s w.sessions;
            sent = message_to s (ready s.our_device) ∷ w.sent;
          },
        )
  unfolding on_request get_or_create handle_request keep_session ◌>>=◌
  on_request_new ev txn w same there fresh = rw (same, there, fresh) (send_to_lem _ _ _)

  pub on_start_live :
      (s : Session) (ev : Event) (w : Manager D)
      → text_at "transaction_id" ev.content ≡ s.txn_id
      → is_empty s.txn_id ≡ false
      → lookup s.txn_id w.sessions ≡ some s
      → text_at "method" ev.content ≡ "m.sas.v1"
      → on_start e ev w ≡ (
        ok tt,
        record w {
          sessions = set s.txn_id (record s { start_event = some ev.content }) w.sessions;
          sent = message_to s (accept (commitment e s ev.content)) ∷ w.sent;
        },
      )
  unfolding on_start get_or_create handle_start keep_session ◌>>=◌
  on_start_live s ev w same there live method = rw (same, there, live, method) (send_to_lem _ _ _)

  pub on_key_live :
      (s : Session) (ev : Event) (w : Manager D) (key_code keys_code : String)
      → text_at "transaction_id" ev.content ≡ s.txn_id
      → is_empty s.txn_id ≡ false
      → lookup s.txn_id w.sessions ≡ some s
      → e.key_error s.sas (text_at "key" ev.content) ≡ none
      → let s' = record s { their_key = some (text_at "key" ev.content) } in
        let key_id = key_id_of s.our_device in
        mac_of e s' e.signing_key (mac_info_sending s' key_id) ≡ ok key_code
        → mac_of e s' key_id (mac_info_sending s' "KEY_IDS") ≡ ok keys_code
        → on_key e ev w ≡ (
          ok tt,
          record w {
            sessions = set s.txn_id s' w.sessions;
            sent =
                message_to s' (send_macs ((key_id, key_code) ∷ []) keys_code)
                ∷ message_to s' (share_key (e.pubkey s.sas))
                ∷ w.sent;
          },
        )
  unfolding on_key with_session handle_key keep_session send_mac ◌>>=◌
  on_key_live s ev w key_code keys_code same there live good own_key own_keys =
      rw (same, there, live, good, send_to_lem, own_key, own_keys) (send_to_lem _ _ _)

  pub on_start_unknown :
      (s : Session) (ev : Event) (w : Manager D)
      → text_at "transaction_id" ev.content ≡ s.txn_id
      → is_empty s.txn_id ≡ false
      → lookup s.txn_id w.sessions ≡ some s
      → (text_at "method" ev.content == "m.sas.v1") ≡ false
      → on_start e ev w ≡ (
        ok tt,
        record w {
          sessions = set s.txn_id (record s { cancelled = true }) w.sessions;
          sent = message_to s (cancel_code "m.unknown_method") ∷ w.sent;
        },
      )
  unfolding on_start get_or_create handle_start cancel keep_session ◌>>=◌
  on_start_unknown s ev w same there live method =
      rw (same, there, live, method) (send_to_lem _ _ _)
