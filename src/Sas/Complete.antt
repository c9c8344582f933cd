-- ===== src/Sas/Complete.antt =====
-- The verification of an honest peer.
use shape_rotator_matrix.Base.{
  ℕ, suc, String, ◌≡◌, refl, ap, ◌∙◌, false, none, some, List, [], ◌∷◌, eq_refl,
}
use shape_rotator_matrix.Text.{is_empty, join}
use shape_rotator_matrix.Dict.{lookup, set, delete, lookup-set_self, lookup-delete}
use shape_rotator_matrix.Exec.{Outcome, ok}
use shape_rotator_matrix.Sas.Session.{
  text_at, verified, Device, Session, Message, ready, accept, share_key, send_macs, done, Sent,
  message_to, Manager, Client, commitment,
}
use shape_rotator_matrix.Sas.Mac.{key_id_of, mac_info_sending, mac_of}
use shape_rotator_matrix.Sas.Manager.{
  EventType, request, start, key, mac, Event, new_session, handler_of, on_event, run_events,
}
use shape_rotator_matrix.Sas.Vouched.{Vouches}
use shape_rotator_matrix.Sas.Exchange.{
  Delivers, PutsFound, trusted, on_mac-trusted, on_request_new, on_start_live, on_key_live,
}

-- An `olm.Sas` object that was told a key computes MACs.
abbrev pub Computes : {D : Type 0} → Client D → Type 0
Computes e =
    (n : ℕ) (their_key text info : String)
    → (code : String) × (e.calculate_mac n (some their_key) text info ≡ ok code)

abbrev pub txn_of : Event → String
txn_of ev = text_at "transaction_id" ev.content

module _ {D : Type 0} (e : Client D) where
  -- The session of a request as the events of a start and a key leave it.
  abbrev pub requested : ℕ → Event → Session
  requested n r = new_session e (txn_of r) r.content r.sender n

  abbrev pub started : ℕ → Event → Event → Session
  started n r st = record (requested n r) { start_event = some st.content }

  abbrev pub paired : ℕ → Event → Event → Event → Session
  paired n r st k = record (started n r st) { their_key = some (text_at "key" k.content) }

  -- The four events of a peer that follows the protocol, whose signing key is the one of `x`.
  pub record Follows (n : ℕ) (r st k m : Event) (x : Device) : Type 0 where
    pub request_type : r.type ≡ request
    pub start_type : st.type ≡ start
    pub key_type : k.type ≡ key
    pub mac_type : m.type ≡ mac
    pub start_txn : txn_of st ≡ txn_of r
    pub key_txn : txn_of k ≡ txn_of r
    pub mac_txn : txn_of m ≡ txn_of r
    pub start_method : text_at "method" st.content ≡ "m.sas.v1"
    pub key_accepted : e.key_error n (text_at "key" k.content) ≡ none
    pub vouches :
        Vouches e
          (paired n r st k)
          m.content
          r.sender
          (text_at "from_device" r.content)
          x.signing_key

  pub handled :
      (ev : Event) (t : EventType) (w : Manager D)
      → ev.type ≡ t
      → on_event e ev w ≡ handler_of e t ev w
  unfolding on_event
  handled ev t w is = ap (λ u. handler_of e u ev w) is

  pub run_cons :
      (ev : Event) (evs : List Event) (w : Manager D) {r : Outcome (Unit {0})} {w' : Manager D}
      → on_event e ev w ≡ (r, w')
      → run_events e (ev ∷ evs) w ≡ run_events e evs w'
  unfolding run_events
  run_cons ev evs w h = ap (λ (p : Outcome (Unit {0}) × Manager D). run_events e evs p.1) h

  -- The messages of the exchange, newest first.
  abbrev pub answers : ℕ → Event → Event → Event → String → String → List Message
  answers n r st k key_code keys_code =
      done
      ∷ send_macs ((key_id_of e.our_device, key_code) ∷ []) keys_code
      ∷ share_key (e.pubkey n)
      ∷ accept (commitment e (requested n r) st.content)
      ∷ ready e.our_device
      ∷ []

  -- The code that the bot computes for a text, with its SAS object `n` that was told the key of the
  -- event `k`: the information names the bot first, then the peer of the request `r`.
  abbrev pub IsOwnCode : ℕ → Event → Event → String → String → String → Type 0
  IsOwnCode n r k text key_id code =
      e.calculate_mac n (some (text_at "key" k.content)) text (
        join "" (
          "MATRIX_KEY_VERIFICATION_MAC"
          ∷ e.our_user
          ∷ e.our_device
          ∷ r.sender
          ∷ text_at "from_device" r.content
          ∷ txn_of r
          ∷ key_id
          ∷ []))
      ≡ ok code

  abbrev pub bodies_from : Session → List Message → List Sent → List Sent
  bodies_from s [] sent = sent
  bodies_from s (m ∷ ms) sent = message_to s m ∷ bodies_from s ms sent

  module _ (delivers : Delivers e) (computes : Computes e) (r st k m : Event) (x : Device)
      (w : Manager D) (follows : Follows w.made r st k m x) (there : is_empty (txn_of r) ≡ false)
      (fresh : lookup (txn_of r) w.sessions ≡ none)
      (known : e.get_device r.sender (text_at "from_device" r.content) w.store ≡ some x) where
    w1 : Manager D
    w1 = record w {
      made = suc w.made;
      sessions = set (txn_of r) (requested w.made r) w.sessions;
      sent = message_to (requested w.made r) (ready e.our_device) ∷ w.sent;
    }

    w2 : Manager D
    unfolding w1
    w2 = record w1 {
      sessions = set (txn_of r) (started w.made r st) w1.sessions;
      sent =
          message_to (requested w.made r) (accept (commitment e (requested w.made r) st.content))
          ∷ w1.sent;
    }

    own_key :
        (code : String) × (mac_of e
            (paired w.made r st k)
            e.signing_key
            (mac_info_sending (paired w.made r st k) (key_id_of e.our_device))
          ≡ ok code)
    unfolding new_session
    own_key = computes _ _ _ _

    own_keys :
        (code : String) × (mac_of e
            (paired w.made r st k)
            (key_id_of e.our_device)
            (mac_info_sending (paired w.made r st k) "KEY_IDS")
          ≡ ok code)
    unfolding new_session
    own_keys = computes _ _ _ _

    w3 : Manager D
    unfolding w1 w2
    w3 = record w2 {
      sessions = set (txn_of r) (paired w.made r st k) w2.sessions;
      sent =
          message_to (paired w.made r st k)
            (send_macs ((key_id_of e.our_device, own_key.0) ∷ []) own_keys.0)
          ∷ message_to (paired w.made r st k) (share_key (e.pubkey w.made))
          ∷ w2.sent;
    }

    first_lem : on_event e r w ≡ (ok tt, w1)
    unfolding w1 new_session
    first_lem =
        handled r request w follows.request_type
        ∙ on_request_new e delivers r (txn_of r) w refl there fresh

    second_lem : on_event e st w1 ≡ (ok tt, w2)
    unfolding w1 w2 new_session
    second_lem =
        handled st start w1 follows.start_type
        ∙ on_start_live e delivers (requested w.made r) st w1 follows.start_txn there
            (lookup-set_self _ _ _) follows.start_method

    third_lem : on_event e k w2 ≡ (ok tt, w3)
    unfolding w1 w2 w3 new_session
    third_lem =
        handled k key w2 follows.key_type
        ∙ on_key_live e delivers (started w.made r st) k w2 own_key.0 own_keys.0 follows.key_txn
            there (lookup-set_self _ _ _) follows.key_accepted own_key.1 own_keys.1

    fourth_lem : on_event e m w3 ≡ (
      ok tt,
      record (trusted e delivers (paired w.made r st k) x w3) {
        sessions = delete (txn_of r) w3.sessions;
      },
    )
    unfolding w1 w2 w3 new_session
    fourth_lem =
        handled m mac w3 follows.mac_type
        ∙ on_mac-trusted e delivers (paired w.made r st k) m x w3 follows.mac_txn there
            (lookup-set_self _ _ _) known follows.vouches

    run_lem :
        run_events e (r ∷ st ∷ k ∷ m ∷ []) w
        ≡ record (trusted e delivers (paired w.made r st k) x w3) {
          sessions = delete (txn_of r) w3.sessions;
        }
    unfolding run_events
    run_lem =
        run_cons r (st ∷ k ∷ m ∷ []) w first_lem
        ∙ run_cons st (k ∷ m ∷ []) w1 second_lem
        ∙ run_cons k (m ∷ []) w2 third_lem
        ∙ run_cons m [] w3 fourth_lem

    -- Where messages are delivered, the crypto library computes its codes, the device is known with
    -- its signing key, and no session has that transaction id: a peer that sends a request, a start,
    -- an acceptable key and the codes for that signing key is verified in the end. The session is
    -- then gone, and the bot has answered with ready, accept, key, MAC and done, in this order, where
    -- the codes of the MAC answer are those of the bot's own signing key and key id, computed over
    -- the information of the sending side.
    pub honest_exchange :
        PutsFound e
        → let w' = run_events e (r ∷ st ∷ k ∷ m ∷ []) w in
          (e.get_device r.sender (text_at "from_device" r.content) w'.store
            ≡ some (record x { trust = verified }))
          × (lookup (txn_of r) w'.sessions ≡ none)
          × (key_code : String) × (keys_code : String) × IsOwnCode w.made r k e.signing_key
              (key_id_of e.our_device)
              key_code
          × IsOwnCode w.made r k (key_id_of e.our_device) "KEY_IDS" keys_code
          × (w'.sent
              ≡ bodies_from (requested w.made r) (answers w.made r st k key_code keys_code) w.sent)
    unfolding w1 w2 w3 new_session message_to mac_info_sending
    honest_exchange puts = rw run_lem (
      puts _ _ _ _,
      simp (lookup-delete, eq_refl),
      own_key.0,
      own_keys.0,
      own_key.1,
      own_keys.1,
      refl,
    )
