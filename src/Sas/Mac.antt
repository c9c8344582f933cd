-- ===== src/Sas/Mac.antt =====
-- `class _SASSession`: `handle_key`, `handle_mac` and what they call.
use shape_rotator_matrix.Base.{
  String, Bool, false, ◌&&◌, Option, none, some, [], ◌∷◌, ◌==◌, if◌then◌else◌,
}
use shape_rotator_matrix.Text.{concat, join, is_prefix_of}
use shape_rotator_matrix.Dict.{Dict, lookup}
use shape_rotator_matrix.Exec.{
  Outcome, ok, raised, Exec, Stmt, pure, modify, gets, ◌>>=◌, ◌>>◌, from_error, from_outcome,
  on_option,
}
use shape_rotator_matrix.Sas.Session.{
  Field, str, obj, raw, Content, text_at, unverified, verified, Device, DeviceInfo, Session,
  share_key, send_macs, done, Manager, Client, keep_session, send_to, cancel,
}

-- `f"ed25519:{device}"`
unfoldable pub key_id_of : String → String
unfolding concat
key_id_of device = concat "ed25519:" device

-- `_mac_info_sending`
unfoldable pub mac_info_sending : Session → String → String
unfolding join
mac_info_sending s key_id = join "" (
    "MATRIX_KEY_VERIFICATION_MAC" ∷ s.our_user ∷ s.our_device ∷ s.their_user ∷ s.their_device
    ∷ s.txn_id ∷ key_id ∷ [])

-- `_mac_info_receiving`
unfoldable pub mac_info_receiving : Session → String → String
unfolding join
mac_info_receiving s key_id = join "" (
    "MATRIX_KEY_VERIFICATION_MAC" ∷ s.their_user ∷ s.their_device ∷ s.our_user ∷ s.our_device
    ∷ s.txn_id ∷ key_id ∷ [])

-- `next(v for k, v in keys.items() if k.startswith(prefix))`
unfoldable pub first_key : String → Dict String → Outcome String
first_key prefix [] = raised (record { http_status = 500; text = "coroutine raised StopIteration" })
first_key prefix ((k, v) ∷ keys) =
    let rest = first_key prefix keys in if is_prefix_of prefix k then ok v else rest

-- `content.get("mac", {})`, which is asked for an entry: only an object has `get`
abbrev pub mac_table : Option Field → Outcome (Dict String)
mac_table none = ok []
mac_table (some (obj d)) = ok d
mac_table (some (str s)) = raised (record { http_status = 500; text = "no attribute 'get'" })
mac_table (some (raw s)) = raised (record { http_status = 500; text = "no attribute 'get'" })

-- `mac.get(key_id) == expected`
abbrev pub is_mac : Option String → String → Bool
is_mac none expected = false
is_mac (some m) expected = m == expected

abbrev pub keys_of : Option (Dict String) → Outcome (Dict String)
keys_of none = raised (record { http_status = 500; text = "'keys'" })
keys_of (some d) = ok d

abbrev pub new_device : String → String → String → Device
new_device curve ed name = record {
  identity_key = curve;
  signing_key = ed;
  trust = unverified;
  deleted = false;
  name = name;
}

module _ {D : Type 0} (e : Client D) where
  -- `self._sas.calculate_mac(message, info)`
  abbrev pub mac_of : Session → String → String → Outcome String
  mac_of s = e.calculate_mac s.sas s.their_key

  -- `_send_mac`
  unfoldable pub send_mac : Session → Stmt (Manager D)
  send_mac s = do
    let key_id = key_id_of s.our_device
    key_mac ← from_outcome (mac_of s e.signing_key (mac_info_sending s key_id))
    keys_mac ← from_outcome (mac_of s key_id (mac_info_sending s "KEY_IDS"))
    send_to e s (send_macs ((key_id, key_mac) ∷ []) keys_mac)

  unfoldable pub handle_key : Session → Content → Stmt (Manager D)
  handle_key s c = do
    let their_key = text_at "key" c
    from_error (e.key_error s.sas their_key)
    let s' = record s { their_key = some their_key }
    keep_session s'
    send_to e s' (share_key (e.pubkey s'.sas))
    send_mac s'

  -- The end of `_ensure_device`: the device as /keys/query describes it.
  abbrev pub record_device : Session → Option DeviceInfo → Exec (Manager D) (Option Device)
  record_device s none = pure none
  record_device s (some info) = do
    keys ← from_outcome (keys_of info.keys)
    ed ← from_outcome (first_key "ed25519:" keys)
    curve ← from_outcome (first_key "curve25519:" keys)
    let device = new_device curve ed info.display_name
    modify (λ w. record w {
      store = e.put_devices s.their_user ((s.their_device, device) ∷ []) w.store;
    })
    pure (some device)

  abbrev pub known_or_queried : Session → Option Device → Exec (Manager D) (Option Device)
  known_or_queried s (some device) = pure (some device)
  known_or_queried s none = do
    reply ← gets (λ w. e.query_device w.sent s.their_user s.their_device)
    info ← from_outcome reply
    record_device s info

  -- `_ensure_device`
  unfoldable pub ensure_device : Session → Exec (Manager D) (Option Device)
  ensure_device s = do
    device ← gets (λ w. e.get_device s.their_user s.their_device w.store)
    known_or_queried s device

  -- The end of `handle_mac`: the device is marked as verified.
  unfoldable pub trust_device : Session → Device → Stmt (Manager D)
  trust_device s device = do
    let device' = record device { trust = verified }
    modify (λ w. record w {
      store = e.put_devices s.their_user ((s.their_device, device') ∷ []) w.store;
    })
    send_to e s done

  -- The part of `handle_mac` after the device is known.
  unfoldable pub check_mac : Session → Content → Device → Stmt (Manager D)
  check_mac s c device = do
    let key_id = key_id_of s.their_device
    expected_key ← from_outcome (mac_of s device.signing_key (mac_info_receiving s key_id))
    expected_keys ← from_outcome (mac_of s key_id (mac_info_receiving s "KEY_IDS"))
    mac ← from_outcome (mac_table (lookup "mac" c))
    let matches = is_mac (lookup key_id mac) expected_key && text_at "keys" c == expected_keys
    if matches then trust_device s device else cancel e s "m.key_mismatch"

  unfoldable pub handle_mac : Session → Content → Stmt (Manager D)
  handle_mac s c = do
    device ← ensure_device s
    on_option device (cancel e s "m.key_mismatch") (check_mac s c)
