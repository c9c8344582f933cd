-- ===== src/Sas/Vouched.antt =====
-- Which device is marked as verified, and what vouches for it.
use shape_rotator_matrix.Base.{
  String, ◌≡◌, refl, sym, ap, ◌∙◌, ◌⊎◌, inl, inr, Bool, true, Bool-cases, ◌&&◌, Option, none, some,
  [], ◌∷◌, arith, ◌==◌, eq_iff,
}
use shape_rotator_matrix.Dict.{Dict, lookup}
use shape_rotator_matrix.Exec.{ok}
use shape_rotator_matrix.Exec.Rules.{
  Preserves, Preserves-pure, Preserves-gets, Preserves-if, Preserves-option, Preserves-modify,
  Preserves-bind,
}
use shape_rotator_matrix.Sas.Session.{
  Content, text_at, verified, Device, DeviceInfo, Session, Message, Manager, Client, keep_session,
  send_to, cancel, handle_start,
}
use shape_rotator_matrix.Sas.Frames.{
  Preserves-outcome, Preserves-known, Preserves-error, send_to-Preserves, send_mac-Preserves,
  cancel-Preserves,
}
use shape_rotator_matrix.Sas.Mac.{
  key_id_of, mac_info_receiving, mac_table, is_mac, mac_of, new_device, handle_key, record_device,
  known_or_queried, ensure_device, trust_device, check_mac, handle_mac,
}

-- What is documented of `put_devices`: a lookup afterwards finds the device that was put, or what it
-- found before. Whether the other devices of the user stay is left open.
abbrev pub PutsOnly : {D : Type 0} → Client D → Type 0
PutsOnly {D} e =
    (u d u' d' : String) (x y : Device) (b : D)
    → e.get_device u' d' (e.put_devices u ((d, x) ∷ []) b) ≡ some y
    → ((u' ≡ u) × (d' ≡ d) × (y ≡ x)) ⊎ (e.get_device u' d' b ≡ some y)

-- The content of a MAC event agrees with the MACs that session `s` computes for the signing key
-- `key` of device `d` of user `u`.
pub record Vouches {D : Type 0} (e : Client D) (s : Session) (c : Content) (u d key : String)
    : Type 0 where
  pub user : u ≡ s.their_user
  pub device : d ≡ s.their_device
  pub table : Dict String
  pub given : mac_table (lookup "mac" c) ≡ ok table
  pub code : String
  pub key_mac : lookup (key_id_of s.their_device) table ≡ some code
  pub computed : mac_of e s key (mac_info_receiving s (key_id_of s.their_device)) ≡ ok code
  pub keys_mac :
      mac_of e s (key_id_of s.their_device) (mac_info_receiving s "KEY_IDS") ≡ ok (text_at "keys" c)

module _ {D : Type 0} (e : Client D) (b : D) (V : String → String → String → Type 0) where
  -- Every verified device of the store was so in `b`, or `V` holds of it.
  abbrev pub Covered : D → Type 0
  Covered now =
      (u d : String) (x : Device)
      → e.get_device u d now ≡ some x
      → x.trust ≡ verified
      → (e.get_device u d b ≡ some x) ⊎ V u d x.signing_key

  abbrev pub IsCovered : Manager D → Type 0
  IsCovered w = Covered w.store

  keep_session-IsCovered : (s : Session) → Preserves IsCovered (keep_session s)
  unfolding keep_session
  keep_session-IsCovered s = Preserves-modify _ (λ w h. h)

  pub send_to-IsCovered : (s : Session) (m : Message) → Preserves IsCovered (send_to e s m)
  send_to-IsCovered = send_to-Preserves e IsCovered (λ w l h. h)

  pub cancel-IsCovered : (s : Session) (why : String) → Preserves IsCovered (cancel e s why)
  cancel-IsCovered s why =
      cancel-Preserves e IsCovered (λ w l h. h) s why (keep_session-IsCovered _)

  pub handle_start-IsCovered :
      (s : Session) (c : Content) → Preserves IsCovered (handle_start e s c)
  unfolding handle_start
  handle_start-IsCovered s c =
      Preserves-if (text_at "method" c == "m.sas.v1") _ _
        (Preserves-bind _ _ (keep_session-IsCovered _) λ _. send_to-IsCovered s _)
        (cancel-IsCovered s _)

  pub handle_key-IsCovered : (s : Session) (c : Content) → Preserves IsCovered (handle_key e s c)
  unfolding handle_key
  handle_key-IsCovered s c = Preserves-bind _ _ (Preserves-error _) λ _.
      Preserves-bind _ _ (keep_session-IsCovered _) λ _.
        Preserves-bind _ _ (send_to-IsCovered _ _)
          λ _. send_mac-Preserves e IsCovered (λ w l h. h) _

  module _ (puts : PutsOnly e) where
    unverified-Covered :
        (u d curve ed name : String) (now : D)
        → Covered now
        → Covered (e.put_devices u ((d, new_device curve ed name) ∷ []) now)
    unverified-Covered u d curve ed name now h u' d' y found trusted =
        elim (puts u d u' d' (new_device curve ed name) y now found) [
          | inl (_, _, same) ↦ cc (ap (λ (z : Device). z.trust) same, trusted)
          | inr before ↦ h u' d' y before trusted
        ]

    ensure_device-IsCovered : (s : Session) → Preserves IsCovered (ensure_device e s)
    unfolding ensure_device
    ensure_device-IsCovered s = Preserves-bind _ _ (Preserves-gets _) known_lem
      where
        record_lem : (info : Option DeviceInfo) → Preserves IsCovered (record_device e s info)
        record_lem none = Preserves-pure _
        record_lem (some info) = Preserves-bind _ _ (Preserves-outcome _) λ keys.
            Preserves-bind _ _ (Preserves-outcome _) λ ed.
              Preserves-bind _ _ (Preserves-outcome _) λ curve.
                Preserves-bind _ _
                  (Preserves-modify _ (λ w h.
                    unverified-Covered s.their_user s.their_device curve ed info.display_name
                      w.store h))
                  λ _. Preserves-pure _

        known_lem : (o : Option Device) → Preserves IsCovered (known_or_queried e s o)
        known_lem (some device) = Preserves-pure _
        known_lem none =
            Preserves-bind _ _ (Preserves-gets _)
              λ reply. Preserves-bind _ _ (Preserves-outcome _) record_lem

    trust_device-IsCovered :
        (s : Session) (x : Device)
        → V s.their_user s.their_device x.signing_key
        → Preserves IsCovered (trust_device e s x)
    unfolding trust_device
    trust_device-IsCovered s x v =
        Preserves-bind _ _
          (Preserves-modify _ (λ w h u d y found trusted.
            elim (puts s.their_user s.their_device u d _ y w.store found) [
              | inl (same_user, same_device, same) ↦ inr (rw (same_user, same_device, same) v)
              | inr before ↦ h u d y before trusted
            ]))
          λ _. send_to-IsCovered s _

is_mac_lem :
    (o : Option String) (m : String) (rest : Bool)
    → (is_mac o m && rest) ≡ true
    → (o ≡ some m) × (rest ≡ true)
is_mac_lem none m rest h = cc
is_mac_lem (some n) m rest h = ground (arith, eq_iff n m)

module _ {D : Type 0} (e : Client D) (puts : PutsOnly e) (b : D) (s : Session) (c : Content) where
  abbrev IsVouched : Manager D → Type 0
  IsVouched = IsCovered e b (Vouches e s c)

  matches-Vouches :
      (x : Device) (table : Dict String) (key_code keys_code : String)
      → mac_table (lookup "mac" c) ≡ ok table
      → mac_of e s x.signing_key (mac_info_receiving s (key_id_of s.their_device)) ≡ ok key_code
      → mac_of e s (key_id_of s.their_device) (mac_info_receiving s "KEY_IDS") ≡ ok keys_code
      → (is_mac (lookup (key_id_of s.their_device) table) key_code && text_at "keys" c == keys_code)
        ≡ true
      → Vouches e s c s.their_user s.their_device x.signing_key
  matches-Vouches x table key_code keys_code given key_mac keys_mac same =
      let (found, agree) = is_mac_lem (lookup (key_id_of s.their_device) table) key_code _ same in
      record {
        user = refl;
        device = refl;
        table = table;
        given = given;
        code = key_code;
        key_mac = found;
        computed = key_mac;
        keys_mac = keys_mac ∙ ap ok (sym ((eq_iff _ _).0 agree));
      }

  check_mac-IsVouched : (x : Device) → Preserves IsVouched (check_mac e s c x)
  unfolding check_mac
  check_mac-IsVouched x = Preserves-known _ _ λ key_code key_mac.
      Preserves-known _ _ λ keys_code keys_mac. Preserves-known _ _ λ table given.
        elim (Bool-cases (
          is_mac (lookup (key_id_of s.their_device) table) key_code
          && text_at "keys" c == keys_code)) [
            | inl same ↦ rw same (
                trust_device-IsCovered e b (Vouches e s c) puts s x
                  (matches-Vouches x table key_code keys_code given key_mac keys_mac same))
            | inr differ ↦ rw differ (cancel-IsCovered e b (Vouches e s c) s "m.key_mismatch")
          ]

  pub handle_mac-IsVouched : Preserves IsVouched (handle_mac e s c)
  unfolding handle_mac
  handle_mac-IsVouched =
      Preserves-bind _ _ (ensure_device-IsCovered e b (Vouches e s c) puts s) λ device.
        Preserves-option device _ _ (cancel-IsCovered e b (Vouches e s c) s "m.key_mismatch")
          check_mac-IsVouched
