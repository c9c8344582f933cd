-- ===== src/Tests/Devices.antt =====
-- The verification of devices at concrete inputs.
use shape_rotator_matrix.Base.{
  ℕ, String, ◌≡◌, refl, sym, ◌⊎◌, inl, inr, Bool, true, false, Option, none, some, List, [], ◌∷◌,
  ◌==◌, eq_iff, eq_refl, if◌then◌else◌,
}
use shape_rotator_matrix.Text.{concat, join}
use shape_rotator_matrix.Dict.{Dict, lookup}
use shape_rotator_matrix.Exec.{Outcome, ok, raised}
use shape_rotator_matrix.Exec.Triples.{Post}
use shape_rotator_matrix.Sas.Session.{
  str, obj, text_at, unverified, verified, Device, Session, message_to, done, cancel_code, Manager,
  Client,
}
use shape_rotator_matrix.Sas.Mac.{key_id_of, mac_info_receiving}
use shape_rotator_matrix.Sas.Manager.{
  request, start, key, mac, Event, new_session, on_mac, run_events,
}
use shape_rotator_matrix.Sas.Vouched.{PutsOnly, Vouches}
use shape_rotator_matrix.Sas.History.{IsKnown, history_after, run_events-IsKnown}
use shape_rotator_matrix.Sas.Trusted.{SomeVerifies, run_events-Verifies}
use shape_rotator_matrix.Sas.Settled.{IsLive, on_mac-Settled}
use shape_rotator_matrix.Sas.Exchange.{PutsFound}
use shape_rotator_matrix.Sas.Cancelled.{cancelled_session_verifies}
use shape_rotator_matrix.Sas.Complete.{
  Computes, Follows, requested, paired, answers, IsOwnCode, bodies_from, honest_exchange,
}

-- A crypto store as a function of the user and the device.
abbrev Store : Type 0
Store = String → String → Option Device

abbrev or_else : Option Device → Option Device → Option Device
or_else none old = old
or_else (some x) old = some x

abbrev put : String → Dict Device → Store → Store
put u devices b u' d' = if u == u' then or_else (lookup d' devices) (b u' d') else b u' d'

-- A code is the text with its information.
abbrev code_for : ℕ → Option String → String → String → Outcome String
code_for n none text info = raised (record { http_status = 500; text = "no key" })
code_for n (some k) text info = ok (concat text info)

abbrev client : Client Store
client = record {
  our_user = "@bot";
  our_device = "B";
  signing_key = "bot key";
  pubkey = λ n. "pub";
  key_error = λ n k. none;
  calculate_mac = code_for;
  sha256_base64 = λ s. s;
  canonical_json = λ c. "{}";
  get_device = λ u d b. b u d;
  put_devices = put;
  send_error = λ l m. none;
  query_device = λ l u d. ok none;
}

put_lem :
    (same_user same_device : Bool) (x y : Device) (old : Option Device)
    → (if same_user then or_else (if same_device then some x else none) old else old) ≡ some y
    → ((same_user ≡ true) × (same_device ≡ true) × (y ≡ x)) ⊎ (old ≡ some y)
put_lem false same_device x y old found = inr found
put_lem true false x y old found = inr found
put_lem true true x y old found = inl (refl, refl, cc found)

client-PutsOnly : PutsOnly client
unfolding lookup
client-PutsOnly u d u' d' x y b found = elim (put_lem (u == u') (d == d') x y (b u' d') found) [
  | inl (same_user, same_device, same) ↦
      inl (sym ((eq_iff u u').0 same_user), sym ((eq_iff d d').0 same_device), same)
  | inr before ↦ inr before
]

client-PutsFound : PutsFound client
unfolding lookup
client-PutsFound u d x b = rw (eq_refl u, eq_refl d) refl

client-Computes : Computes client
client-Computes n k text info = (concat text info, refl)

abbrev ada_device : Device
ada_device = record {
  identity_key = "curve";
  signing_key = "ada key";
  trust = unverified;
  deleted = false;
  name = "phone";
}

abbrev store : Store
store u d = if u == "@ada" then (if d == "A" then some ada_device else none) else none

abbrev start_state : Manager Store
start_state = record { sessions = []; store = store; sent = []; made = 0 }

abbrev ask : Event
ask = record {
  type = request;
  sender = "@ada";
  content = ("transaction_id", str "t1") ∷ ("from_device", str "A") ∷ [];
}

abbrev begin : Event
begin = record {
  type = start;
  sender = "@ada";
  content = ("transaction_id", str "t1") ∷ ("method", str "m.sas.v1") ∷ [];
}

abbrev tell : Event
tell = record {
  type = key;
  sender = "@ada";
  content = ("transaction_id", str "t1") ∷ ("key", str "ada public") ∷ [];
}

-- The codes that the peer computes.
abbrev prove : Event
prove = record {
  type = mac;
  sender = "@ada";
  content =
      ("transaction_id", str "t1")
      ∷ ("mac", obj (("ed25519:A", "ada keyMATRIX_KEY_VERIFICATION_MAC@adaA@botBt1ed25519:A") ∷ []))
      ∷ ("keys", str "ed25519:AMATRIX_KEY_VERIFICATION_MAC@adaA@botBt1KEY_IDS")
      ∷ [];
}

session : Session
unfolding new_session text_at lookup
session = paired client 0 ask begin tell

prove-Vouches : Vouches client session prove.content "@ada" "A" "ada key"
unfolding session new_session text_at lookup key_id_of mac_info_receiving concat join
prove-Vouches = record {
  user = refl;
  device = refl;
  table = _;
  given = refl;
  code = _;
  key_mac = refl;
  computed = refl;
  keys_mac = refl;
}

follows : Follows client 0 ask begin tell prove ada_device
unfolding session new_session text_at lookup
follows = record {
  request_type = refl;
  start_type = refl;
  key_type = refl;
  mac_type = refl;
  start_txn = refl;
  key_txn = refl;
  mac_txn = refl;
  start_method = refl;
  key_accepted = refl;
  vouches = prove-Vouches;
}

abbrev events : List Event
events = ask ∷ begin ∷ tell ∷ prove ∷ []

honest_exchange_example :
    let w' = run_events client events start_state in
    (w'.store "@ada" "A" ≡ some (record ada_device { trust = verified }))
    × (lookup "t1" w'.sessions ≡ none)
    × (key_code : String) × (keys_code : String) × IsOwnCode client 0 ask tell client.signing_key
        (key_id_of client.our_device)
        key_code
    × IsOwnCode client 0 ask tell (key_id_of client.our_device) "KEY_IDS" keys_code
    × (w'.sent
        ≡ bodies_from client
            (requested client 0 ask)
            (answers client 0 ask begin tell key_code keys_code)
            [])
unfolding text_at lookup
honest_exchange_example =
    honest_exchange client (λ l m. refl) client-Computes ask begin tell prove ada_device start_state
      follows refl refl refl client-PutsFound

start_state-IsKnown : IsKnown client [] start_state
unfolding lookup
start_state-IsKnown txn s found = cc found

run_events-IsKnown_example :
    IsKnown client (history_after events []) (run_events client events start_state)
run_events-IsKnown_example = run_events-IsKnown client events [] start_state start_state-IsKnown

run_events-Verifies_example :
    (store "@ada" "A" ≡ some (record ada_device { trust = verified }))
    ⊎ SomeVerifies client events [] start_state "@ada" "A" "ada key"
run_events-Verifies_example =
    run_events-Verifies client client-PutsOnly events [] start_state start_state-IsKnown "@ada" "A"
      (record ada_device { trust = verified }) honest_exchange_example.0 refl

live_state : Manager Store
live_state = record start_state { sessions = ("t1", session) ∷ [] }

on_mac-Settled_example :
    Post
      (λ _ w'. lookup session.txn_id w'.sessions ≡ none)
      (λ w'. IsLive session w')
      (on_mac client prove live_state)
unfolding session live_state new_session text_at lookup
on_mac-Settled_example = on_mac-Settled client session prove live_state refl refl refl

abbrev begin_oddly : Event
begin_oddly = record begin {
  content = ("transaction_id", str "t1") ∷ ("method", str "m.qr_code.v1") ∷ [];
}

cancelled_session_verifies_example :
    let w' = run_events client (begin_oddly ∷ prove ∷ []) live_state in
    (w'.store "@ada" "A" ≡ some (record ada_device { trust = verified }))
    × (w'.sent ≡ message_to session done ∷ message_to session (cancel_code "m.unknown_method") ∷ [])
unfolding session live_state new_session text_at lookup key_id_of mac_info_receiving concat join
cancelled_session_verifies_example =
    cancelled_session_verifies client (λ l m. refl) client-PutsFound session begin_oddly prove
      ada_device live_state refl refl refl refl refl refl refl refl
      (record {
        user = refl;
        device = refl;
        table = _;
        given = refl;
        code = _;
        key_mac = refl;
        computed = refl;
        keys_mac = refl;
      })
