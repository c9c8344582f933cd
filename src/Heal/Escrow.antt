-- ===== src/Heal/Escrow.antt =====
-- What becomes of the inbound sessions when the crypto store is wiped.
use shape_rotator_matrix.Base.{
  String, true, false, if◌then◌else◌, ◌≡◌, refl, subst, ◌⊎◌, inl, inr, Bool, ◌&&◌, ◌||◌, Option,
  none, some, List, [], ◌∷◌,
}
use shape_rotator_matrix.Exec.{
  Exn, Outcome, ok, raised, pure, raise, modify, from_outcome, ◌>>=◌, ◌>>◌, skip,
}
use shape_rotator_matrix.Exec.Rules.{
  Preserves, Preserves-skip, Preserves-pure, Preserves-raise, Preserves-gets, Preserves-modify,
  Preserves-bind, Preserves-if,
}
use shape_rotator_matrix.Exec.Returns.{
  Returns, Returns-pure, Returns-seq, Returns-if, Returns-weaken,
}
use shape_rotator_matrix.Exec.Triples.{
  Triple-returns, Triple, Triple-bind, Triple-preserves, Triple-both, Triple-if, Triple-pure,
  Triple-gets, Triple-use, after,
}
use shape_rotator_matrix.Credentials.{
  Identity, Login, Disk, Boot, Server, Resolved, read_text, whoami_with_token, or_raise,
  login_with_password, persist, retry_login, by_password, after_cached, after_env,
  resolve_credentials, HeldSession, StoredRow, Entry, write_device,
}
use shape_rotator_matrix.Heal.{
  entry_of, has_store, entry_for, with_entry, export_rows, write_escrow, or_fail,
  export_escrow_for_wipe, wipe_crypto_store, escrow_first, no_device, wipe_if, start_main_bot,
}

-- The store and the escrow are as they were.
record SameStore (a b : Disk) : Type 0 where
  crypto : b.crypto ≡ a.crypto
  escrow : b.escrow ≡ a.escrow

-- The entries that an export of the rows writes: one for each session that is not withheld and is
-- found, under its own ids and with its own keys, in the order of the rows.
pub data Exports (s : Server) : List StoredRow → List Entry → Type 0 where
  finished : Exports s [] []
  left_out :
      {row : StoredRow} {rows : List StoredRow} {entries : List Entry}
      → row.is_withheld ≡ true
      → Exports s rows entries
      → Exports s (row ∷ rows) entries
  not_found :
      {row : StoredRow} {rows : List StoredRow} {entries : List Entry}
      → row.is_withheld ≡ false
      → row.held ≡ ok none
      → Exports s rows entries
      → Exports s (row ∷ rows) entries
  written :
      {row : StoredRow} {rows : List StoredRow} {entries : List Entry} (h : HeldSession)
      (key : String)
      → row.is_withheld ≡ false
      → row.held ≡ ok (some h)
      → s.export_session h h.first_known_index ≡ ok key
      → Exports s rows entries
      → Exports s (row ∷ rows) (
          record {
            room_id = h.room_id;
            sender_key = h.sender_key;
            signing_key = h.signing_key;
            session_id = h.id;
            first_known_index = h.first_known_index;
            session_key = key;
          }
          ∷ entries)

-- The escrow after an export of the store.
abbrev pub IsExported :
    Server → Option (List StoredRow) → Option (List Entry) → Option (List Entry) → Type 0
IsExported s none old new = new ≡ old
IsExported s (some rows) old new =
    (entries : List Entry) × (new ≡ some entries) × Exports s rows entries

-- The store is as it was, or it is wiped after an export of it, for which the device must have been
-- known.
abbrev pub IsSafe : Server → Disk → Disk → Type 0
IsSafe s a b =
    (b.crypto ≡ a.crypto)
    ⊎ ((b.crypto ≡ none)
        × ((read_text a.device_id ≡ none) ⊎ IsExported s a.crypto a.escrow b.escrow))

module _ (s : Server) where
  outcome_lem : {A : Type 0} {P : Boot → Type 0} (r : Outcome A) → Preserves P (from_outcome r)
  outcome_lem (ok v) = Preserves-pure v
  outcome_lem (raised x) = Preserves-raise x

  fail_lem : {P : Boot → Type 0} (o : Option Exn) → Preserves P (or_fail o)
  fail_lem none = Preserves-skip
  fail_lem (some x) = Preserves-raise x

  module _ {P : Boot → Type 0} where
    entry_lem : (held : Option HeldSession) → Preserves P (entry_for s held)
    entry_lem none = Preserves-pure _
    entry_lem (some h) = Preserves-bind _ _ (outcome_lem _) λ key. Preserves-pure _

    Preserves-export_rows : (rows : List StoredRow) → Preserves P (export_rows s rows)
    unfolding export_rows
    Preserves-export_rows [] = Preserves-pure _
    Preserves-export_rows (row ∷ rows) =
        Preserves-if row.is_withheld _ _ (Preserves-export_rows rows) (
          Preserves-bind _ _ (outcome_lem row.held) λ held.
            Preserves-bind _ _ (entry_lem held)
              λ entry. Preserves-bind _ _ (Preserves-export_rows rows) λ rest. Preserves-pure _)

  found_lem :
      (row : StoredRow) (rows : List StoredRow)
      → row.is_withheld ≡ false
      → Returns (Exports s rows) (export_rows s rows)
      → (held : Outcome (Option HeldSession)) → row.held ≡ held
      → Returns (Exports s (row ∷ rows)) (do
        found ← from_outcome held
        entry ← entry_for s found
        rest ← export_rows s rows
        pure (with_entry entry rest))
  unfolding raise pure ◌>>=◌
  found_lem row rows shown r (raised x) e = record { on_ok = λ b. tt }
  found_lem row rows shown r (ok none) e =
      Returns-seq (export_rows s rows) _ r (λ rest h. Returns-pure _ (not_found shown e h))
  found_lem row rows shown r (ok (some h)) e = key_lem (s.export_session h h.first_known_index) refl
    where
      key_lem :
          (key : Outcome String)
          → s.export_session h h.first_known_index ≡ key
          → Returns (Exports s (row ∷ rows)) (do
            entry ← (do k ← from_outcome key; pure (some (entry_of h k)))
            rest ← export_rows s rows
            pure (with_entry entry rest))
      key_lem (raised x) f = record { on_ok = λ b. tt }
      key_lem (ok key) f =
          Returns-seq (export_rows s rows) _ r
            (λ rest g. Returns-pure _ (written h key shown e f g))

  export_rows-Exports : (rows : List StoredRow) → Returns (Exports s rows) (export_rows s rows)
  unfolding export_rows
  export_rows-Exports [] = Returns-pure _ finished
  export_rows-Exports (row ∷ rows) =
      Returns-if row.is_withheld _ _
        (λ hidden.
          Returns-weaken (export_rows s rows) (λ entries h. left_out hidden h)
            (export_rows-Exports rows))
        (λ shown. found_lem row rows shown (export_rows-Exports rows) row.held refl)

module _ (s : Server) (a : Disk) where
  abbrev IsSame : Boot → Type 0
  IsSame b = SameStore a b.disk

  whoami-IsSame : (token : Option String) → Preserves IsSame (whoami_with_token s token)
  unfolding whoami_with_token
  whoami-IsSame none = Preserves-pure _
  whoami-IsSame (some token) = Preserves-if _ _ _ (Preserves-pure _) (
      Preserves-bind _ _ (Preserves-gets _)
        λ reply. Preserves-bind _ _ (Preserves-modify _ (λ b h. h)) λ _. Preserves-pure _)

  login-IsSame :
      (password : String) (device : Option String)
      → Preserves IsSame (login_with_password s password device)
  unfolding login_with_password
  login-IsSame password device = Preserves-bind _ _ (Preserves-gets _) λ reply.
      Preserves-bind _ _ (Preserves-modify _ (λ b h. h))
        λ _. Preserves-bind _ _ (raise_lem reply) λ l. Preserves-pure _
    where
      raise_lem : (r : Outcome (Option Login)) → Preserves IsSame (or_raise r)
      raise_lem (ok l) = Preserves-pure _
      raise_lem (raised x) = Preserves-raise _

  device-IsSame : (device : Option String) → Preserves IsSame (write_device device)
  device-IsSame none = Preserves-raise _
  device-IsSame (some d) =
      Preserves-bind _ _
        (Preserves-modify _ (λ b h. record { crypto = h.crypto; escrow = h.escrow }))
        λ _. Preserves-pure _

  persist-IsSame : (cached : Option String) (l : Option Login) → Preserves IsSame (persist cached l)
  persist-IsSame cached none = Preserves-pure _
  persist-IsSame cached (some l) =
      Preserves-bind _ _
        (Preserves-modify _ (λ b h. record { crypto = h.crypto; escrow = h.escrow }))
        λ _. Preserves-bind _ _ (device-IsSame l.device_id) λ d. Preserves-pure _

  retry-IsSame :
      (password : String) (cached : Option String) (l : Option Login)
      → Preserves IsSame (retry_login s password cached l)
  retry-IsSame password cached (some l) = Preserves-pure _
  retry-IsSame password none none = Preserves-pure _
  retry-IsSame password (some device) none = login-IsSame password none

  password-IsSame :
      (cached password : Option String) → Preserves IsSame (by_password s cached password)
  password-IsSame cached none = Preserves-pure _
  password-IsSame cached (some password) =
      Preserves-bind _ _ (login-IsSame password cached) λ first.
        Preserves-bind _ _ (retry-IsSame password cached first) λ l. persist-IsSame cached l

  cached-IsSame :
      (cached file : Option String) (i : Option Identity)
      → Preserves IsSame (after_cached s cached file i)
  cached-IsSame cached file (some i) = Preserves-pure _
  cached-IsSame cached file none =
      Preserves-bind _ _ (Preserves-gets _) λ password. password-IsSame cached password

  env-IsSame :
      (cached : Option String) (env_token : String) (i : Option Identity)
      → Preserves IsSame (after_env s cached env_token i)
  env-IsSame cached env_token (some i) = Preserves-pure _
  env-IsSame cached env_token none =
      Preserves-bind _ _ (Preserves-gets _)
        λ file. Preserves-bind _ _ (whoami-IsSame file) λ i. cached-IsSame cached file i

  resolve-IsSame : (env_token : String) → Preserves IsSame (resolve_credentials s env_token)
  unfolding resolve_credentials
  resolve-IsSame env_token = Preserves-bind _ _ (Preserves-gets _) λ cached.
      Preserves-bind _ _ (whoami-IsSame (some env_token)) λ i. env-IsSame cached env_token i

  abbrev Ready : Boot → Type 0
  Ready b = (read_text a.device_id ≡ none) ⊎ IsExported s a.crypto a.escrow b.disk.escrow

  export_lem :
      (c : Option (List StoredRow)) (mxid device : String)
      → c ≡ a.crypto
      → Triple IsSame
          (if has_store c then (do or_fail (s.open_store mxid device); write_escrow s c) else skip)
          (λ _ b. Ready b)
          (λ b. IsSafe s a b.disk)
  unfolding skip modify
  export_lem none mxid device e = record {
    run = λ b h. inr (subst (λ c. IsExported s c a.escrow b.disk.escrow) e h.escrow);
  }
  export_lem (some rows) mxid device e =
      Triple-bind _ _ (Triple-preserves _ (fail_lem s _) (λ b h. inl h.crypto)) λ _.
        Triple-bind _ _
          (Triple-returns (Exports s rows) _ (Preserves-export_rows s rows)
            (export_rows-Exports s rows) (λ b h. inl h.crypto))
          λ entries. record {
            run = λ b h.
                inr (subst (λ c. IsExported s c a.escrow (some entries)) e (entries, refl, h.1));
          }

  first_lem :
      (mxid : String) (cached : Option String)
      → read_text a.device_id ≡ cached
      → Triple IsSame (escrow_first s mxid cached) (λ _ b. Ready b) (λ b. IsSafe s a b.disk)
  unfolding export_escrow_for_wipe skip
  first_lem mxid none known = record { run = λ b h. inl known }
  first_lem mxid (some device) known =
      Triple-bind {Q = λ c b. IsSame b × (c ≡ a.crypto)} _ _ (Triple-gets _ (λ b h. (h, h.crypto)))
        λ c. Triple-use (λ e. export_lem c mxid device e)

  wipe_lem :
      (mxid : String) (cached : Option String)
      → read_text a.device_id ≡ cached
      → Triple IsSame
          (do escrow_first s mxid cached; wipe_crypto_store)
          (λ _ b. IsSafe s a b.disk)
          (λ b. IsSafe s a b.disk)
  unfolding wipe_crypto_store modify
  wipe_lem mxid cached known =
      Triple-bind _ _ (first_lem mxid cached known) λ _. record { run = λ b h. inr (refl, h) }

  condition_lem :
      (cached : Option String) (existed : Bool) (r : Option Resolved)
      → read_text a.device_id ≡ cached
      → Triple IsSame
          (wipe_if s cached existed r)
          (λ _ b. IsSafe s a b.disk)
          (λ b. IsSafe s a b.disk)
  unfolding raise skip
  condition_lem cached existed none known = Triple-both _ (λ b h. inl h.crypto)
  condition_lem cached existed (some r) known =
      Triple-bind _ _
        (Triple-if (r.device_changed || (r.was_reminted && no_device cached && existed)) _ _
          (λ _. wipe_lem r.identity.mxid cached known) (λ _. Triple-both _ (λ b h. inl h.crypto)))
        λ _. Triple-pure r (λ b h. h)

-- However the start of the main bot ends, the crypto store is as it was, or it is wiped and the
-- escrow file holds every session of it that could be read; only where no device was cached is there
-- no escrow of it. Nothing is assumed of the homeserver or the crypto library.
pub start_main_bot-IsSafe :
    (s : Server) (env_token : String) (b : Boot)
    → IsSafe s b.disk (start_main_bot s env_token b).1.disk
unfolding start_main_bot ◌>>=◌
start_main_bot-IsSafe s env_token b =
    after {R = λ c. IsSafe s b.disk c.disk} _
      (Triple-bind _ _
        (Triple-preserves _ (resolve-IsSame s b.disk env_token) (λ c h. inl h.crypto))
        (λ r. condition_lem s b.disk (read_text b.disk.device_id) (has_store b.disk.crypto) r refl))
      b (record { crypto = refl; escrow = refl })
