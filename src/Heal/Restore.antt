-- ===== src/Heal/Restore.antt =====
-- An export, the wipe, and an import into a fresh store.
use shape_rotator_matrix.Base.{
  String, ◌≡◌, refl, sym, ap, ◌∙◌, true, false, Bool, Option, none, some, List, [], ◌∷◌, ◌++◌, map,
  All, if◌then◌else◌,
}
use shape_rotator_matrix.Exec.{Outcome, ok, raised, pure, modify, skip, ◌>>=◌, ◌>>◌, from_outcome}
use shape_rotator_matrix.Credentials.{HeldSession, StoredRow, Entry, Boot, Server}
use shape_rotator_matrix.Heal.{
  entry_of, with_entry, entry_for, export_rows, export_escrow_for_wipe, wipe_crypto_store,
  put_group_session, import_sessions, import_inbound_sessions,
}

-- What the crypto library promises of a session: its exported key, imported with its signing key, its
-- sender key and its room, gives that session, and the store takes it.
pub record Restores (s : Server) (h : HeldSession) : Type 0 where
  pub key : String
  pub exports : s.export_session h h.first_known_index ≡ ok key
  pub imports : s.import_session key h.signing_key h.sender_key h.room_id ≡ ok h
  pub puts : s.put_error h.room_id h.sender_key h.id h ≡ none

abbrev Reads : Server → Outcome (Option HeldSession) → Type 0
Reads s (raised x) = ⊥
Reads s (ok none) = Unit
Reads s (ok (some h)) = Restores s h

-- A row can be read, unless it is withheld.
abbrev pub IsReadable : Server → StoredRow → Type 0
IsReadable s row = if row.is_withheld then Unit else Reads s row.held

-- The sessions that the rows hold and that are not withheld.
abbrev with_held : Outcome (Option HeldSession) → List HeldSession → List HeldSession
with_held (raised x) hs = hs
with_held (ok none) hs = hs
with_held (ok (some h)) hs = h ∷ hs

abbrev pub sessions_of : List StoredRow → List HeldSession
sessions_of [] = []
sessions_of (row ∷ rows) =
    let hs = sessions_of rows in if row.is_withheld then hs else with_held row.held hs

abbrev pub row_of : HeldSession → StoredRow
row_of h = record { is_withheld = false; held = ok (some h) }

module _ (s : Server) where
  -- The entries of the sessions, with the keys that they are exported with.
  Written : List HeldSession → List Entry → Type 0
  Written [] es = es ≡ []
  Written (h ∷ hs) es =
      (r : Restores s h) × (rest : List Entry) × (es ≡ entry_of h r.key ∷ rest) × Written hs rest

  export_lem :
      (rows : List StoredRow) (b : Boot)
      → All (IsReadable s) rows
      → (es : List Entry) × (export_rows s rows b ≡ (ok es, b)) × Written (sessions_of rows) es
  unfolding export_rows Written pure ◌>>=◌
  export_lem [] b h = ([], refl, refl)
  export_lem (row ∷ rows) b h =
      let rest = export_lem rows b h.1 in row_lem row.is_withheld row.held h.0 rest
    where
      row_lem :
          (hidden : Bool) (held : Outcome (Option HeldSession))
          → (if hidden then Unit else Reads s held)
          → (es : List Entry) × (export_rows s rows b ≡ (ok es, b)) × Written (sessions_of rows) es
          → (es : List Entry) × ((if hidden then export_rows s rows else do
            found ← from_outcome held
            entry ← entry_for s found
            rest ← export_rows s rows
            pure (with_entry entry rest))
                b
              ≡ (ok es, b))
            × Written (if hidden then sessions_of rows else with_held held (sessions_of rows)) es
      row_lem true held r rest = rest
      row_lem false (raised x) r rest = elim r [ ]
      row_lem false (ok none) r (es, run, w) = (es, rw run refl, w)
      row_lem false (ok (some h)) r (es, run, w) =
          (entry_of h r.key ∷ es, rw (r.exports, run) refl, (r, es, refl, w))

  append_lem :
      (rows : List StoredRow) (h : HeldSession) (hs : List HeldSession)
      → (rows ++ row_of h ∷ []) ++ map row_of hs ≡ rows ++ map row_of (h ∷ hs)
  append_lem [] h hs = refl
  append_lem (r ∷ rows) h hs = ap (λ l. r ∷ l) (append_lem rows h hs)

  append_none : (rows : List StoredRow) → rows ++ [] ≡ rows
  append_none [] = refl
  append_none (r ∷ rows) = ap (λ l. r ∷ l) (append_none rows)

  import_lem :
      (hs : List HeldSession) (es : List Entry) (rows : List StoredRow) (b : Boot)
      → Written hs es
      → b.disk.crypto ≡ some rows
      → (import_sessions s es b).0 ≡ ok tt
        × ((import_sessions s es b).1.disk.crypto ≡ some (rows ++ map row_of hs))
  unfolding import_sessions put_group_session Written skip modify ◌>>=◌
  import_lem [] es rows b w e = rw w (refl, e ∙ ap some (sym (append_none rows)))
  import_lem (h ∷ hs) es rows b (r, rest, is, w) e =
      rw (is, r.imports, r.puts, e)
        (let rec = import_lem hs rest (rows ++ row_of h ∷ []) _ w refl in
          (rec.0, rec.1 ∙ ap some (append_lem rows h hs)))

-- Where the old store opens and the crypto library gives back each session that is exported, an
-- export, the wipe and an import into a fresh store bring back exactly the sessions of the old store
-- that are found and not withheld, each with its room, its keys and its id, in their order.
pub escrow_roundtrip :
    (s : Server) (mxid device : String) (rows : List StoredRow) (b : Boot)
    → s.open_store mxid device ≡ none
    → All (IsReadable s) rows
    → b.disk.crypto ≡ some rows
    → let wiped = (do export_escrow_for_wipe s mxid device; wipe_crypto_store) b in
      let fresh : Boot = record wiped.1 { disk = record wiped.1.disk { crypto = some [] } } in
      (wiped.0 ≡ ok tt)
      × (wiped.1.disk.crypto ≡ none)
      × ((import_inbound_sessions s fresh).0 ≡ ok tt)
      × ((import_inbound_sessions s fresh).1.disk.crypto ≡ some (map row_of (sessions_of rows)))
unfolding export_escrow_for_wipe wipe_crypto_store import_inbound_sessions skip ◌>>=◌
escrow_roundtrip s mxid device rows b opens all e =
    let c : Boot = record b { disk = record b.disk { crypto = some rows } } in
    let (es, run, w) = export_lem s rows c all in
    rw (e, opens, run)
      (let done = import_lem s (sessions_of rows) es [] _ w refl in (refl, refl, done.0, done.1))
