-- ===== src/Heal.antt =====
-- The self-heal of knock-approver/approver.py: the escrow of inbound sessions, and the part of `main`
-- that wipes the crypto store.
pub mod Escrow
pub mod Restore
pub mod Tokens
use shape_rotator_matrix.Base.{
  ℕ, String, Bool, true, false, not, ◌&&◌, ◌||◌, Option, none, some, List, [], ◌∷◌, ◌++◌, ◌==◌,
  if◌then◌else◌,
}
use shape_rotator_matrix.Text.{strip, is_empty}
use shape_rotator_matrix.Exec.{
  Exn, Outcome, ok, raised, Exec, Stmt, pure, raise, gets, modify, skip, ◌>>=◌, ◌>>◌, when,
  from_outcome,
}
use shape_rotator_matrix.Credentials.{
  Boot, Call, Disk, Entry, HeldSession, Identity, Login, Resolved, Server, StoredRow, after_cached,
  after_env, by_password, device_changed, live, login, login_with_password, or_raise, or_text,
  persist, read_text, resolve_credentials, retry_login, whoami, whoami_with_token, with_token,
  write_device,
}

abbrev pub or_fail : Option Exn → Stmt Boot
or_fail none = skip
or_fail (some x) = raise x

-- The entry of a session, whose key is exported from its first index on.
abbrev pub entry_of : HeldSession → String → Entry
entry_of h session_key = record {
  room_id = h.room_id;
  sender_key = h.sender_key;
  signing_key = h.signing_key;
  session_id = h.id;
  first_known_index = h.first_known_index;
  session_key = session_key;
}

abbrev entry_for : Server → Option HeldSession → Exec Boot (Option Entry)
entry_for s none = pure none
entry_for s (some h) = do
  key ← from_outcome (s.export_session h h.first_known_index)
  pure (some (entry_of h key))

abbrev pub with_entry : Option Entry → List Entry → List Entry
with_entry none rest = rest
with_entry (some entry) rest = entry ∷ rest

-- The loop of `export_inbound_sessions`: a row without a session is skipped.
unfoldable pub export_rows : Server → List StoredRow → Exec Boot (List Entry)
export_rows s [] = pure []
export_rows s (row ∷ rows) = if row.is_withheld then export_rows s rows else do
  held ← from_outcome row.held
  entry ← entry_for s held
  rest ← export_rows s rows
  pure (with_entry entry rest)

abbrev write_escrow : Server → Option (List StoredRow) → Stmt Boot
write_escrow s none = skip
write_escrow s (some rows) = do
  entries ← export_rows s rows
  modify (λ b. record b { disk = record b.disk { escrow = some entries } })

abbrev has_store : Option (List StoredRow) → Bool
has_store none = false
has_store (some rows) = true

-- `_export_escrow_for_wipe`, with `export_inbound_sessions`
unfoldable pub export_escrow_for_wipe : Server → String → String → Stmt Boot
export_escrow_for_wipe s mxid old_device = do
  crypto ← gets (λ b. b.disk.crypto)
  if has_store crypto
      then (do or_fail (s.open_store mxid old_device); write_escrow s crypto)
      else skip

-- `_wipe_crypto_store`
unfoldable pub wipe_crypto_store : Stmt Boot
wipe_crypto_store =
    modify (λ b. record b { disk = record b.disk { crypto = none; sync_since = none } })

abbrev escrow_first : Server → String → Option String → Stmt Boot
escrow_first s mxid none = skip
escrow_first s mxid (some old_device) = export_escrow_for_wipe s mxid old_device

abbrev no_device : Option String → Bool
no_device none = true
no_device (some d) = false

-- The wipe of `main`, with its condition.
abbrev wipe_if : Server → Option String → Bool → Option Resolved → Exec Boot Resolved
wipe_if s cached existed none = raise (record { http_status = 500; text = "fatal" })
wipe_if s cached existed (some r) = do
  when (r.device_changed || (r.was_reminted && no_device cached && existed))
      (do escrow_first s r.identity.mxid cached; wipe_crypto_store)
  pure r

-- `main`, up to the second bot: the credentials of the first.
unfoldable pub start_main_bot : Server → String → Exec Boot Resolved
start_main_bot s env_token = do
  cached ← gets (λ b. read_text b.disk.device_id)
  existed ← gets (λ b. has_store b.disk.crypto)
  resolved ← resolve_credentials s env_token
  wipe_if s cached existed resolved

abbrev put_row : StoredRow → Option (List StoredRow) → Option (List StoredRow)
put_row row none = some (row ∷ [])
put_row row (some rows) = some (rows ++ row ∷ [])

-- `put_group_session`, into a store that has no session with that id
unfoldable pub put_group_session : Server → Entry → HeldSession → Stmt Boot
put_group_session s entry h = do
  or_fail (s.put_error entry.room_id entry.sender_key entry.session_id h)
  let row : StoredRow = record {
    is_withheld = false;
    held = ok (
        some (record h {
          room_id = entry.room_id;
          sender_key = entry.sender_key;
          id = entry.session_id;
        }));
  }
  modify (λ b. record b { disk = record b.disk { crypto = put_row row b.disk.crypto } })

-- The loop of `import_inbound_sessions`: a session that fails to import raises.
unfoldable pub import_sessions : Server → List Entry → Stmt Boot
import_sessions s [] = skip
import_sessions s (entry ∷ rest) = do
  session ←
      from_outcome
        (s.import_session entry.session_key entry.signing_key entry.sender_key entry.room_id)
  put_group_session s entry session
  import_sessions s rest

abbrev pub import_file : Server → Option (List Entry) → Stmt Boot
import_file s none = skip
import_file s (some entries) = import_sessions s entries

-- `import_inbound_sessions`, into the freshly opened store
unfoldable pub import_inbound_sessions : Server → Stmt Boot
import_inbound_sessions s = do escrow ← gets (λ b. b.disk.escrow); import_file s escrow
