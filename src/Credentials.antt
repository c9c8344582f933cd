-- ===== src/Credentials.antt =====
-- The files of a bot and its servers, and `_resolve_credentials` of knock-approver/approver.py, with
-- what it calls.
use shape_rotator_matrix.Base.{
  ℕ, String, Bool, true, false, not, ◌&&◌, Option, none, some, List, ◌∷◌, ◌==◌, if◌then◌else◌,
}
use shape_rotator_matrix.Text.{strip, is_empty}
use shape_rotator_matrix.Exec.{
  Exn, Outcome, ok, raised, Exec, pure, raise, gets, modify, ◌>>=◌, ◌>>◌,
}

-- What /whoami says of an identity; a missing field is the empty text.
pub record Identity : Type 0 where
  pub device_id : String
  pub mxid : String

-- What /login says. A missing token is the empty text.
pub record Login : Type 0 where
  pub token : String
  pub device_id : Option String
  pub mxid : String

-- An inbound session, with what only the crypto library looks into.
pub record HeldSession : Type 0 where
  pub room_id : String
  pub sender_key : String
  pub signing_key : String
  pub id : String
  pub first_known_index : ℕ
  pub ratchet : String

-- A row of the session table, with what `get_group_session` makes of it.
pub record StoredRow : Type 0 where
  pub is_withheld : Bool
  pub held : Outcome (Option HeldSession)

-- An entry of the escrow file.
pub record Entry : Type 0 where
  pub room_id : String
  pub sender_key : String
  pub signing_key : String
  pub session_id : String
  pub first_known_index : ℕ
  pub session_key : String

-- The files of one bot; a missing file is `none`.
pub record Disk : Type 0 where
  pub token : Option String
  pub device_id : Option String
  pub password : Option String
  pub crypto : Option (List StoredRow)
  pub sync_since : Option String
  pub escrow : Option (List Entry)

pub data Call : Type 0 where
  whoami : String → Call
  login : String → Option String → Call

pub record Boot : Type 0 where
  pub disk : Disk
  pub calls : List Call  -- newest first

-- The homeserver and the crypto library. `none` of `whoami` is any failure; `none` of `login` is a
-- status other than 200.
pub record Server : Type 0 where
  pub whoami_reply : List Call → String → Option Identity
  pub login_reply : List Call → String → Option String → Outcome (Option Login)
  pub open_store : String → String → Option Exn  -- by mxid and device: what `cs.open()` raises
  pub export_session : HeldSession → ℕ → Outcome String
  -- by session key, signing key, sender key and room
  pub import_session : String → String → String → String → Outcome HeldSession
  -- by room, sender key and session id
  pub put_error : String → String → String → HeldSession → Option Exn

-- `_read_text`: the stripped text, where it is not empty
unfoldable pub read_text : Option String → Option String
unfolding strip
read_text none = none
read_text (some text) = if is_empty (strip text) then none else some (strip text)

-- `_device_changed`
unfoldable pub device_changed : Option String → String → Bool
device_changed none current = false
device_changed (some old) current =
    not (is_empty old) && not (is_empty current) && not (old == current)

-- `_whoami_with_token`
unfoldable pub whoami_with_token : Server → Option String → Exec Boot (Option Identity)
whoami_with_token s none = pure none
whoami_with_token s (some token) = if is_empty token then pure none else do
  reply ← gets (λ b. s.whoami_reply b.calls token)
  modify (λ b. record b { calls = whoami token ∷ b.calls })
  pure reply

abbrev pub or_raise : Outcome (Option Login) → Exec Boot (Option Login)
or_raise (ok l) = pure l
or_raise (raised x) = raise x

-- `_login_with_password`; a login without a token counts as failed
abbrev pub with_token : Option Login → Option Login
with_token none = none
with_token (some l) = if is_empty l.token then none else some l

unfoldable pub login_with_password : Server → String → Option String → Exec Boot (Option Login)
login_with_password s password device = do
  reply ← gets (λ b. s.login_reply b.calls password device)
  modify (λ b. record b { calls = login password device ∷ b.calls })
  l ← or_raise reply
  pure (with_token l)

-- The result: the token with its identity, and the two flags.
pub record Resolved : Type 0 where
  pub token : String
  pub identity : Identity
  pub was_reminted : Bool
  pub device_changed : Bool

-- `device_id_path.write_text(new_device)`: None is no text to write.
abbrev pub write_device : Option String → Exec Boot String
write_device none = raise (record { http_status = 500; text = "data must be str, not NoneType" })
write_device (some device) = do
  modify (λ b. record b { disk = record b.disk { device_id = some device } })
  pure device

-- The end of paths 3 and 4: the new token and device are written down.
abbrev pub persist : Option String → Option Login → Exec Boot (Option Resolved)
persist cached none = pure none
persist cached (some l) = do
  modify (λ b. record b { disk = record b.disk { token = some l.token } })
  device ← write_device l.device_id
  pure (
      some (record {
        token = l.token;
        identity = record { device_id = device; mxid = l.mxid };
        was_reminted = true;
        device_changed = device_changed cached device;
      }))

-- The second login, without a device, where the first failed and a device was cached.
abbrev pub retry_login : Server → String → Option String → Option Login → Exec Boot (Option Login)
retry_login s password cached (some l) = pure (some l)
retry_login s password none none = pure none
retry_login s password (some device) none = login_with_password s password none

abbrev pub by_password : Server → Option String → Option String → Exec Boot (Option Resolved)
by_password s cached none = pure none
by_password s cached (some password) = do
  first ← login_with_password s password cached
  l ← retry_login s password cached first
  persist cached l

-- A live token, from the environment or from the file.
abbrev pub live : Option String → String → Identity → Option Resolved
live cached token i = some (record {
  token = token;
  identity = i;
  was_reminted = false;
  device_changed = device_changed cached i.device_id;
})

abbrev pub or_text : Option String → String
or_text none = ""
or_text (some t) = t

abbrev pub after_cached :
    Server → Option String → Option String → Option Identity → Exec Boot (Option Resolved)
after_cached s cached file (some i) = pure (live cached (or_text file) i)
after_cached s cached file none = do
  password ← gets (λ b. read_text b.disk.password)
  by_password s cached password

abbrev pub after_env :
    Server → Option String → String → Option Identity → Exec Boot (Option Resolved)
after_env s cached env_token (some i) = pure (live cached env_token i)
after_env s cached env_token none = do
  file ← gets (λ b. read_text b.disk.token)
  i ← whoami_with_token s file
  after_cached s cached file i

-- `_resolve_credentials`; `none` is the result without a token.
unfoldable pub resolve_credentials : Server → String → Exec Boot (Option Resolved)
resolve_credentials s env_token = do
  cached ← gets (λ b. read_text b.disk.device_id)
  i ← whoami_with_token s (some env_token)
  after_env s cached env_token i
