-- ===== src/Responder/Bundle.antt =====
-- `import_room_key_bundle`, with `_download_mxc` and `_remember_inviters`.
use Prim.Native.Char.{Char, code}
use shape_rotator_matrix.Base.{
  ℕ, String, Bool, true, false, not, ◌&&◌, ◌||◌, Option, none, some, List, [], ◌∷◌, eqb, ◌==◌,
  if◌then◌else◌,
}
use shape_rotator_matrix.Text.{is_empty, is_prefix_of, strip_by, lstrip_by, drop_chars}
use shape_rotator_matrix.Dict.{lookup}
use shape_rotator_matrix.Exec.{
  Exn, Outcome, ok, raised, Exec, Stmt, pure, raise, skip, modify, gets, try_except, ◌>>=◌, ◌>>◌,
  from_outcome, from_error,
}
use shape_rotator_matrix.Responder.Data.{
  FileInfo, Item, Group, Decrypted, download_call, Bot, Client,
}

abbrev pub error : String → Exn
error text = record { http_status = 500; text = text }

-- `d[k]`
abbrev pub need : Option String → Outcome String
need none = raised (error "KeyError")
need (some v) = ok v

-- The text up to the first character that passes a test, and the rest from there.
unfoldable pub break_at : (Char → Bool) → String → String × String
break_at p String.[] = (String.[], String.[])
break_at p (String.◌∷◌ c s) =
    let (before, after) = break_at p s in
    if p c then (String.[], String.◌∷◌ c s) else (String.◌∷◌ c before, after)

abbrev ends_host : Char → Bool
ends_host c = let n = code c in eqb n b'/' || eqb n b'?' || eqb n b'#'

abbrev ends_path : Char → Bool
ends_path c = let n = code c in eqb n b'?' || eqb n b'#'

abbrev is_slash : Char → Bool
is_slash c = eqb (code c) b'/'

-- `urlsplit(content_uri)` of a text that begins with `mxc://`: its host and its path
unfoldable pub split_mxc : String → String × String
unfolding break_at drop_chars
split_mxc uri =
    let (host, rest) = break_at ends_host (drop_chars 6 uri) in (host, (break_at ends_path rest).0)

abbrev pub group_of : String → String → String → String → Group
group_of room sender_key session_id session = record {
  room_id = room;
  sender_key = sender_key;
  session_id = session_id;
  session = session;
}

-- `inviter and sender == inviter`
abbrev pub is_inviter : Option String → String → Bool
is_inviter none sender = false
is_inviter (some inviter) sender = not (is_empty inviter) && sender == inviter

-- `item.get(k) == value`
abbrev pub is_text : Option String → String → Bool
is_text none value = false
is_text (some v) value = v == value

abbrev pub keys_of : Option (List Item) → Exec Bot (List Item)
keys_of none = raise (error "room_keys is not a list")
keys_of (some items) = pure items

abbrev pub take_media : ℕ × String → Exec Bot String
take_media (status, body) =
    if eqb status 200 then pure body else raise (error "bundle media download returned HTTP")

module _ (cl : Client) where
  -- `_download_mxc`; the quoting of the two parts is left out
  unfoldable pub download_mxc : String → Exec Bot String
  unfolding split_mxc strip_by lstrip_by
  download_mxc uri =
      let (host, path) = split_mxc uri in
      if is_empty host || is_empty (strip_by is_slash path)
      then raise (error "bundle file url is not a valid mxc URI")
      else (do
        let media_id = lstrip_by is_slash path
        reply ← gets (λ b. cl.media b.calls host media_id)
        modify (λ b. record b { calls = download_call host media_id ∷ b.calls })
        r ← from_outcome reply
        take_media r)

  -- The body of the loop over the sessions.
  unfoldable pub import_item : String → Item → Stmt Bot
  import_item room item =
      if not (is_text item.algorithm "m.megolm.v1.aes-sha2") || not (is_text item.room_id room)
      then raise (error "bundle contains a room or algorithm mismatch")
      else (do
        session_key ← from_outcome (need item.session_key)
        signing_key ← from_outcome (need item.ed25519)
        sender_key ← from_outcome (need item.sender_key)
        session ← from_outcome (cl.import_session session_key signing_key sender_key room)
        session_id ← from_outcome (need item.session_id)
        let group = group_of room sender_key session_id session
        from_error (cl.put_error group)
        modify (λ b. record b { groups = group ∷ b.groups }))

  unfoldable pub import_items : String → List Item → Stmt Bot
  import_items room [] = skip
  import_items room (item ∷ items) = do import_item room item; import_items room items

  -- The first part of the `try`: the entries of the bundle.
  unfoldable pub fetch_items : String → FileInfo → Exec Bot (List Item)
  fetch_items url file = do
    ciphertext ← download_mxc url
    key ← from_outcome (need file.key)
    sha256 ← from_outcome (need file.sha256)
    iv ← from_outcome (need file.iv)
    plaintext ← from_outcome (cl.decrypt_attachment ciphertext key sha256 iv)
    bundle ← from_outcome (cl.parse_bundle plaintext)
    keys_of bundle

  -- The body of the `try`.
  unfoldable pub import_file : String → String → FileInfo → Exec Bot Bool
  import_file room url file = do items ← fetch_items url file; import_items room items; pure true

  abbrev pub try_url : String → FileInfo → Option String → Exec Bot Bool
  try_url room file none = pure false
  try_url room file (some url) =
      if is_prefix_of "mxc://" url
      then try_except (import_file room url file) (λ x. pure false)
      else pure false

  abbrev pub try_file : String → Option FileInfo → Exec Bot Bool
  try_file room none = pure false
  try_file room (some file) = try_url room file file.url

  unfoldable pub import_room_key_bundle : Decrypted → Exec Bot Bool
  import_room_key_bundle ev = do
    let room = ev.content.room_id
    inviter ← gets (λ b. lookup room b.inviters)
    if is_empty room || not (is_inviter inviter ev.sender)
        then pure false
        else try_file room ev.content.file
