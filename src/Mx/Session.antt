-- ===== src/Mx/Session.antt =====
-- The client's side: `_FileSyncStore`, `sync_once`, `bootstrap`, `ensure_ready` and `_shutdown`.
use shape_rotator_matrix.Base.{
  String, Bool, true, false, not, ◌||◌, Option, none, some, ◌∷◌, if◌then◌else◌,
}
use shape_rotator_matrix.Text.{is_empty, strip}
use shape_rotator_matrix.Exec.{
  Exec, Stmt, pure, skip, modify, gets, ◌>>=◌, ◌>>◌, from_outcome, from_error, when,
}
use shape_rotator_matrix.Mx.Host.{
  SyncData, Call, share_keys, own_keys, generate_recovery_key, sync_call, send_call, close_session,
  stop_db, Host, Client,
}

-- `_FileSyncStore(path)`
abbrev stripped : Option String → Option String
stripped none = none
stripped (some text) = some (strip text)

unfoldable pub open_cursor : Stmt Host
unfolding strip
open_cursor = modify (λ h. record h { cursor = stripped h.next_batch })

-- `get_next_batch`
abbrev pub nonempty : Option String → Option String
nonempty none = none
nonempty (some text) = if is_empty text then none else some text

-- `put_next_batch`
unfoldable pub put_next_batch : String → Stmt Host
put_next_batch nb = modify (λ h. record h { cursor = some nb; next_batch = some nb })

unfoldable pub request : Call → Stmt Host
request c = modify (λ h. record h { calls = c ∷ h.calls })

-- A message got through.
abbrev pub deliver : String → String → Stmt Host
deliver room text = modify (λ h. record h { delivered = (room, text) ∷ h.delivered })

abbrev pub take_sync : Option SyncData → Stmt Host
take_sync none = skip
take_sync (some d) = do
  when (not (is_empty d.next_batch)) (put_next_batch d.next_batch)
  modify (λ h. record h { joined = d.join })

abbrev pub wake_text : String
wake_text = "shape-bridge E2EE bootstrapped — megolm rotation trigger"

module _ (cl : Client) where
  -- `sync_once`; the tasks of `handle_sync` are gathered with their exceptions
  unfoldable pub sync_once : Bool → Stmt Host
  sync_once full_state = do
    since ← gets (λ h. if full_state then none else nonempty h.cursor)
    reply ← gets (λ h. cl.sync h.calls since)
    request (sync_call since full_state)
    data' ← from_outcome reply
    take_sync data'

  -- `bootstrap`
  unfoldable pub bootstrap : Exec Host Bool
  bootstrap = do
    error ← gets (λ h. cl.share_error h.calls)
    request share_keys
    from_error error
    reply ← gets (λ h. cl.has_keys h.calls)
    request own_keys
    known ← from_outcome reply
    if known then pure false else (do
      reply ← gets (λ h. cl.generate h.calls)
      request generate_recovery_key
      key ← from_outcome reply
      modify (λ h. record h { recovery_key = some key })
      pure true)

  -- `client.send_message_event`
  unfoldable pub send_message : String → String → Exec Host String
  send_message room text = do
    reply ← gets (λ h. cl.send h.calls room text)
    request (send_call room text)
    event_id ← from_outcome reply
    deliver room text
    pure event_id

  -- The body of the `if` of `ensure_ready`.
  unfoldable pub wake : String → Stmt Host
  wake room = do
    send_message room wake_text
    modify (λ h. record h { woke = true })
    sync_once false

  unfoldable pub ensure_ready : String → Stmt Host
  ensure_ready room = do
    just_bootstrapped ← bootstrap
    sync_once true
    woke ← gets (λ h. h.woke)
    when (just_bootstrapped || not woke) (wake room)

-- `_shutdown`; what closing raises is dropped
unfoldable pub shutdown : Stmt Host
unfolding request
shutdown = do request close_session; request stop_db
