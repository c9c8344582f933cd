-- ===== src/Mx/Commands.antt =====
-- `cmd_send`, `cmd_tail` and `main`.
use shape_rotator_matrix.Base.{
  ℕ, ◌-◌, ◌*◌, String, false, Option, none, some, List, [], ◌∷◌, ◌++◌, ltb, eqb, length, drop,
  reverse, if◌then◌else◌,
}
use shape_rotator_matrix.Dict.{Dict}
use shape_rotator_matrix.Exec.{
  Outcome, ok, raised, Exec, Stmt, pure, raise, skip, modify, gets, try_except, ◌>>=◌, ◌>>◌,
  from_outcome, from_error,
}
use shape_rotator_matrix.Mx.Host.{
  Kind, encrypted, message, other, Event, messages_call, Line, sent, row, Host, Client,
}
use shape_rotator_matrix.Mx.Config.{Config, configured, config_error, crashed, load_config}
use shape_rotator_matrix.Mx.Session.{
  open_cursor, request, sync_once, send_message, ensure_ready, shutdown,
}

pub data Command : Type 0 where
  send : String → Command
  tail : ℕ → Command

-- `make_client`, as far as its failure and the cursor go
unfoldable pub make_client : Client → Dict String → Stmt Host
make_client cl creds = do from_error (cl.open_error creds); open_cursor

-- `try: m  finally: await _shutdown(client)`
unfoldable pub finally_shutdown : Stmt Host → Stmt Host
finally_shutdown m h = let (r, h') = m h in (r, (shutdown h').1)

unfoldable pub print_line : Line → Stmt Host
print_line l = modify (λ h. record h { output = h.output ++ l ∷ [] })

unfoldable pub print_rows : List Line → Stmt Host
print_rows [] = skip
print_rows (l ∷ ls) = do print_line l; print_rows ls

-- The row of an event after it was decrypted; its time and sender are those of the event as it came.
abbrev plain_row : Event → Event → List Line → List Line
plain_row ev plain rows = by_kind plain.kind
  where
    by_kind : Kind → List Line
    by_kind encrypted = rows
    by_kind message = row ev.timestamp ev.sender plain.body ∷ rows
    by_kind other = rows

abbrev opened_row : Event → Outcome Event → List Line → List Line
opened_row ev (ok plain) rows = plain_row ev plain rows
opened_row ev (raised x) rows = row ev.timestamp ev.sender x.text ∷ rows

abbrev event_row : Client → Event → Kind → List Line → List Line
event_row cl ev encrypted rows = opened_row ev (cl.decrypt ev) rows
event_row cl ev message rows = plain_row ev ev rows
event_row cl ev other rows = plain_row ev ev rows

abbrev raw_row : Client → Option Event → List Line → List Line
raw_row cl none rows = rows
raw_row cl (some ev) rows = event_row cl ev ev.kind rows

-- The rows of `cmd_tail`, oldest first.
unfoldable pub rows_of : Client → List String → List Line
rows_of cl [] = []
rows_of cl (raw ∷ raws) = let rest = rows_of cl raws in raw_row cl (cl.deserialize raw) rest

-- `rows[-n:]`, which for 0 is the whole list
unfoldable pub last_rows : ℕ → List Line → List Line
last_rows n rows = if eqb n 0 then rows else drop (length rows - n) rows

module _ (cl : Client) where
  unfoldable pub cmd_send : String → Dict String → String → Stmt Host
  cmd_send text creds room = do
    make_client cl creds
    finally_shutdown (do
      ensure_ready cl room
      event_id ← send_message cl room text
      sync_once cl false
      print_line (sent event_id room))

  unfoldable pub cmd_tail : ℕ → Dict String → String → Stmt Host
  unfolding rows_of last_rows reverse
  cmd_tail n creds room = do
    make_client cl creds
    finally_shutdown (do
      ensure_ready cl room
      let limit = if ltb (n * 4) 20 then 20 else n * 4
      reply ← gets (λ h. cl.messages h.calls room limit)
      request (messages_call room limit)
      chunk ← from_outcome reply
      print_rows (last_rows n (rows_of cl (reverse chunk))))

  abbrev pub run_command : Command → Dict String → String → Stmt Host
  run_command (send text) = cmd_send text
  run_command (tail n) = cmd_tail n

  abbrev pub with_config : Command → Config → Exec Host ℕ
  with_config cmd (configured creds room) =
      try_except (do run_command cmd creds room; pure 0) (λ x. pure 1)
  with_config cmd (config_error why) = pure 1
  with_config cmd (crashed x) = raise x

  -- `main` of the parsed arguments, with its exit code
  unfoldable pub main : Command → Exec Host ℕ
  unfolding load_config
  main cmd = do config ← gets (λ h. load_config h.creds h.fixtures); with_config cmd config

-- Several calls of the tool, one after another, on the same files.
unfoldable pub run_all : Client → List Command → Host → Host
run_all cl [] h = h
run_all cl (cmd ∷ cmds) h = run_all cl cmds (main cl cmd h).1
