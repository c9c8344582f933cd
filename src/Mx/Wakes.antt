-- ===== src/Mx/Wakes.antt =====
-- How often the wake message goes out.
use shape_rotator_matrix.Base.{
  String, ◌≡◌, ◌+◌, ◌≤◌, ◌==◌, Bool, true, false, List, [], ◌∷◌, All, arith, if◌then◌else◌,
}
use shape_rotator_matrix.Dict.{Dict}
use shape_rotator_matrix.Exec.{Stmt, ◌>>=◌}
use shape_rotator_matrix.Exec.Rules.{
  Preserves, Preserves-pure, Preserves-raise, Preserves-gets, Preserves-try, Preserves-skip,
  Preserves-modify, Preserves-bind,
}
use shape_rotator_matrix.Mx.Host.{messages_call, Line, Host, Client}
use shape_rotator_matrix.Mx.Config.{Config, configured, config_error, crashed}
use shape_rotator_matrix.Mx.Session.{open_cursor, wake_text, shutdown}
use shape_rotator_matrix.Mx.Commands.{
  Command, send, tail, make_client, finally_shutdown, print_line, print_rows, cmd_send, cmd_tail,
  run_command, with_config, main, run_all,
}
use shape_rotator_matrix.Mx.Marker.{
  wakes, generated, HasRoom, outcome_lem, error_lem, request-HasRoom, sync_once-HasRoom,
  send_other-HasRoom, ready-HasRoom,
}

module _ (cl : Client) where
  finally-HasRoom :
      (m : Stmt Host) → Preserves (HasRoom 0) m → Preserves (HasRoom 0) (finally_shutdown m)
  unfolding finally_shutdown shutdown ◌>>=◌
  finally-HasRoom m k = record { from = λ h le. k.from h le }

  print_rows-HasRoom : (ls : List Line) → Preserves (HasRoom 0) (print_rows ls)
  unfolding print_rows print_line
  print_rows-HasRoom [] = Preserves-skip
  print_rows-HasRoom (l ∷ ls) =
      Preserves-bind _ _ (Preserves-modify _ λ h le. le) λ _. print_rows-HasRoom ls

  make_client-HasRoom : (creds : Dict String) → Preserves (HasRoom 0) (make_client cl creds)
  unfolding make_client open_cursor
  make_client-HasRoom creds = Preserves-bind _ _ (error_lem 0 _) λ _. Preserves-modify _ λ h le. le

  -- The command does not send the text of the wake message itself.
  abbrev pub IsPlain : Command → Type 0
  IsPlain (send text) = (text == wake_text) ≡ false
  IsPlain (tail n) = Unit

  command-HasRoom :
      (cmd : Command) (creds : Dict String) (room : String)
      → IsPlain cmd
      → Preserves (HasRoom 0) (run_command cl cmd creds room)
  unfolding cmd_send cmd_tail print_line
  command-HasRoom (send text) creds room plain = Preserves-bind _ _ (make_client-HasRoom creds) λ _.
      finally-HasRoom _ (
        Preserves-bind _ _ (ready-HasRoom cl room) λ _.
          Preserves-bind _ _ (send_other-HasRoom 0 cl room text plain) λ event_id.
            Preserves-bind _ _ (sync_once-HasRoom 0 cl false) λ _. Preserves-modify _ λ h le. le)
  command-HasRoom (tail n) creds room plain = Preserves-bind _ _ (make_client-HasRoom creds) λ _.
      finally-HasRoom _ (
        Preserves-bind _ _ (ready-HasRoom cl room) λ _.
          Preserves-bind _ _ (Preserves-gets _) λ reply.
            Preserves-bind _ _ (request-HasRoom 0 (messages_call room _))
              λ _. Preserves-bind _ _ (outcome_lem 0 reply) λ chunk. print_rows-HasRoom _)

  main-HasRoom : (cmd : Command) → IsPlain cmd → Preserves (HasRoom 0) (main cl cmd)
  unfolding main
  main-HasRoom cmd plain = Preserves-bind _ _ (Preserves-gets _) config_lem
    where
      config_lem : (c : Config) → Preserves (HasRoom 0) (with_config cl cmd c)
      config_lem (configured creds room) =
          Preserves-try _ _
            (Preserves-bind _ _ (command-HasRoom cmd creds room plain) λ _. Preserves-pure _)
            λ x. Preserves-pure _
      config_lem (config_error why) = Preserves-pure _
      config_lem (crashed x) = Preserves-raise x

  run_all-HasRoom :
      (cmds : List Command) (h : Host)
      → All IsPlain cmds
      → HasRoom 0 h
      → HasRoom 0 (run_all cl cmds h)
  unfolding run_all
  run_all-HasRoom [] h plain le = le
  run_all-HasRoom (cmd ∷ cmds) h plain le =
      run_all-HasRoom cmds (main cl cmd h).1 plain.1 ((main-HasRoom cmd plain.0).from h le)

  -- However often the tool is called, and whatever fails: as long as no command sends the text of the
  -- wake message itself, the wake messages that get through are at most one more than the
  -- requests to generate cross-signing keys.
  pub run_all-wakes :
      (cmds : List Command) (h : Host)
      → All IsPlain cmds
      → h.calls ≡ []
      → h.delivered ≡ []
      → let h' = run_all cl cmds h in wakes h'.delivered ≤ 1 + generated h'.calls
  run_all-wakes cmds h plain no_calls none' =
      wakes_lem (run_all cl cmds h) (run_all-HasRoom cmds h plain (start_lem h.woke))
    where
      wakes_lem : (h' : Host) → HasRoom 0 h' → wakes h'.delivered ≤ 1 + generated h'.calls
      wakes_lem h' le = omega (arith, le)

      start_lem : (w : Bool) → wakes h.delivered + (if w then 0 else 1) + 0 ≤ 1 + generated h.calls
      start_lem true = rw (no_calls, none') (omega arith)
      start_lem false = rw (no_calls, none') (omega arith)
