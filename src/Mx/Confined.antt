-- ===== src/Mx/Confined.antt =====
-- Which room the requests of the tool name.
use shape_rotator_matrix.Base.{
  String, ◌≡◌, refl, Bool, true, false, not, ◌||◌, Option, none, some, List, [], ◌∷◌, All,
}
use shape_rotator_matrix.Text.{is_empty}
use shape_rotator_matrix.Dict.{Dict}
use shape_rotator_matrix.Exec.{Exn, Outcome, ok, raised, Stmt, ◌>>=◌, from_outcome, from_error}
use shape_rotator_matrix.Exec.Rules.{
  Preserves, Preserves-pure, Preserves-raise, Preserves-gets, Preserves-if, Preserves-skip,
  Preserves-modify, Preserves-bind,
}
use shape_rotator_matrix.Mx.Host.{
  SyncData, Call, share_keys, own_keys, generate_recovery_key, sync_call, send_call, messages_call,
  close_session, stop_db, Line, Host, Client,
}
use shape_rotator_matrix.Mx.Session.{
  open_cursor, put_next_batch, request, take_sync, wake_text, sync_once, bootstrap, send_message,
  wake, ensure_ready, shutdown,
}
use shape_rotator_matrix.Mx.Commands.{
  Command, send, tail, make_client, finally_shutdown, print_line, print_rows, cmd_send, cmd_tail,
  run_command,
}

-- A request that names a room names this one.
abbrev pub IsTo : String → Call → Type 0
IsTo room share_keys = Unit
IsTo room own_keys = Unit
IsTo room generate_recovery_key = Unit
IsTo room (sync_call since full) = Unit
IsTo room (send_call r text) = r ≡ room
IsTo room (messages_call r n) = r ≡ room
IsTo room close_session = Unit
IsTo room stop_db = Unit

abbrev pub IsConfined : String → Host → Type 0
IsConfined room h = All (IsTo room) h.calls × All (λ (r, text). r ≡ room) h.delivered

module _ (room : String) where
  outcome_lem : {A : Type 0} (r : Outcome A) → Preserves (IsConfined room) (from_outcome r)
  outcome_lem (ok a) = Preserves-pure a
  outcome_lem (raised x) = Preserves-raise x

  error_lem : (o : Option Exn) → Preserves (IsConfined room) (from_error {S = Host} o)
  error_lem none = Preserves-skip
  error_lem (some x) = Preserves-raise x

  request-IsConfined : (c : Call) → IsTo room c → Preserves (IsConfined room) (request c)
  unfolding request
  request-IsConfined c to = Preserves-modify _ λ h k. ((to, k.0), k.1)

  take_sync-IsConfined : (d : Option SyncData) → Preserves (IsConfined room) (take_sync d)
  unfolding put_next_batch
  take_sync-IsConfined none = Preserves-skip
  take_sync-IsConfined (some d) =
      Preserves-bind _ _
        (Preserves-if (not (is_empty d.next_batch)) _ _ (Preserves-modify _ λ h k. k)
          Preserves-skip)
        λ _. Preserves-modify _ λ h k. k

  print_rows-IsConfined : (ls : List Line) → Preserves (IsConfined room) (print_rows ls)
  unfolding print_rows print_line
  print_rows-IsConfined [] = Preserves-skip
  print_rows-IsConfined (l ∷ ls) =
      Preserves-bind _ _ (Preserves-modify _ λ h k. k) λ _. print_rows-IsConfined ls

  finally-IsConfined :
      (m : Stmt Host)
      → Preserves (IsConfined room) m
      → Preserves (IsConfined room) (finally_shutdown m)
  unfolding finally_shutdown shutdown ◌>>=◌
  finally-IsConfined m k = record {
    from = λ h c. let (calls, delivered) = k.from h c in ((tt, (tt, calls)), delivered);
  }

  module _ (cl : Client) where
    sync_once-IsConfined : (full : Bool) → Preserves (IsConfined room) (sync_once cl full)
    unfolding sync_once
    sync_once-IsConfined full = Preserves-bind _ _ (Preserves-gets _) λ since.
        Preserves-bind _ _ (Preserves-gets _) λ reply.
          Preserves-bind _ _ (request-IsConfined (sync_call since full) tt)
            λ _. Preserves-bind _ _ (outcome_lem reply) take_sync-IsConfined

    bootstrap-IsConfined : Preserves (IsConfined room) (bootstrap cl)
    unfolding bootstrap
    bootstrap-IsConfined = Preserves-bind _ _ (Preserves-gets _) λ error.
        Preserves-bind _ _ (request-IsConfined share_keys tt) λ _.
          Preserves-bind _ _ (error_lem error) λ _. Preserves-bind _ _ (Preserves-gets _) λ reply.
            Preserves-bind _ _ (request-IsConfined own_keys tt) λ _.
              Preserves-bind _ _ (outcome_lem reply) λ known.
                Preserves-if known _ _ (Preserves-pure _) (
                  Preserves-bind _ _ (Preserves-gets _) λ reply.
                    Preserves-bind _ _ (request-IsConfined generate_recovery_key tt) λ _.
                      Preserves-bind _ _ (outcome_lem reply) λ key.
                        Preserves-bind _ _ (Preserves-modify _ λ h k. k) λ _. Preserves-pure _)

    send_message-IsConfined :
        (text : String) → Preserves (IsConfined room) (send_message cl room text)
    unfolding send_message
    send_message-IsConfined text = Preserves-bind _ _ (Preserves-gets _) λ reply.
        Preserves-bind _ _ (request-IsConfined (send_call room text) refl) λ _.
          Preserves-bind _ _ (outcome_lem reply) λ event_id.
            Preserves-bind _ _ (Preserves-modify _ λ h k. (k.0, (refl, k.1))) λ _. Preserves-pure _

    ensure_ready-IsConfined : Preserves (IsConfined room) (ensure_ready cl room)
    unfolding ensure_ready wake
    ensure_ready-IsConfined = Preserves-bind _ _ bootstrap-IsConfined λ just.
        Preserves-bind _ _ (sync_once-IsConfined true) λ _.
          Preserves-bind _ _ (Preserves-gets _) λ woke.
            Preserves-if (just || not woke) _ _
              (Preserves-bind _ _ (send_message-IsConfined wake_text) λ _.
                Preserves-bind _ _ (Preserves-modify _ λ h k. k) λ _. sync_once-IsConfined false)
              Preserves-skip

    make_client-IsConfined :
        (creds : Dict String) → Preserves (IsConfined room) (make_client cl creds)
    unfolding make_client open_cursor
    make_client-IsConfined creds = Preserves-bind _ _ (error_lem _) λ _. Preserves-modify _ λ h k. k

    pub run_command-IsConfined :
        (cmd : Command) (creds : Dict String)
        → Preserves (IsConfined room) (run_command cl cmd creds room)
    unfolding cmd_send cmd_tail print_line
    run_command-IsConfined (send text) creds =
        Preserves-bind _ _ (make_client-IsConfined creds) λ _. finally-IsConfined _ (
          Preserves-bind _ _ ensure_ready-IsConfined λ _.
            Preserves-bind _ _ (send_message-IsConfined text) λ event_id.
              Preserves-bind _ _ (sync_once-IsConfined false) λ _. Preserves-modify _ λ h k. k)
    run_command-IsConfined (tail n) creds = Preserves-bind _ _ (make_client-IsConfined creds) λ _.
        finally-IsConfined _ (
          Preserves-bind _ _ ensure_ready-IsConfined λ _.
            Preserves-bind _ _ (Preserves-gets _) λ reply.
              Preserves-bind _ _ (request-IsConfined (messages_call room _) refl)
                λ _. Preserves-bind _ _ (outcome_lem reply) λ chunk. print_rows-IsConfined _)
