-- ===== src/Sas/Manager.antt =====
-- `class SASVerificationManager`: the table of sessions, and the handlers of the five events.
use shape_rotator_matrix.Base.{
  ℕ, suc, String, false, Option, none, some, List, [], ◌∷◌, if◌then◌else◌,
}
use shape_rotator_matrix.Text.{is_empty}
use shape_rotator_matrix.Dict.{lookup, delete}
use shape_rotator_matrix.Exec.{Exec, Stmt, pure, skip, modify, gets, ◌>>=◌, ◌>>◌, on_option}
use shape_rotator_matrix.Sas.Session.{
  Content, text_at, Session, Manager, Client, keep_session, handle_request, handle_start,
}
use shape_rotator_matrix.Sas.Mac.{handle_key, handle_mac}

pub data EventType : Type 0 where
  request start key mac cancelled : EventType

pub record Event : Type 0 where
  pub type : EventType
  pub sender : String
  pub content : Content

module _ {D : Type 0} where
  -- `if txn_id and txn_id in self._sessions: f(self._sessions[txn_id])`
  unfoldable pub with_session : Content → (Session → Stmt (Manager D)) → Stmt (Manager D)
  with_session c f =
      let txn_id = text_at "transaction_id" c in
      if is_empty txn_id
      then skip
      else (do found ← gets (λ w. lookup txn_id w.sessions); on_option found skip f)

  -- `self._sessions.pop(txn_id, None)`
  unfoldable pub pop_session : String → Stmt (Manager D)
  pop_session txn_id = modify (λ w. record w { sessions = delete txn_id w.sessions })

  unfoldable pub on_cancel : Event → Stmt (Manager D)
  on_cancel ev =
      let txn_id = text_at "transaction_id" ev.content in
      if is_empty txn_id then skip else pop_session txn_id

module _ {D : Type 0} (e : Client D) where
  -- `_SASSession(...)`, with an `olm.Sas` object of its own
  unfoldable pub new_session : String → Content → String → ℕ → Session
  new_session txn_id c sender n = record {
    txn_id = txn_id;
    their_user = sender;
    their_device = text_at "from_device" c;
    our_user = e.our_user;
    our_device = e.our_device;
    sas = n;
    their_key = none;
    start_event = none;
    cancelled = false;
  }

  abbrev pub found_or_new :
      String → Content → String → Option Session → Exec (Manager D) (Option Session)
  found_or_new txn_id c sender (some s) = pure (some s)
  found_or_new txn_id c sender none = do
    n ← gets (λ w. w.made)
    let s = new_session txn_id c sender n
    modify (λ w. record w { made = suc w.made })
    keep_session s
    pure (some s)

  -- `_get_or_create`
  unfoldable pub get_or_create : Content → String → Exec (Manager D) (Option Session)
  get_or_create c sender =
      let txn_id = text_at "transaction_id" c in
      if is_empty txn_id
      then pure none
      else (do found ← gets (λ w. lookup txn_id w.sessions); found_or_new txn_id c sender found)

  unfoldable pub on_request : Event → Stmt (Manager D)
  on_request ev = do s ← get_or_create ev.content ev.sender; on_option s skip (handle_request e)

  unfoldable pub on_start : Event → Stmt (Manager D)
  on_start ev = do
    s ← get_or_create ev.content ev.sender
    on_option s skip (λ s. handle_start e s ev.content)

  unfoldable pub on_key : Event → Stmt (Manager D)
  on_key ev = with_session ev.content (λ s. handle_key e s ev.content)

  unfoldable pub on_mac : Event → Stmt (Manager D)
  on_mac ev =
      with_session ev.content
        (λ s. do handle_mac e s ev.content; pop_session (text_at "transaction_id" ev.content))

  -- The table of handlers that `__init__` registers.
  abbrev pub handler_of : EventType → Event → Stmt (Manager D)
  handler_of request = on_request
  handler_of start = on_start
  handler_of key = on_key
  handler_of mac = on_mac
  handler_of cancelled = on_cancel

  unfoldable pub on_event : Event → Stmt (Manager D)
  on_event ev = handler_of ev.type ev

  -- The events one after another; what a handler raises ends that handler only.
  unfoldable pub run_events : List Event → Manager D → Manager D
  run_events [] w = w
  run_events (ev ∷ evs) w = run_events evs (on_event ev w).1
