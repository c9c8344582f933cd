-- ===== src/Redact/Scan.antt =====
-- `collect_targets`: the walk backward through the room.
use shape_rotator_matrix.Base.{
  ℕ, zero, suc, String, Bool, true, false, not, ◌||◌, List, [], ◌∷◌, ◌++◌, ltb, eqb, elem, ◌==◌,
  if◌then◌else◌,
}
use shape_rotator_matrix.Text.{is_empty}
use shape_rotator_matrix.Exec.{Exec, pure, raise, ◌>>=◌}
use shape_rotator_matrix.Redact.Tool.{
  Event, Body, session, page, nothing, messages_call, Tool, Server, http, is_redacted,
}

-- What is looked for. The two bounds are in milliseconds.
pub record Query : Type 0 where
  pub room : String
  pub sender_mxid : String
  pub since_ms : ℕ
  pub until_ms : ℕ

-- A target: the id, the time and the type of an event.
pub record Target : Type 0 where
  pub event_id : String
  pub ts : ℕ
  pub kind : String

-- The variables of the loop.
pub record Scan : Type 0 where
  pub targets : List Target
  pub seen_ids : List String
  pub token_from : String
  pub pages_done : ℕ
  pub older_than_since : Bool

abbrev pub first_scan : Scan
first_scan = record {
  targets = [];
  seen_ids = [];
  token_from = "";
  pages_done = 0;
  older_than_since = false;
}

abbrev pub target_of : Event → Target
target_of ev = record { event_id = ev.event_id; ts = ev.origin_server_ts; kind = ev.kind }

-- The body of the inner loop.
unfoldable pub scan_event : Query → Event → Scan → Scan
scan_event q ev s =
    if ltb ev.origin_server_ts q.since_ms
    then record s { older_than_since = true }
    else if ltb q.until_ms ev.origin_server_ts
    then s
    else if not (ev.sender == q.sender_mxid)
    then s
    else if is_redacted ev
    then s
    else if is_empty ev.event_id || elem ev.event_id s.seen_ids
    then s
    else record s { seen_ids = ev.event_id ∷ s.seen_ids; targets = s.targets ++ target_of ev ∷ [] }

unfoldable pub scan_chunk : Query → List Event → Scan → Scan
scan_chunk q [] s = s
scan_chunk q (ev ∷ evs) s = scan_chunk q evs (scan_event q ev s)

abbrev pub chunk_of : Body → List Event
chunk_of (session token device user) = []
chunk_of (page chunk end) = chunk
chunk_of nothing = []

abbrev pub end_of : Body → String
end_of (session token device user) = ""
end_of (page chunk end) = end
end_of nothing = ""

-- The variables after a page that has events.
unfoldable pub turn_page : Query → Body → Scan → Scan
turn_page q body s =
    let s' = scan_chunk q (chunk_of body) s in
    record s' { token_from = end_of body; pages_done = suc s'.pages_done }

abbrev pub has_events : List Event → Bool
has_events [] = false
has_events (ev ∷ evs) = true

-- The body of the loop after the request; `more` is the rest of the loop.
abbrev pub take_page : Query → Scan → (Scan → Exec Tool Scan) → ℕ × Body → Exec Tool Scan
take_page q s more (status, body) =
    if not (eqb status 200)
    then raise (record { http_status = 500; text = "messages fetch failed" })
    else if not (has_events (chunk_of body))
    then pure s
    else if is_empty (end_of body)
    then pure (turn_page q body s)
    else more (turn_page q body s)

-- The loop, by the number of pages that are left of `max_pages`.
unfoldable pub collect_loop : Server → Query → ℕ → Scan → Exec Tool Scan
collect_loop srv q zero s = pure s
collect_loop srv q (suc n) s = if s.older_than_since then pure s else (do
  r ← http srv (messages_call q.room s.token_from)
  take_page q s (collect_loop srv q n) r)

-- `collect_targets`, with its two results in the variables of the loop
unfoldable pub collect_targets : Server → Query → ℕ → Exec Tool Scan
unfolding collect_loop
collect_targets srv q max_pages = collect_loop srv q max_pages first_scan
