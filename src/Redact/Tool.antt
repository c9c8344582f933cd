-- ===== src/Redact/Tool.antt =====
-- The requests of the script: `http`, `login`, `logout` and `redact`.
use shape_rotator_matrix.Base.{
  ℕ, String, Bool, false, not, ◌&&◌, Option, none, some, List, ◌∷◌, leb, eqb, if◌then◌else◌,
}
use shape_rotator_matrix.Text.{is_empty}
use shape_rotator_matrix.Exec.{
  Outcome, Exec, Stmt, pure, raise, skip, modify, gets, try_except, ◌>>=◌, ◌>>◌, from_outcome,
}

-- An event of /messages: an absent time is read as 0, an absent sender, id or type as the empty
-- text. `unsigned` is the object of that name with its `redacted_because`, as text.
pub record Event : Type 0 where
  pub event_id : String
  pub origin_server_ts : ℕ
  pub sender : String
  pub kind : String
  pub unsigned : Option (Option String)

-- What the code reads of a reply: the three fields of /login, a chunk of events with the token of
-- the next page, or nothing.
pub data Body : Type 0 where
  session : String → String → String → Body
  page : List Event → String → Body
  nothing : Body

pub data Call : Type 0 where
  login_call : String → String → Call
  messages_call : String → String → Call
  redact_call : String → String → String → Call
  logout_call : Call
  pause : Call

-- The requests so far, newest first.
pub record Tool : Type 0 where
  pub calls : List Call

-- The homeserver, which may answer by all that came before. `raised`: there is no answer.
abbrev pub Server : Type 0
Server = List Call → Call → Outcome (ℕ × Body)

-- `urlopen` raises `HTTPError` where the status is not of the 200s.
abbrev pub opened : ℕ × Body → Exec Tool (ℕ × Body)
opened (status, body) =
    if leb 200 status && leb status 299
    then pure (status, body)
    else raise (record { http_status = status; text = "HTTPError" })

abbrev pub session_of : ℕ × Body → Exec Tool (String × String × String)
session_of (status, session token device user) =
    if eqb status 200
    then pure (token, device, user)
    else raise (record { http_status = 500; text = "login failed" })
session_of (status, page chunk end) = raise (record {
  http_status = 500;
  text = if eqb status 200 then "'access_token'" else "login failed";
})
session_of (status, nothing) = raise (record {
  http_status = 500;
  text = if eqb status 200 then "'access_token'" else "login failed";
})

module _ (srv : Server) where
  -- `http`
  unfoldable pub http : Call → Exec Tool (ℕ × Body)
  http c = do
    reply ← gets (λ t. srv t.calls c)
    modify (λ t. record t { calls = c ∷ t.calls })
    r ← from_outcome reply
    opened r

  unfoldable pub login : String → String → Exec Tool (String × String × String)
  login user password = do r ← http (login_call user password); session_of r

  unfoldable pub logout : Stmt Tool
  logout = try_except (do http logout_call; skip) (λ x. skip)

  -- The transaction id of `redact` is random and left out.
  unfoldable pub redact : String → String → String → Exec Tool ℕ
  redact room event_id reason = do r ← http (redact_call room event_id reason); pure r.0

abbrev because : Option (Option String) → Bool
because none = false
because (some none) = false
because (some (some text)) = not (is_empty text)

unfoldable pub is_redacted : Event → Bool
is_redacted ev = because ev.unsigned
