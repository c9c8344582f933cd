-- ===== src/Loops.antt =====
-- The loops of knock-approver/approver.py that ask for /sync: `sync_loop` and `lobby_sync_loop`, with
-- the files in which each keeps the position that it has read to.
pub mod Setup
pub mod Cursor
pub mod Follows
pub mod Moves
use shape_rotator_matrix.Base.{
  ℕ, zero, suc, String, Bool, Option, none, some, List, [], ◌∷◌, if◌then◌else◌,
}
use shape_rotator_matrix.Text.{strip, is_empty}
use shape_rotator_matrix.Exec.{
  Exn, Outcome, ok, raised, Exec, Stmt, pure, raise, gets, skip, modify, ◌>>=◌, ◌>>◌, from_outcome,
  from_error, on_option,
}
use shape_rotator_matrix.World.{World, Env}
use shape_rotator_matrix.Sync.{Joined}
use shape_rotator_matrix.Round.{Chat, sync_round}
use shape_rotator_matrix.Lobby.Round.{lobby_round}
use shape_rotator_matrix.Credentials.{Boot, Server}
use shape_rotator_matrix.Heal.{import_inbound_sessions}

-- What the loops read of a /sync reply. The messages are those that `handle_sync` decrypts and gives
-- to the handler; a missing `next_batch` is the empty text.
pub record Batch : Type 0 where
  pub next_batch : String
  pub rooms : Joined
  pub invites : List String
  pub chats : List Chat

-- A request that raised or came back with another status than 200; a reply that is no JSON object.
pub data SyncReply : Type 0 where
  sync_failed no_dict : SyncReply
  batch : Batch → SyncReply

pub record Ask : Type 0 where
  pub since : Option String
  pub reply : SyncReply

pub record Whoami : Type 0 where
  pub user_id : Option String
  pub device_id : Option String

-- What one loop works on: the files of its bot, of which `sync_since` holds its position (SYNC_STATE,
-- which `_wipe_crypto_store` removes, or LOBBY_SYNC_STATE), and the state files.
pub record Looping : Type 0 where
  pub asks : List Ask  -- newest first
  pub boot : Boot
  pub world : World

-- The homeserver, as the loops meet it. `none` of `whoami` is a status other than 200.
pub record Source : Type 0 where
  pub whoami : List Ask → Outcome (Option Whoami)
  pub sync : List Ask → World → Option String → SyncReply

unfoldable pub on_world : Stmt World → Stmt Looping
on_world m x = let (r, w) = m x.world in (r, record x { world = w })

unfoldable pub on_boot : Stmt Boot → Stmt Looping
on_boot m x = let (r, b) = m x.boot in (r, record x { boot = b })

-- One request to /sync. The lobby loop leaves an empty position out of the URL.
unfoldable pub ask : Source → Option String → Exec Looping SyncReply
ask c since = do
  reply ← gets (λ x. c.sync x.asks x.world since)
  modify (λ x. record x { asks = record { since = since; reply = reply } ∷ x.asks })
  pure reply

-- `….write_text(since)`
unfoldable pub put_since : String → Stmt Looping
put_since since = modify (λ x.
    let disk = record x.boot.disk { sync_since = some since } in
    record x { boot = record x.boot { disk = disk } })

-- `if next_batch: since = next_batch; ….write_text(since)`
unfoldable pub keep_next : Option String → String → Exec Looping (Option String)
keep_next since next_batch =
    if is_empty next_batch then pure since else do put_since next_batch; pure (some next_batch)

-- One turn of the loop of `sync_loop`, from the reply on.
unfoldable pub main_turn : Env → Option String → SyncReply → Exec Looping (Option String)
main_turn e since sync_failed = pure since
main_turn e since no_dict = pure since
main_turn e since (batch d) = do
  since' ← keep_next since d.next_batch
  on_world (sync_round e d.rooms d.chats)
  pure since'

-- One turn of the loop of `lobby_sync_loop`, from the reply on.
unfoldable pub lobby_turn : Env → String → Option String → SyncReply → Exec Looping (Option String)
lobby_turn e self since sync_failed = pure since
lobby_turn e self since no_dict = raise (record { http_status = 500; text = "no attribute 'get'" })
lobby_turn e self since (batch d) = do
  since' ← keep_next since d.next_batch
  on_world (lobby_round e self d.rooms d.invites)
  pure since'

-- The first turns of a loop that does not end by itself.
unfoldable pub turns :
    Source
    → (Option String → SyncReply → Exec Looping (Option String))
    → ℕ
    → Option String
    → Stmt Looping
turns c turn zero since = skip
turns c turn (suc n) since = do
  reply ← ask c since
  since' ← turn since reply
  turns c turn n since'

-- `….read_text().strip() if ….exists() else None`
abbrev pub position : Option String → Option String
position none = none
position (some text) = some (strip text)

-- `_lobby_whoami`
unfoldable pub lobby_whoami : Source → Exec Looping (Option String)
lobby_whoami c = do
  asks ← gets (λ x. x.asks)
  reply ← from_outcome (c.whoami asks)
  pure (on_option reply none (λ i. i.user_id))

-- The lobby flow is off where the token is of nobody.
unfoldable pub lobby_sync_loop : Env → Source → ℕ → Stmt Looping
lobby_sync_loop e c n = do
  found ← lobby_whoami c
  on_option found skip (λ self. if is_empty self then skip else do
    since ← gets (λ x. position x.boot.disk.sync_since)
    turns c (lobby_turn e self) n since)

-- The identity of `sync_loop`, as user and device: a failure is printed.
abbrev identity_of : Outcome (Option Whoami) → String × String
identity_of (raised x) = ("", "approver-fallback")
identity_of (ok none) = ("", "approver-fallback")
identity_of (ok (some i)) =
    on_option i.user_id ("", "approver-fallback")
      λ u. (u, on_option i.device_id "approver" (λ d. d))

-- The crypto store, which is made where there is none.
unfoldable pub open_crypto : Server → String → String → Stmt Boot
open_crypto s mxid device = do
  modify (λ b. record b {
    disk = record b.disk { crypto = some (on_option b.disk.crypto [] (λ rows. rows)) };
  })
  from_error (s.open_store mxid device)

unfoldable pub sync_loop : Env → Source → Server → ℕ → Stmt Looping
sync_loop e c s n = do
  (our_mxid, device) ← gets (λ x. identity_of (c.whoami x.asks))
  on_boot (do open_crypto s our_mxid device; import_inbound_sessions s)
  since ← gets (λ x. position x.boot.disk.sync_since)
  turns c (main_turn (record e { our_mxid = our_mxid })) n since
