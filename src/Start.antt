-- ===== src/Start.antt =====
-- knock-approver/approver.py, `main` up to its loops, with `merge_seed`.
pub mod Seeding
pub mod Restarts
use Prim.Native.Char.{code}
use shape_rotator_matrix.Base.{eqb, String, Option, none, some, List, ◌==◌, if◌then◌else◌}
use shape_rotator_matrix.Text.{is_empty}
use shape_rotator_matrix.Dict.{Dict}
use shape_rotator_matrix.Exec.{Exn, Exec, Stmt, pure, raise, modify, skip, ◌>>=◌, ◌>>◌, on_option}
use shape_rotator_matrix.World.{CodeEntry, World}
use shape_rotator_matrix.Codes.{merge_missing}
use shape_rotator_matrix.Credentials.{Disk, Call, Boot, Server, Resolved, resolve_credentials}
use shape_rotator_matrix.Heal.{start_main_bot}

-- What an environment variable with codes holds: nothing, a text that is no JSON, JSON that is no
-- object, or codes.
pub data Seed : Type 0 where
  unset unreadable no_object : Seed
  seeds : Dict CodeEntry → Seed

-- The files of both bots, and the state files.
pub record Machine : Type 0 where
  pub main : Disk
  pub lobby : Disk
  pub calls : List Call
  pub world : World

-- The environment, and the homeserver as each bot meets it.
pub record Setup : Type 0 where
  pub main_server : Server
  pub lobby_server : Server
  pub main_token : String
  pub lobby_token : String
  pub server_name : String
  pub initial_codes : Seed
  pub initial_signup_codes : Seed

-- The globals that `main` sets.
pub record Globals : Type 0 where
  pub token : String
  pub lobby_token : String
  pub server_name : String

unfoldable pub on_main : {A : Type 0} → Exec Boot A → Exec Machine A
on_main m x =
    let (r, b) = m (record { disk = x.main; calls = x.calls }) in
    (r, record x { main = b.disk; calls = b.calls })

unfoldable pub on_lobby : {A : Type 0} → Exec Boot A → Exec Machine A
on_lobby m x =
    let (r, b) = m (record { disk = x.lobby; calls = x.calls }) in
    (r, record x { lobby = b.disk; calls = b.calls })

unfoldable pub put_world : (World → World) → Stmt Machine
put_world f = modify (λ x. record x { world = f x.world })

-- One of the two tables of codes in the state files.
pub record Table : Type 0 where
  pub load_from : World → Dict CodeEntry
  pub save_to : Dict CodeEntry → World → World

abbrev pub codes_table : Table
codes_table = record { load_from = λ w. w.codes; save_to = λ t w. record w { codes = t } }

abbrev pub signup_table : Table
signup_table = record { load_from = λ w. w.signup; save_to = λ t w. record w { signup = t } }

-- To write a table that did not change is to write nothing.
unfoldable pub merge_seed : Table → Seed → Stmt Machine
merge_seed path unset = skip
merge_seed path unreadable = skip
merge_seed path no_object = raise (record { http_status = 500; text = "no attribute 'items'" })
merge_seed path (seeds data') =
    put_world (λ w. path.save_to (merge_missing data' (path.load_from w)) w)

abbrev lobby_token_of : String → Option Resolved → String
lobby_token_of old none = old
lobby_token_of old (some r) = r.token

-- The second bot: it may share the token of the first.
unfoldable pub start_lobby_bot : Setup → String → Exec Machine String
start_lobby_bot c token = if c.lobby_token == token then pure c.lobby_token else (do
  resolved ← on_lobby (resolve_credentials c.lobby_server c.lobby_token)
  pure (lobby_token_of c.lobby_token resolved))

-- `mxid.split(":", 1)[1]`, if there is a colon
unfoldable pub after_colon : String → Option String
after_colon String.[] = none
after_colon (String.◌∷◌ ch s) =
    let rest = after_colon s in if eqb (code ch) b':' then some s else rest

unfoldable pub name_of : Setup → String → Exec Machine String
name_of c mxid =
    if is_empty c.server_name
    then on_option (after_colon mxid)
        (raise (record { http_status = 500; text = "list index out of range" })) pure
    else pure c.server_name

-- A missing state file is read as an empty one, so that the creation of empty files changes nothing.
unfoldable pub start : Setup → Exec Machine Globals
start c = do
  r ← on_main (start_main_bot c.main_server c.main_token)
  lobby_token ← start_lobby_bot c r.token
  server_name ← name_of c r.identity.mxid
  merge_seed codes_table c.initial_codes
  merge_seed signup_table c.initial_signup_codes
  pure (record { token = r.token; lobby_token = lobby_token; server_name = server_name })
