-- ===== src/Lobby/Join.antt =====
-- `join_handler`, in the two parts that its awaits cut it into: what it checks before the room is
-- created, and what it writes after.
pub mod Settles
pub mod Race
use Prim.Native.Char.{Char, code}
use shape_rotator_matrix.Base.{
  not, ◌&&◌, ◌||◌, leb, ℕ, String, Bool, true, false, Option, none, some, List, [], ◌∷◌, eqb,
  if◌then◌else◌,
}
use shape_rotator_matrix.Text.{concat, strip, is_empty, without, take}
use shape_rotator_matrix.Dict.{Dict, set}
use shape_rotator_matrix.Exec.{
  Exn, Outcome, Exec, Stmt, pure, raise, gets, skip, try_except, ◌>>=◌, ◌>>◌,
}
use shape_rotator_matrix.World.{
  CodeEntry, Lobby, lobby_bot, create_lobby_room, join_room, Audit, World, Env, request, post,
  save_codes, save_lobby, audit, clock, draw,
}
use shape_rotator_matrix.Haiku.{fetch_wiki_challenge}
use shape_rotator_matrix.Codes.{is_dead, spend}

-- The JSON replies of the handler, with their statuses. `bad_json` is a body that does not parse.
pub data JoinReply : Type 0 where
  bad_json missing_code invalid_code create_failed : JoinReply
  joined : String → String → String → String → JoinReply

unfoldable pub join_status : JoinReply → ℕ
join_status bad_json = 400
join_status missing_code = 400
join_status invalid_code = 403
join_status create_failed = 500
join_status (joined alias room title keyword) = 200

-- Not a letter or a digit; a `token_urlsafe` is ASCII.
unfoldable pub is_no_alnum : Char → Bool
is_no_alnum c =
    let n = code c in
    not ((leb b'0' n && leb n b'9') || (leb b'A' n && leb n b'Z') || (leb b'a' n && leb n b'z'))

-- `_rand_alias_suffix`
unfoldable pub rand_alias_suffix : Env → Exec World String
unfolding is_no_alnum
rand_alias_suffix e = do
  raw ← draw e e.token_urlsafe
  let s = without is_no_alnum (e.lower raw)
  text ← if is_empty s then draw e (e.token_hex 5) else pure s
  pure (take 10 text)

-- `_create_lobby_room_raw`: the room id and the alias. The explicit join is only warned about, but
-- an exception of the client is not caught here.
unfoldable pub create_lobby_room_raw : Env → Exec World (String × String)
create_lobby_room_raw e = do
  suffix ← rand_alias_suffix e
  let alias = concat e.lobby_alias_prefix suffix
  (status, room) ← post e (create_lobby_room alias)
  if eqb status 200
      then (do post e (join_room lobby_bot room); pure (room, alias))
      else raise (record { http_status = 500; text = "createRoom" })

unfoldable pub new_lobby : String → String → ℕ → String → String → Lobby
new_lobby alias code now title keyword = record {
  alias = alias;
  code = code;
  created = now;
  title = title;
  keyword = keyword;
  challenged = [];
  tries = [];
  displaynames = [];
  challenge_sent_ts = [];
  challenge_resends = [];
  promoted = false;
  promoted_at = 0;
  promoted_user = "";
  closed = false;
  closed_reason = none;
}

-- Everything below the creation of the room; `codes` is the table that was loaded before it.
unfoldable pub commit_join :
    Env → Dict CodeEntry → String → String → String → String × String → Exec World JoinReply
commit_join e codes code title keyword (room, alias) = do
  save_codes (spend code codes)
  state ← gets (λ w. w.lobby)
  now ← clock e
  save_lobby (set room (new_lobby alias code now title keyword) state)
  audit (Audit.lobby_created room alias code)
  pure (joined alias room title keyword)

-- `try: … except Exception` round the creation: `none` where it failed
unfoldable pub try_create : Env → String → Exec World (Option (String × String))
try_create e code =
    try_except (do made ← create_lobby_room_raw e; pure (some made))
      (λ x. do audit (Audit.lobby_room_failed code); pure none)

abbrev finish_join :
    Env
    → Dict CodeEntry
    → String
    → String
    → String
    → Option (String × String)
    → Exec World JoinReply
finish_join e codes code title keyword none = pure create_failed
finish_join e codes code title keyword (some made) = commit_join e codes code title keyword made

-- `join_handler` on the code of a parsed body; `none` is a body that does not parse.
unfoldable pub join_handler : Env → Option String → Exec World JoinReply
unfolding is_dead strip
join_handler e none = pure bad_json
join_handler e (some raw) =
    let code = strip raw in
    if is_empty code then pure missing_code else do
      codes ← gets (λ w. w.codes)
      if is_dead code codes then (do audit (Audit.lobby_rejected code); pure invalid_code) else (do
        (title, keyword) ← fetch_wiki_challenge e
        made ← try_create e code
        finish_join e codes code title keyword made)
