-- ===== src/World/Effects.antt =====
-- The statements of the approver: requests, messages, the files and the audit log.
use shape_rotator_matrix.Base.{ℕ, ◌+◌, String, ◌∷◌, eqb, if◌then◌else◌}
use shape_rotator_matrix.Text.{is_empty, code_text}
use shape_rotator_matrix.Dict.{Dict}
use shape_rotator_matrix.Exec.{Exec, Stmt, ok, pure, raise, gets, modify, skip, ◌>>=◌, ◌>>◌}
use shape_rotator_matrix.World.Data.{
  CodeEntry, Vetting, Lobby, main_bot, lobby_bot, Notice, Request, send, Reply, answer, failed,
  Audit, World, Env,
}

unfoldable pub save_codes : Dict CodeEntry → Stmt World
save_codes d = modify (λ w. record w { codes = d })

unfoldable pub save_signup : Dict CodeEntry → Stmt World
save_signup d = modify (λ w. record w { signup = d })

unfoldable pub save_vetting : Dict Vetting → Stmt World
save_vetting d = modify (λ w. record w { vetting = d })

unfoldable pub save_lobby : Dict Lobby → Stmt World
save_lobby d = modify (λ w. record w { lobby = d })

-- `audit(event)`
unfoldable pub audit : Audit → Stmt World
audit a = modify (λ w. record w { log = a ∷ w.log })

-- a request whose failure is an exception
abbrev pub or_raise : Reply → Exec World (ℕ × String)
or_raise (answer status text) = pure (status, text)
or_raise (failed x) = raise x

module _ (e : Env) where
  -- one request, and the reply that it gets
  unfoldable pub request : Request → Exec World Reply
  request r w = (ok (e.reply w.trace r), record w { trace = r ∷ w.trace })

  unfoldable pub post : Request → Exec World (ℕ × String)
  post r = do reply ← request r; or_raise reply

  -- `_send_msg`: the mautrix client, as the main bot
  unfoldable pub send_msg : String → Notice → Stmt World
  send_msg room text = do post (send main_bot room text); skip

  -- `_send_msg_raw`: plain HTTP, as the lobby bot; any status but 200 raises a RuntimeError
  unfoldable pub send_msg_raw : String → Notice → Stmt World
  send_msg_raw room text = do
    (status, body) ← post (send lobby_bot room text)
    if eqb status 200 then skip else raise (record { http_status = 500; text = body })

  -- `time.time()`
  unfoldable pub clock : Exec World ℕ
  clock = gets (λ w. e.now w.trace)

  -- a random text: `secrets.token_urlsafe`, `secrets.token_hex`
  unfoldable pub draw : (ℕ → String) → Exec World String
  draw source w = (ok (source w.drawn), record w { drawn = w.drawn + 1 })

  -- `_new_code()`
  unfoldable pub new_code : Exec World String
  unfolding code_text
  new_code = do
    raw ← draw e.token_urlsafe
    let short = code_text raw
    if is_empty short then draw (e.token_hex 4) else pure short
