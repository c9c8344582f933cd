-- ===== src/Lobby/Join/Race.antt =====
-- Two requests to /join/api whose waits overlap.
use shape_rotator_matrix.Base.{◌+◌, String, ◌≡◌, ◌≢◌, sym, false, some}
use shape_rotator_matrix.Dict.{lookup, lookup-set_self, lookup-set_ne}
use shape_rotator_matrix.Exec.{◌>>=◌}
use shape_rotator_matrix.World.{uses_left, World, Env, audit, save_codes, save_lobby, clock}
use shape_rotator_matrix.Codes.{is_dead}
use shape_rotator_matrix.Codes.Spending.{uses_left-spend}
use shape_rotator_matrix.Lobby.Join.{new_lobby, commit_join}

-- Where two requests with one live code have both loaded the table before either of them writes it,
-- both rooms are opened and recorded, and together they spend one use only: a code with one use
-- left admits both.
pub overlapping_joins :
    (e : Env) (code : String) (title title' keyword keyword' room room' alias alias' : String)
    (w : World)
    → is_dead code w.codes ≡ false
    → room ≢ room'
    → let w1 = (commit_join e w.codes code title keyword (room, alias) w).1 in
      let w2 = (commit_join e w.codes code title' keyword' (room', alias') w1).1 in
      (uses_left (lookup code w2.codes) + 1 ≡ uses_left (lookup code w.codes))
      × (lookup room w2.lobby ≡ some (new_lobby alias code (e.now w.trace) title keyword))
      × (lookup room' w2.lobby ≡ some (new_lobby alias' code (e.now w1.trace) title' keyword'))
unfolding commit_join save_codes save_lobby clock audit ◌>>=◌
overlapping_joins e code title title' keyword keyword' room room' alias alias' w live apart = (
  uses_left-spend code w.codes live,
  rw (lookup-set_ne room' room _ _ (λ p. apart (sym p))) (lookup-set_self room _ w.lobby),
  lookup-set_self room' _ _,
)
