-- ===== src/Codes/Fresh.antt =====
-- `while code in codes: code = _new_code() + secrets.token_hex(2)`: a code that the table lacks.
use shape_rotator_matrix.Base.{ℕ, zero, suc, String, length, if◌then◌else◌}
use shape_rotator_matrix.Text.{concat}
use shape_rotator_matrix.Dict.{Dict, has}
use shape_rotator_matrix.Exec.{Exec, pure, raise, ◌>>=◌}
use shape_rotator_matrix.World.{CodeEntry, World, Env, draw, new_code}

-- The next candidate after a collision.
unfoldable pub longer_code : Env → Exec World String
unfolding concat
longer_code e = do short ← new_code e; more ← draw e (e.token_hex 2); pure (concat short more)

-- The loop on fuel; running out of it is an exception that the source does not have.
unfoldable pub fresh_loop : Env → ℕ → Dict CodeEntry → String → Exec World String
fresh_loop e zero codes code = raise (record { http_status = 0; text = "out of fuel" })
fresh_loop e (suc fuel) codes code =
    let again = (do next ← longer_code e; fresh_loop e fuel codes next) in
    if has code codes then again else pure code

-- One round for the first candidate, one for each code of the table, and one more.
unfoldable pub fresh_code : Env → Dict CodeEntry → Exec World String
fresh_code e codes = do code ← new_code e; fresh_loop e (suc (suc (length codes))) codes code
