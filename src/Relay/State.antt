-- ===== src/Relay/State.antt =====
-- The durable cursors, `class State`.
pub mod Ring
use shape_rotator_matrix.Base.{
  ℕ, ◌-◌, ltb, String, Bool, true, false, List, [], ◌∷◌, ◌++◌, length, drop, elem, if◌then◌else◌,
}

-- `MX_SEEN_LIMIT`
abbrev pub mx_seen_limit : ℕ
mx_seen_limit = 500

pub record State : Type 0 where
  pub tg_last_id : ℕ
  pub mx_seen : List String

-- `if len(xs) > limit: del xs[: len(xs) - limit]`, which is also `xs[-limit:]`
unfoldable pub keep_last : ℕ → List String → List String
keep_last limit xs = let n = length xs in if ltb limit n then drop (n - limit) xs else xs

-- `mark_mx`: whether the event was recorded already, and the state.
unfoldable pub mark_mx : String → State → Bool × State
mark_mx event_id s =
    if elem event_id s.mx_seen
    then (true, s)
    else (false, record s { mx_seen = keep_last mx_seen_limit (s.mx_seen ++ event_id ∷ []) })

-- What `save` writes of the state.
unfoldable pub payload : State → State
payload s = record s { mx_seen = keep_last mx_seen_limit s.mx_seen }

-- `self.tg_last_id = max(self.tg_last_id, id)`
unfoldable pub advance : ℕ → State → State
advance id s = record s { tg_last_id = if ltb s.tg_last_id id then id else s.tg_last_id }
