-- ===== src/Relay/Telegram.antt =====
-- `tg_poll_once`: new messages of the Telegram group go to Matrix.
pub mod Once
pub mod Again
use shape_rotator_matrix.Base.{
  ℕ, leb, eqb, String, Bool, true, false, Option, none, some, List, [], ◌∷◌, reverse, ◌==◌,
  if◌then◌else◌,
}
use shape_rotator_matrix.Exec.{
  Outcome, ok, raised, from_outcome, Exec, Stmt, pure, gets, skip, try_except, ◌>>=◌, ◌>>◌, when,
}
use shape_rotator_matrix.Relay.State.{State, advance}
use shape_rotator_matrix.Relay.Bodies.{TgMessage, tg_text, sender_name}
use shape_rotator_matrix.Relay.Bridge.{Bridge, Clients, set_state, save, mx_send_relay}

abbrev pub with_message : TgMessage → Outcome (List TgMessage) → Outcome (List TgMessage)
with_message msg (ok msgs) = ok (msg ∷ msgs)
with_message msg (raised x) = raised x

-- The messages that `iter_messages` yields, newest first, up to the first that is not newer than the
-- cursor; the iteration may raise instead of yielding the next one.
unfoldable pub newer : ℕ → List (Outcome TgMessage) → Outcome (List TgMessage)
newer last [] = ok []
newer last (raised x ∷ msgs) = raised x
newer last (ok msg ∷ msgs) =
    let rest = newer last msgs in if leb msg.id last then ok [] else with_message msg rest

unfoldable pub is_own : Clients → TgMessage → Bool
is_own c msg = elim msg.sender_id [ none ↦ false | some i ↦ i == c.tg_me_id ]

unfoldable pub move_cursor : ℕ → Stmt Bridge
move_cursor id = do state ← gets (λ b. b.state); set_state (advance id state)

-- The end of the loop's body: a failed send leaves the cursor.
unfoldable pub forward : Clients → TgMessage → String → String → Stmt Bridge
forward c msg sender text = do
  sent ← try_except (do mx_send_relay c sender text; pure true) (λ x. pure false)
  when sent (do move_cursor msg.id; save)

-- `get_sender` is outside the `try`.
abbrev pub by_text : Clients → TgMessage → Option String → Stmt Bridge
by_text c msg none = move_cursor msg.id
by_text c msg (some text) = do
  posts ← gets (λ b. b.posts)
  sender ← from_outcome (c.get_sender posts msg)
  forward c msg (sender_name sender msg.sender_id) text

unfoldable pub poll_message : Clients → TgMessage → Stmt Bridge
poll_message c msg = if is_own c msg then move_cursor msg.id else by_text c msg (tg_text msg)

unfoldable pub poll_messages : Clients → List TgMessage → Stmt Bridge
poll_messages c [] = skip
poll_messages c (msg ∷ msgs) = do poll_message c msg; poll_messages c msgs

-- The first start skips the backlog.
unfoldable pub poll_new : Clients → List TgMessage → Stmt Bridge
poll_new c [] = skip
poll_new c (newest ∷ older) = do
  state ← gets (λ b. b.state)
  if eqb state.tg_last_id 0
      then (do set_state (record state { tg_last_id = newest.id }); save)
      else (do poll_messages c (reverse (newest ∷ older)); save)

-- `tg_poll_once`, given what `iter_messages` yields, at most 200, newest first.
unfoldable pub tg_poll_once : Clients → List (Outcome TgMessage) → Stmt Bridge
tg_poll_once c msgs = do
  state ← gets (λ b. b.state)
  new ← from_outcome (newer state.tg_last_id msgs)
  poll_new c new
