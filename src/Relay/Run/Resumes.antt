-- ===== src/Relay/Run/Resumes.antt =====
-- What a run of the relay leaves for the next one.
use shape_rotator_matrix.Base.{
  ℕ, ◌≤◌, ltb, String, ◌≡◌, refl, false, Option, none, some, List, [], ◌∷◌, reverse, length, arith,
  Bool-cases, inl, inr, eqb,
}
use shape_rotator_matrix.Exec.{
  Outcome, ok, raised, from_outcome, modify, skip, ◌>>=◌, ◌>>◌, on_option,
}
use shape_rotator_matrix.Exec.Rules.{
  Preserves, Preserves-bind, Preserves-if, Preserves-pure, Preserves-gets, Preserves-skip,
  Preserves-try, Preserves-raise,
}
use shape_rotator_matrix.Relay.State.{State, payload, keep_last, advance, mx_seen_limit}
use shape_rotator_matrix.Relay.State.Ring.{mark_mx-records}
use shape_rotator_matrix.Relay.Bodies.{TgMessage, tg_text}
use shape_rotator_matrix.Relay.Bridge.{Bridge, Clients, set_state, save, mx_send_relay}
use shape_rotator_matrix.Relay.Telegram.{
  move_cursor, forward, by_text, poll_message, poll_messages, poll_new, tg_poll_once,
}
use shape_rotator_matrix.Relay.Matrix.{mark, mx_sync, mx_relay_once}
use shape_rotator_matrix.Relay.Matrix.Dedup.{
  OnCursors, send-Preserves, save-Preserves, sync-Preserves, mx_relay_once-Preserves,
}
use shape_rotator_matrix.Relay.Run.{
  StateFile, load, dumped, try_finally, first_start, once, run_once,
}

-- The ring is within its limit, and the Telegram cursor is not behind `n`.
record Fits (n : ℕ) (b : Bridge) : Type 0 where
  ring : length b.state.mx_seen ≤ mx_seen_limit
  onward : n ≤ b.state.tg_last_id

Fits-OnCursors : (n : ℕ) → OnCursors (Fits n)
Fits-OnCursors n = record {
  on_posts = λ b ps h. record { ring = h.ring; onward = h.onward };
  on_names = λ b ns h. record { ring = h.ring; onward = h.onward };
  on_save = λ b h. record { ring = h.ring; onward = h.onward };
  on_sync = λ b cur h. record { ring = h.ring; onward = h.onward };
}

mark-Fits : (n : ℕ) (event_id : String) → Preserves (Fits n) (mark event_id)
unfolding mark set_state ◌>>=◌
mark-Fits n event_id = record {
  from = λ b h.
      let records = mark_mx-records event_id b.state h.ring in
      record { ring = records.2; onward = omega (arith, records.3, h.onward) };
}

move-Fits : (n id : ℕ) → Preserves (Fits n) (move_cursor id)
unfolding move_cursor set_state advance ◌>>=◌
move-Fits n id = record {
  from = λ b h. record { ring = h.ring; onward = ground (arith, h.onward) };
}

module _ (n : ℕ) (c : Clients) where
  forward-Fits :
      (msg : TgMessage) (sender text : String) → Preserves (Fits n) (forward c msg sender text)
  unfolding forward mx_send_relay
  forward-Fits msg sender text =
      Preserves-bind _ _
        (Preserves-try _ _
          (Preserves-bind _ _ (send-Preserves (Fits-OnCursors n) c _) λ _. Preserves-pure _)
          (λ x. Preserves-pure _))
        λ sent.
          Preserves-if _ _ _
            (Preserves-bind _ _ (move-Fits n msg.id) λ _. save-Preserves (Fits-OnCursors n) c)
            Preserves-skip

  outcome_lem : {A : Type 0} (r : Outcome A) → Preserves (Fits n) (from_outcome r)
  outcome_lem (ok a) = Preserves-pure a
  outcome_lem (raised x) = Preserves-raise x

  text-Fits : (msg : TgMessage) (text : Option String) → Preserves (Fits n) (by_text c msg text)
  text-Fits msg none = move-Fits n msg.id
  text-Fits msg (some text) =
      Preserves-bind _ _ (Preserves-gets _)
        λ posts. Preserves-bind _ _ (outcome_lem _) λ sender. forward-Fits msg _ text

  messages-Fits : (msgs : List TgMessage) → Preserves (Fits n) (poll_messages c msgs)
  unfolding poll_messages poll_message
  messages-Fits [] = Preserves-skip
  messages-Fits (msg ∷ msgs) =
      Preserves-bind _ _ (Preserves-if _ _ _ (move-Fits n msg.id) (text-Fits msg (tg_text msg)))
        λ _. messages-Fits msgs

  new-Fits : (new : List TgMessage) (b : Bridge) → Fits n b → Fits n (poll_new c new b).1
  unfolding poll_new set_state save skip ◌>>=◌
  new-Fits [] b h = h
  new-Fits (newest ∷ older) b h = elim (Bool-cases (eqb b.state.tg_last_id 0)) [
    | inl first ↦ rw first (record { ring = h.ring; onward = ground (arith, h.onward, first) })
    | inr later ↦ rw later (
        (Preserves-bind _ _ (messages-Fits (reverse (newest ∷ older)))
            λ _. save-Preserves (Fits-OnCursors n) c).from
          b h)
  ]

  poll-Fits : (msgs : List (Outcome TgMessage)) → Preserves (Fits n) (tg_poll_once c msgs)
  unfolding tg_poll_once
  poll-Fits msgs =
      Preserves-bind _ _ (Preserves-gets _)
        λ state. Preserves-bind _ _ (outcome_lem _) λ new. record { from = λ b h. new-Fits new b h }

  passes-Fits :
      (msgs : List (Outcome TgMessage))
      → Preserves (Fits n) (do tg_poll_once c msgs; mx_relay_once c)
  passes-Fits msgs =
      Preserves-bind _ _ (poll-Fits msgs)
        λ _. mx_relay_once-Preserves (Fits-OnCursors n) (mark-Fits n) c

-- The file is up to date.
record IsSaved (n : ℕ) (b : Bridge) : Type 0 where
  fits : Fits n b
  same : b.disk ≡ b.state

payload_lem : (s : State) → length s.mx_seen ≤ mx_seen_limit → payload s ≡ s
unfolding payload keep_last
payload_lem s h =
    let within : ltb mx_seen_limit (length s.mx_seen) ≡ false = ground (arith, h) in rw within refl

save_lem : (n : ℕ) (b : Bridge) → Fits n b → IsSaved n (record b { disk = payload b.state })
save_lem n b h = record {
  fits = record { ring = h.ring; onward = h.onward };
  same = payload_lem b.state h.ring;
}

IsSaved-OnCursors : (n : ℕ) → OnCursors (IsSaved n)
IsSaved-OnCursors n = record {
  on_posts = λ b ps h. record { fits = (Fits-OnCursors n).on_posts b ps h.fits; same = h.same };
  on_names = λ b ns h. record { fits = (Fits-OnCursors n).on_names b ns h.fits; same = h.same };
  on_save = λ b h. save_lem n b h.fits;
  on_sync = λ b cur h. record { fits = (Fits-OnCursors n).on_sync b cur h.fits; same = h.same };
}

module _ (n : ℕ) (c : Clients) where
  first_start-IsSaved : Preserves (IsSaved n) (first_start c)
  unfolding first_start
  first_start-IsSaved = Preserves-bind _ _ (Preserves-gets _) cursor_lem
    where
      cursor_lem :
          (cursor : Option String)
          → Preserves (IsSaved n) (on_option cursor (do mx_sync c; skip) (λ since. skip))
      cursor_lem none =
          Preserves-bind _ _ (sync-Preserves (IsSaved-OnCursors n) c) λ _. Preserves-skip
      cursor_lem (some since) = Preserves-skip

  passes-IsSaved :
      (msgs : List (Outcome TgMessage))
      → Preserves (IsSaved n) (try_finally (do tg_poll_once c msgs; mx_relay_once c) save)
  unfolding try_finally save modify
  passes-IsSaved msgs = record { from = λ b h. save_lem n _ ((passes-Fits n c msgs).from b h.fits) }

  once-IsSaved : (msgs : List (Outcome TgMessage)) → Preserves (IsSaved n) (once c msgs)
  unfolding once
  once-IsSaved msgs = Preserves-bind _ _ first_start-IsSaved λ _. passes-IsSaved msgs

load-dumped : (s : State) → load (dumped s) ≡ ok s
unfolding load dumped
load-dumped s = refl

-- After a run that could load its state, with at most 500 events in it, what the next run loads
-- from the file is the state that this one had in memory at its end: also where a pass over one of
-- the sides ended with an exception. The ring is still within 500, and the Telegram cursor has not
-- gone back.
pub run_once-resumes :
    (c : Clients) (msgs : List (Outcome TgMessage)) (file : StateFile) (s : State) (b : Bridge)
    → load file ≡ ok s
    → length s.mx_seen ≤ mx_seen_limit
    → let b' = (run_once c msgs file b).1 in
      (load (dumped b'.disk) ≡ ok b'.state)
      × (length b'.state.mx_seen ≤ mx_seen_limit)
      × (s.tg_last_id ≤ b'.state.tg_last_id)
unfolding run_once ◌>>=◌
run_once-resumes c msgs file s b loaded bounded =
    let h =
      (once-IsSaved s.tg_last_id c msgs).from (record b { state = s; disk = s })
        (record { fits = record { ring = bounded; onward = omega arith }; same = refl }) in
    rw loaded (rw h.same (load-dumped _), h.fits.ring, h.fits.onward)
