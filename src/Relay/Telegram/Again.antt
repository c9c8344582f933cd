-- ===== src/Relay/Telegram/Again.antt =====
-- What a second poll does with messages that a first one has seen.
use shape_rotator_matrix.Base.{
  ℕ, ◌≤◌, ◌<◌, String, ◌≡◌, ◌⊎◌, refl, true, false, Bool, Option, none, some, List, [], ◌∷◌, ◌++◌,
  reverse, reverse-cons, arith, Bool-cases, inl, inr, leb, eqb, if◌then◌else◌,
}
use shape_rotator_matrix.Exec.{
  Outcome, ok, raised, Stmt, pure, raise, gets, modify, ◌>>=◌, skip, from_outcome,
}
use shape_rotator_matrix.Exec.Triples.{Triple, Triple-bind, Triple-gets}
use shape_rotator_matrix.Exec.Triples
use shape_rotator_matrix.Relay.State.{advance}
use shape_rotator_matrix.Relay.Bodies.{TgMessage, tg_text, sender_name, relayed}
use shape_rotator_matrix.Relay.Bridge.{
  Post, to_matrix, Bridge, Clients, set_state, save, send, mx_send_relay,
}
use shape_rotator_matrix.Relay.Telegram.{
  newer, with_message, is_own, move_cursor, forward, by_text, poll_message, poll_messages, poll_new,
  tg_poll_once,
}

-- The post of a text of the message does not fail, whenever it is tried.
pub record GetsThrough (c : Clients) (text : String) : Type 0 where
  pub no_error :
      (posts : List Post) (sender : String)
      → c.post_error posts (to_matrix (relayed sender text)) ≡ none

-- The message does not hold up the cursor.
abbrev pub IsPassed : Clients → TgMessage → Type 0
IsPassed c msg =
    (is_own c msg ≡ true)
    ⊎ ((tg_text msg ≡ none) ⊎ ((text : String) × (tg_text msg ≡ some text) × GetsThrough c text))

module _ (c : Clients) (msg : TgMessage) where
  -- Nothing is known before, and nothing after a raise.
  abbrev Any : Bridge → Type 0
  Any b = Unit

  abbrev Passed : Bridge → Type 0
  Passed b = msg.id ≤ b.state.tg_last_id

  move_passes : Triple Any (move_cursor msg.id) (λ _ b. Passed b) Any
  unfolding move_cursor set_state advance gets modify ◌>>=◌
  move_passes = record { run = λ b h. ground arith }

  forward_passes :
      (sender text : String)
      → GetsThrough c text
      → Triple Any (forward c msg sender text) (λ _ b. Passed b) Any
  unfolding forward mx_send_relay send move_cursor set_state save advance ◌>>=◌
  forward_passes sender text through = record {
    run = λ b h. rw (through.no_error b.posts sender) (ground arith);
  }

  sender_passes :
      (text : String) (r : Outcome (Option (Option String × Option String)))
      → GetsThrough c text
      → Triple Any
          (do sender ← from_outcome r; forward c msg (sender_name sender msg.sender_id) text)
          (λ _ b. Passed b)
          Any
  unfolding raise pure ◌>>=◌
  sender_passes text (raised x) through = record { run = λ b h. tt }
  sender_passes text (ok sender) through = record {
    run = (forward_passes (sender_name sender msg.sender_id) text through).run;
  }

  text_passes :
      (text : Option String)
      → (text ≡ none) ⊎ ((t : String) × (text ≡ some t) × GetsThrough c t)
      → Triple Any (by_text c msg text) (λ _ b. Passed b) Any
  text_passes none h = move_passes
  text_passes (some text) (inl no') = cc no'
  text_passes (some text) (inr (t, same, through)) =
      Triple-bind {Q = λ posts b. Any b} _ _ (Triple-gets (λ b. b.posts) (λ b h. tt)) λ posts.
        sender_passes text (c.get_sender posts msg)
          (record { no_error = λ ps sender. cc (same, through.no_error ps sender) })

  message_passes : IsPassed c msg → Triple Any (poll_message c msg) (λ _ b. Passed b) Any
  unfolding poll_message
  message_passes (inl own) = rw own move_passes
  message_passes (inr h) = own_lem (is_own c msg)
    where
      own_lem :
          (own : Bool)
          → Triple Any
              (if own then move_cursor msg.id else by_text c msg (tg_text msg))
              (λ _ b. Passed b)
              Any
      own_lem true = move_passes
      own_lem false = text_passes (tg_text msg) h

  any_lem : (m : Stmt Bridge) → Triple Any m (λ _ b. Any b) Any
  any_lem m = record { run = λ b h. end_lem (m b) }
    where
      end_lem : (r : Outcome Unit × Bridge) → Triples.Post (λ _ b. Any b) Any r
      end_lem (ok t, b) = tt
      end_lem (raised x, b) = tt

  messages_pass :
      (msgs : List TgMessage)
      → IsPassed c msg
      → Triple Any (poll_messages c (msgs ++ msg ∷ [])) (λ _ b. Passed b) Any
  unfolding poll_messages skip ◌>>=◌
  messages_pass [] h =
      Triple-bind {Q = λ _ b. Passed b} _ _ (message_passes h) λ _. record { run = λ b g. g }
  messages_pass (m ∷ msgs) h =
      Triple-bind {Q = λ _ b. Any b} _ _ (any_lem (poll_message c m)) λ _. messages_pass msgs h

new_passes :
    (c : Clients) (newest : TgMessage) (older : List TgMessage) (b : Bridge)
    → IsPassed c newest
    → Triples.Post
        (λ _ b'. newest.id ≤ b'.state.tg_last_id)
        (λ _. Unit)
        (poll_new c (newest ∷ older) b)
unfolding poll_new set_state save gets modify ◌>>=◌
new_passes c newest older b h = elim (Bool-cases (eqb b.state.tg_last_id 0)) [
  | inl first ↦ rw first (omega arith)
  | inr later ↦
      rw (later, reverse-cons newest older)
        (end_lem (poll_messages c (reverse older ++ newest ∷ []) b)
          ((messages_pass c newest (reverse older) h).run b tt))
]
  where
    end_lem :
        (r : Outcome Unit × Bridge)
        → Triples.Post (λ _ b'. newest.id ≤ b'.state.tg_last_id) (λ _. Unit) r
        → Triples.Post
            (λ _ b'. newest.id ≤ b'.state.tg_last_id)
            (λ _. Unit)
            (((λ _. r) >>= λ _. save) b)
    end_lem (ok t, b') g = g
    end_lem (raised x, b') g = g

once_passes :
    (c : Clients) (newest : TgMessage) (older : List (Outcome TgMessage)) (b : Bridge)
    → IsPassed c newest
    → b.state.tg_last_id < newest.id
    → Triples.Post
        (λ _ b'. newest.id ≤ b'.state.tg_last_id)
        (λ _. Unit)
        (tg_poll_once c (ok newest ∷ older) b)
unfolding tg_poll_once newer gets raise pure ◌>>=◌
once_passes c newest older b h new =
    let go_on : leb newest.id b.state.tg_last_id ≡ false = ground arith in
    rw go_on (fetched_lem (newer b.state.tg_last_id older))
  where
    fetched_lem :
        (rest : Outcome (List TgMessage))
        → Triples.Post
            (λ _ b'. newest.id ≤ b'.state.tg_last_id)
            (λ _. Unit)
            ((do ms ← from_outcome (with_message newest rest); poll_new c ms) b)
    fetched_lem (ok rest) = new_passes c newest rest b h
    fetched_lem (raised x) = tt

nothing_newer :
    (c : Clients) (msg : TgMessage) (older : List (Outcome TgMessage)) (b : Bridge)
    → msg.id ≤ b.state.tg_last_id
    → tg_poll_once c (ok msg ∷ older) b ≡ (ok tt, b)
unfolding tg_poll_once newer poll_new skip gets pure ◌>>=◌
nothing_newer c msg older b h =
    let stop : leb msg.id b.state.tg_last_id ≡ true = ground arith in rw stop refl

returned_lem :
    (n : ℕ) (r : Outcome Unit × Bridge)
    → r.0 ≡ ok tt
    → Triples.Post (λ _ b'. n ≤ b'.state.tg_last_id) (λ _. Unit) r
    → n ≤ r.1.state.tg_last_id
returned_lem n (ok t, b) e h = h
returned_lem n (raised x, b) e h = cc e

-- Where a poll returns, and its newest message was new and is own, without a text, or with a text
-- whose post gets through: a second poll over the same messages does nothing at all. What was
-- forwarded is not forwarded twice, and an older message whose post failed is not tried again.
pub tg_poll_once_again :
    (c : Clients) (newest : TgMessage) (older : List (Outcome TgMessage)) (b : Bridge)
    → IsPassed c newest
    → b.state.tg_last_id < newest.id
    → (tg_poll_once c (ok newest ∷ older) b).0 ≡ ok tt
    → let b1 = (tg_poll_once c (ok newest ∷ older) b).1 in
      tg_poll_once c (ok newest ∷ older) b1 ≡ (ok tt, b1)
tg_poll_once_again c newest older b h new returns = nothing_newer c newest older _ (
    returned_lem newest.id (tg_poll_once c (ok newest ∷ older) b) returns
      (once_passes c newest older b h new))
