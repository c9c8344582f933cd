-- ===== src/Sas/History.antt =====
-- Where the sessions come from, over any sequence of events.
use shape_rotator_matrix.Base.{
  ℕ, suc, String, ◌≡◌, refl, ◌⊎◌, inl, inr, Bool-cases, Option-cases, List, [], ◌∷◌, Any,
}
use shape_rotator_matrix.Text.{is_empty}
use shape_rotator_matrix.Dict.{lookup}
use shape_rotator_matrix.Exec.{Stmt, skip, ◌>>=◌, on_option}
use shape_rotator_matrix.Exec.Rules.{Preserves, Preserves-bind, Preserves-skip, Preserves-if}
use shape_rotator_matrix.Sas.Session.{
  Content, text_at, Session, Manager, Client, keep_session, handle_request,
}
use shape_rotator_matrix.Sas.Manager.{
  EventType, request, start, key, mac, cancelled, Event, new_session, get_or_create, with_session,
  on_request, on_start, on_key, on_mac, on_cancel, handler_of, on_event, run_events,
}
use shape_rotator_matrix.Sas.Known.{
  Opens, Fits, AllFit, keep_session-AllFit, pop_session-AllFit, send_to-AllFit, handle_start-AllFit,
  handle_key-AllFit, handle_mac-AllFit,
}

module _ {D : Type 0} (e : Client D) (O : String → String → String → Type 0) where
  with_session-AllFit :
      (c : Content) (f : Session → Stmt (Manager D))
      → ((s : Session) → Fits e O s → Preserves (AllFit e O) (f s))
      → Preserves (AllFit e O) (with_session c f)
  unfolding with_session ◌>>=◌
  with_session-AllFit c f keeps =
      Preserves-if (is_empty (text_at "transaction_id" c)) _ _ Preserves-skip (record {
        from = λ w h. elim (Option-cases (lookup (text_at "transaction_id" c) w.sessions)) [
          | inl no' ↦ rw no' h
          | inr (s, yes') ↦ rw yes' ((keeps s (h _ s yes').1).from w h)
        ];
      })

  module _ (ev : Event)
      (new : O
        (text_at "transaction_id" ev.content)
        ev.sender
        (text_at "from_device" ev.content)) where
    abbrev session_of : (Session → Stmt (Manager D)) → Stmt (Manager D)
    session_of f = do s ← get_or_create e ev.content ev.sender; on_option s skip f

    new_session-Fits :
        (n : ℕ)
        → Fits e O (new_session e (text_at "transaction_id" ev.content) ev.content ev.sender n)
    unfolding new_session
    new_session-Fits n = record { origin = new; our_user = refl; our_device = refl }

    session_of-AllFit :
        (f : Session → Stmt (Manager D))
        → ((s : Session) → Fits e O s → Preserves (AllFit e O) (f s))
        → Preserves (AllFit e O) (session_of f)
    unfolding get_or_create keep_session ◌>>=◌
    session_of-AllFit f keeps = record {
      from = λ w h. elim (Bool-cases (is_empty (text_at "transaction_id" ev.content))) [
        | inl empty ↦ rw empty h
        | inr there ↦
            rw there
              (elim (Option-cases (lookup (text_at "transaction_id" ev.content) w.sessions)) [
                | inl no' ↦ rw no' (
                    let made = record w { made = suc w.made } in
                    let s =
                      new_session e (text_at "transaction_id" ev.content) ev.content ev.sender
                        w.made in
                    let fits = new_session-Fits w.made in
                    (keeps s fits).from (keep_session s made).1
                      ((keep_session-AllFit e O s fits).from made h))
                | inr (s, yes') ↦ rw yes' ((keeps s (h _ s yes').1).from w h)
              ])
      ];
    }

    on_request-AllFit : Preserves (AllFit e O) (on_request e ev)
    unfolding on_request handle_request
    on_request-AllFit = session_of-AllFit _ λ s fits. send_to-AllFit e O s _

    on_start-AllFit : Preserves (AllFit e O) (on_start e ev)
    unfolding on_start
    on_start-AllFit = session_of-AllFit _ λ s fits. handle_start-AllFit e O s fits ev.content

  on_key-AllFit : (ev : Event) → Preserves (AllFit e O) (on_key e ev)
  unfolding on_key
  on_key-AllFit ev =
      with_session-AllFit ev.content _ λ s fits. handle_key-AllFit e O s fits ev.content

  on_mac-AllFit : (ev : Event) → Preserves (AllFit e O) (on_mac e ev)
  unfolding on_mac
  on_mac-AllFit ev = with_session-AllFit ev.content _ λ s fits.
      Preserves-bind _ _ (handle_mac-AllFit e O s fits ev.content) λ _. pop_session-AllFit e O _

  on_cancel-AllFit : (ev : Event) → Preserves (AllFit e O) (on_cancel {D = D} ev)
  unfolding on_cancel
  on_cancel-AllFit ev =
      Preserves-if (is_empty (text_at "transaction_id" ev.content)) _ _ Preserves-skip
        (pop_session-AllFit e O _)

-- Of every session of the table an event of the history, newest first, has opened the transaction.
abbrev pub IsKnown : {D : Type 0} → Client D → List Event → Manager D → Type 0
IsKnown e history = AllFit e (λ txn u d. Any (Opens txn u d) history)

-- The events so far, newest first.
abbrev pub history_after : List Event → List Event → List Event
history_after [] history = history
history_after (ev ∷ evs) history = history_after evs (ev ∷ history)

module _ {D : Type 0} (e : Client D) where
  longer_lem :
      (ev : Event) (history : List Event) (w : Manager D)
      → IsKnown e history w
      → IsKnown e (ev ∷ history) w
  longer_lem ev history w h txn s found =
      let (same, fits) = h txn s found in
      (
        same,
        record { origin = inr fits.origin; our_user = fits.our_user; our_device = fits.our_device },
      )

  pub on_event-IsKnown :
      (ev : Event) (history : List Event) (w : Manager D)
      → IsKnown e history w
      → IsKnown e (ev ∷ history) (on_event e ev w).1
  unfolding on_event
  on_event-IsKnown ev history w h = by_type ev.type refl
    where
      O : String → String → String → Type 0
      O txn u d = Any (Opens txn u d) (ev ∷ history)

      opens :
          (ev.type ≡ request) ⊎ (ev.type ≡ start)
          → O (text_at "transaction_id" ev.content) ev.sender (text_at "from_device" ev.content)
      opens kind = inl (record { type = kind; txn_id = refl; sender = refl; device = refl })

      by_type : (t : EventType) → ev.type ≡ t → IsKnown e (ev ∷ history) (handler_of e t ev w).1
      by_type request is =
          ((on_request-AllFit e O ev (opens (inl is))).from w (longer_lem ev history w h))
      by_type start is =
          ((on_start-AllFit e O ev (opens (inr is))).from w (longer_lem ev history w h))
      by_type key is = ((on_key-AllFit e O ev).from w (longer_lem ev history w h))
      by_type mac is = ((on_mac-AllFit e O ev).from w (longer_lem ev history w h))
      by_type cancelled is = ((on_cancel-AllFit e O ev).from w (longer_lem ev history w h))

  -- Whatever events come, in whatever order, and whatever fails: every session of the table stands
  -- under its own transaction id, carries the bot's own identity, and belongs to the user and the
  -- device of an earlier request or start event with that id.
  pub run_events-IsKnown :
      (evs history : List Event) (w : Manager D)
      → IsKnown e history w
      → IsKnown e (history_after evs history) (run_events e evs w)
  unfolding run_events
  run_events-IsKnown [] history w h = h
  run_events-IsKnown (ev ∷ evs) history w h =
      run_events-IsKnown evs (ev ∷ history) (on_event e ev w).1 (on_event-IsKnown ev history w h)
