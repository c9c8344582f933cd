-- ===== src/Sas/Trusted.antt =====
-- Which events mark a device as verified, over any sequence of events.
use shape_rotator_matrix.Base.{
  String, ◌≡◌, refl, sym, ◌⊎◌, inl, inr, Bool-cases, Option-cases, Option, none, some, List, [],
  ◌∷◌, Any,
}
use shape_rotator_matrix.Text.{is_empty}
use shape_rotator_matrix.Dict.{lookup}
use shape_rotator_matrix.Exec.{Stmt, ◌>>=◌, ◌>>◌}
use shape_rotator_matrix.Exec.Rules.{
  Preserves, Preserves-modify, Preserves-bind, Preserves-skip, Preserves-if, Preserves-pure,
  Preserves-gets, Preserves-option,
}
use shape_rotator_matrix.Sas.Session.{
  Content, text_at, verified, Device, Session, Manager, Client, keep_session, handle_request,
}
use shape_rotator_matrix.Sas.Mac.{handle_mac}
use shape_rotator_matrix.Sas.Manager.{
  EventType, request, start, key, mac, cancelled, Event, found_or_new, get_or_create, with_session,
  pop_session, on_request, on_start, on_key, on_mac, on_cancel, handler_of, on_event, run_events,
}
use shape_rotator_matrix.Sas.Vouched.{
  PutsOnly, Vouches, Covered, IsCovered, send_to-IsCovered, handle_start-IsCovered,
  handle_key-IsCovered, handle_mac-IsVouched,
}
use shape_rotator_matrix.Sas.Known.{Opens}
use shape_rotator_matrix.Sas.History.{IsKnown, on_event-IsKnown}

-- In state `w`, the event is a MAC event of a live session of device `d` of user `u` that vouches
-- for the signing key `k`, and an earlier event opened that transaction.
pub record Verifies {D : Type 0} (e : Client D) (history : List Event) (ev : Event) (w : Manager D)
    (u d k : String) : Type 0 where
  pub type : ev.type ≡ mac
  pub session : Session
  pub live : lookup (text_at "transaction_id" ev.content) w.sessions ≡ some session
  pub vouched : Vouches e session ev.content u d k
  pub opened : Any (Opens (text_at "transaction_id" ev.content) u d) history

-- One of the events does so, when it comes.
abbrev pub SomeVerifies :
    {D : Type 0}
    → Client D
    → List Event
    → List Event
    → Manager D
    → String
    → String
    → String
    → Type 0
SomeVerifies e [] history w u d k = ⊥
SomeVerifies e (ev ∷ evs) history w u d k =
    Verifies e history ev w u d k ⊎ SomeVerifies e evs (ev ∷ history) (on_event e ev w).1 u d k

module _ {D : Type 0} (e : Client D) (b : D) (V : String → String → String → Type 0) where
  with_session-IsCovered :
      (c : Content) (f : Session → Stmt (Manager D))
      → ((s : Session) → Preserves (IsCovered e b V) (f s))
      → Preserves (IsCovered e b V) (with_session c f)
  unfolding with_session
  with_session-IsCovered c f keeps =
      Preserves-if (is_empty (text_at "transaction_id" c)) _ _ Preserves-skip (
        Preserves-bind _ _ (Preserves-gets _)
          λ found. Preserves-option found _ _ Preserves-skip keeps)

  pop_session-IsCovered : (txn : String) → Preserves (IsCovered e b V) (pop_session txn)
  unfolding pop_session
  pop_session-IsCovered txn = Preserves-modify _ (λ w h. h)

  get_or_create-IsCovered :
      (c : Content) (sender : String) → Preserves (IsCovered e b V) (get_or_create e c sender)
  unfolding get_or_create keep_session
  get_or_create-IsCovered c sender =
      Preserves-if (is_empty (text_at "transaction_id" c)) _ _ (Preserves-pure _)
        (Preserves-bind _ _ (Preserves-gets _) create_lem)
    where
      create_lem :
          (o : Option Session)
          → Preserves (IsCovered e b V) (found_or_new e (text_at "transaction_id" c) c sender o)
      create_lem (some s) = Preserves-pure _
      create_lem none = Preserves-bind _ _ (Preserves-gets _) λ n.
          Preserves-bind _ _ (Preserves-modify _ (λ w h. h))
            λ _. Preserves-bind _ _ (Preserves-modify _ (λ w h. h)) λ _. Preserves-pure _

  on_request-IsCovered : (ev : Event) → Preserves (IsCovered e b V) (on_request e ev)
  unfolding on_request handle_request
  on_request-IsCovered ev =
      Preserves-bind _ _ (get_or_create-IsCovered _ _)
        λ o. Preserves-option o _ _ Preserves-skip λ s. send_to-IsCovered e b V s _

  on_start-IsCovered : (ev : Event) → Preserves (IsCovered e b V) (on_start e ev)
  unfolding on_start
  on_start-IsCovered ev =
      Preserves-bind _ _ (get_or_create-IsCovered _ _)
        λ o. Preserves-option o _ _ Preserves-skip λ s. handle_start-IsCovered e b V s ev.content

  on_key-IsCovered : (ev : Event) → Preserves (IsCovered e b V) (on_key e ev)
  unfolding on_key
  on_key-IsCovered ev =
      with_session-IsCovered ev.content _ λ s. handle_key-IsCovered e b V s ev.content

  on_cancel-IsCovered : (ev : Event) → Preserves (IsCovered e b V) (on_cancel {D = D} ev)
  unfolding on_cancel
  on_cancel-IsCovered ev =
      Preserves-if (is_empty (text_at "transaction_id" ev.content)) _ _ Preserves-skip
        (pop_session-IsCovered _)

module _ {D : Type 0} (e : Client D) (puts : PutsOnly e) (history : List Event) (ev : Event)
    (w : Manager D) (known : IsKnown e history w) where
  abbrev Now : String → String → String → Type 0
  Now = Verifies e history ev w

  unchanged : Covered e w.store Now w.store
  unchanged u d x found trusted = inl found

  on_mac-IsCovered : ev.type ≡ mac → IsCovered e w.store Now (on_mac e ev w).1
  unfolding on_mac with_session ◌>>=◌
  on_mac-IsCovered is = elim (Bool-cases (is_empty (text_at "transaction_id" ev.content))) [
    | inl empty ↦ rw empty unchanged
    | inr there ↦
        rw there (elim (Option-cases (lookup (text_at "transaction_id" ev.content) w.sessions)) [
          | inl no' ↦ rw no' unchanged
          | inr (s, live) ↦ rw live (λ u d x found trusted.
              elim ((session_lem s).from w (unchanged_by _) u d x found trusted) [
                | inl before ↦ inl before
                | inr v ↦ inr (record {
                  type = is;
                  session = s;
                  live = live;
                  vouched = v;
                  opened = rw (sym (known _ s live).0, v.user, v.device) (known _ s live).1.origin;
                })
              ])
        ])
  ]
    where
      unchanged_by : (V : String → String → String → Type 0) → Covered e w.store V w.store
      unchanged_by V u d x found trusted = inl found

      session_lem :
          (s : Session)
          → Preserves
              (IsCovered e w.store (Vouches e s ev.content))
              (do handle_mac e s ev.content; pop_session (text_at "transaction_id" ev.content))
      session_lem s =
          Preserves-bind _ _ (handle_mac-IsVouched e puts w.store s ev.content)
            λ _. pop_session-IsCovered e w.store (Vouches e s ev.content) _

  on_event-IsCovered : IsCovered e w.store Now (on_event e ev w).1
  unfolding on_event
  on_event-IsCovered = by_type ev.type refl
    where
      by_type : (t : EventType) → ev.type ≡ t → IsCovered e w.store Now (handler_of e t ev w).1
      by_type request is = (on_request-IsCovered e w.store Now ev).from w unchanged
      by_type start is = (on_start-IsCovered e w.store Now ev).from w unchanged
      by_type key is = (on_key-IsCovered e w.store Now ev).from w unchanged
      by_type mac is = on_mac-IsCovered is
      by_type cancelled is = (on_cancel-IsCovered e w.store Now ev).from w unchanged

-- Whatever events come, in whatever order, and whatever fails: a device that is verified in the end
-- was in the store as such before, or one of the events is a MAC event of a session that was live
-- when it came, whose codes agree with the ones that the session computes for exactly the signing key
-- that is stored, and the user of that device had opened the transaction by an earlier event.
pub run_events-Verifies :
    {D : Type 0} (e : Client D)
    → PutsOnly e
    → (evs history : List Event) (w : Manager D) → IsKnown e history w
    → (u d : String) (x : Device) → e.get_device u d (run_events e evs w).store ≡ some x
    → x.trust ≡ verified
    → (e.get_device u d w.store ≡ some x) ⊎ SomeVerifies e evs history w u d x.signing_key
unfolding run_events
run_events-Verifies e puts [] history w known u d x found trusted = inl found
run_events-Verifies e puts (ev ∷ evs) history w known u d x found trusted =
    elim (run_events-Verifies e puts evs (ev ∷ history) (on_event e ev w).1
      (on_event-IsKnown e ev history w known) u d x found trusted) [
        | inl then' ↦ elim (on_event-IsCovered e puts history ev w known u d x then' trusted) [
          | inl before ↦ inl before
          | inr now ↦ inr (inl now)
        ]
        | inr later ↦ inr (inr later)
      ]
