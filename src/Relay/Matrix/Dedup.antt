-- ===== src/Relay/Matrix/Dedup.antt =====
-- Events that come again, and the size of the ring.
use shape_rotator_matrix.Base.{
  ◌≤◌, String, ◌≡◌, refl, true, false, Option, none, some, List, [], ◌∷◌, length, elem, Bool-cases,
  inl, inr, ◌==◌,
}
use shape_rotator_matrix.Text.{is_empty}
use shape_rotator_matrix.Dict.{Dict}
use shape_rotator_matrix.Exec.{Exn, Outcome, ok, raised, ◌>>=◌}
use shape_rotator_matrix.Exec.Rules.{
  Preserves, preserves_rules, Preserves-bind, Preserves-modify, Preserves-if, Preserves-pure,
  Preserves-gets, Preserves-skip, Preserves-try, Preserves-raise,
}
use shape_rotator_matrix.Relay.State.{mark_mx, payload, mx_seen_limit}
use shape_rotator_matrix.Relay.State.Ring.{length-keep_last, mark_mx-records}
use shape_rotator_matrix.Relay.Bodies.{mx_body}
use shape_rotator_matrix.Relay.Bridge.{
  Post, Bridge, MxEvent, SyncData, Clients, set_state, save, send, or_fail, tg_send_relay,
}
use shape_rotator_matrix.Relay.Matrix.{
  mark, mx_displayname, cached, forward, relay_plain, after_decrypt, open_event, relay_event,
  relay_events, mx_sync, take_data, or_raise, is_message, mx_relay_once,
}

-- The ring in memory and the one on disk are within the limit.
pub record IsBounded (b : Bridge) : Type 0 where
  pub in_memory : length b.state.mx_seen ≤ mx_seen_limit
  pub on_disk : length b.disk.mx_seen ≤ mx_seen_limit

mark-IsBounded : (event_id : String) → Preserves IsBounded (mark event_id)
unfolding mark set_state ◌>>=◌
mark-IsBounded event_id = record {
  from = λ b h. record {
    in_memory = (mark_mx-records event_id b.state h.in_memory).2;
    on_disk = h.on_disk;
  };
}

-- What names, posts, saves and the cursor of /sync leave alone.
pub record OnCursors (Q : Bridge → Type 0) : Type 0 where
  pub on_posts : (b : Bridge) (ps : List Post) → Q b → Q (record b { posts = ps })
  pub on_names : (b : Bridge) (ns : Dict String) → Q b → Q (record b { names = ns })
  pub on_save : (b : Bridge) → Q b → Q (record b { disk = payload b.state })
  pub on_sync : (b : Bridge) (cur : Option String) → Q b → Q (record b { cursor = cur })

module _ {Q : Bridge → Type 0} (q : OnCursors Q) (c : Clients) where
  pub or_fail-Preserves : (x : Option Exn) → Preserves Q (or_fail x)
  or_fail-Preserves none = search preserves_rules
  or_fail-Preserves (some x) = search preserves_rules

  pub send-Preserves : (p : Post) → Preserves Q (send c p)
  unfolding send
  send-Preserves p = record {
    from =
        λ b h. (or_fail-Preserves (c.post_error b.posts p)).from _ (q.on_posts b (p ∷ b.posts) h);
  }

  pub save-Preserves : Preserves Q save
  unfolding save
  save-Preserves = Preserves-modify _ q.on_save

  cached-Preserves :
      (user_id : String) (found : Option String) → Preserves Q (cached c user_id found)
  cached-Preserves user_id (some name) = search preserves_rules
  cached-Preserves user_id none = Preserves-bind _ _ (Preserves-gets _) λ name.
      Preserves-bind _ _ (Preserves-modify _ (λ b h. q.on_names b _ h)) λ _. Preserves-pure _

  forward-Preserves : (ev : MxEvent) (body : Option String) → Preserves Q (forward c ev body)
  unfolding mx_displayname tg_send_relay
  forward-Preserves ev none = search preserves_rules
  forward-Preserves ev (some body) =
      Preserves-bind _ _
        (Preserves-bind _ _ (Preserves-gets _) λ found. cached-Preserves ev.sender found)
        λ name.
          Preserves-bind _ _
            (Preserves-try _ _ (Preserves-bind _ _ (send-Preserves _) λ _. Preserves-pure _)
              (λ x. Preserves-pure _))
            λ sent. Preserves-if _ _ _ save-Preserves Preserves-skip

  pub sync-Preserves : Preserves Q (mx_sync c)
  unfolding mx_sync
  sync-Preserves =
      Preserves-bind _ _ (Preserves-gets _) λ r. Preserves-bind _ _ (raise_lem r) λ d. data_lem d
    where
      raise_lem : (r : Outcome (Option SyncData)) → Preserves Q (or_raise r)
      raise_lem (ok d) = Preserves-pure _
      raise_lem (raised x) = Preserves-raise _

      data_lem : (d : Option SyncData) → Preserves Q (take_data d)
      data_lem none = Preserves-pure _
      data_lem (some d) =
          Preserves-bind _ _
            (Preserves-if _ _ _ (Preserves-modify _ (λ b h. q.on_sync b _ h)) Preserves-skip)
            λ _. Preserves-pure _

IsBounded-OnCursors : OnCursors IsBounded
IsBounded-OnCursors = record {
  on_posts = λ b ps h. record { in_memory = h.in_memory; on_disk = h.on_disk };
  on_names = λ b ns h. record { in_memory = h.in_memory; on_disk = h.on_disk };
  on_save = λ b h. record {
    in_memory = h.in_memory;
    on_disk = unfold payload in length-keep_last mx_seen_limit b.state.mx_seen;
  };
  on_sync = λ b cur h. record { in_memory = h.in_memory; on_disk = h.on_disk };
}

-- A pass over the Matrix side keeps what marks, names, posts, saves and the cursor of /sync keep.
module _ {Q : Bridge → Type 0} (q : OnCursors Q) (marks : (id : String) → Preserves Q (mark id))
    (c : Clients) where
  plain-Preserves : (ev plain : MxEvent) → Preserves Q (relay_plain c ev plain)
  unfolding relay_plain
  plain-Preserves ev plain =
      Preserves-if _ _ _
        (Preserves-bind _ _ (marks ev.event_id)
          λ seen. Preserves-if _ _ _ Preserves-skip (forward-Preserves q c ev _))
        (Preserves-bind _ _ (marks ev.event_id) λ _. Preserves-skip)

  opened-Preserves : (ev : MxEvent) (r : Outcome MxEvent) → Preserves Q (after_decrypt c ev r)
  opened-Preserves ev (ok plain) = plain-Preserves ev plain
  opened-Preserves ev (raised x) = Preserves-bind _ _ (marks ev.event_id) λ _. save-Preserves q c

  event-Preserves : (ev : Option MxEvent) → Preserves Q (relay_event c ev)
  unfolding relay_event
  event-Preserves none = Preserves-skip
  event-Preserves (some ev) = Preserves-if _ _ _ Preserves-skip (
      Preserves-if _ _ _ (Preserves-bind _ _ (marks ev.event_id) λ _. Preserves-skip)
        (Preserves-bind _ _ (Preserves-gets _) λ r. opened-Preserves ev r))

  events-Preserves : (evs : List (Option MxEvent)) → Preserves Q (relay_events c evs)
  unfolding relay_events
  events-Preserves [] = Preserves-skip
  events-Preserves (ev ∷ evs) = Preserves-bind _ _ (event-Preserves ev) λ _. events-Preserves evs

  pub mx_relay_once-Preserves : Preserves Q (mx_relay_once c)
  unfolding mx_relay_once
  mx_relay_once-Preserves =
      Preserves-bind _ _ (sync-Preserves q c)
        λ timeline. Preserves-bind _ _ (events-Preserves timeline) λ _. save-Preserves q c

-- A pass over the Matrix side keeps the ring of events within 500, in memory and in the file,
-- whatever the servers reply, and also where it ends with an exception.
pub mx_relay_once-IsBounded :
    (c : Clients) (b : Bridge) → IsBounded b → IsBounded (mx_relay_once c b).1
mx_relay_once-IsBounded c b h =
    (mx_relay_once-Preserves IsBounded-OnCursors mark-IsBounded c).from b h

-- The event is recorded.
abbrev pub IsSeen : String → Bridge → Type 0
IsSeen event_id b = elem event_id b.state.mx_seen ≡ true

module _ (c : Clients) (ev : MxEvent) where
  -- What holds of the recorded event holds in the end.
  opened_keeps :
      {T : Bridge → Type 0} (q : OnCursors T) (r : Outcome MxEvent) (b : Bridge)
      → T (record b { state = (mark_mx ev.event_id b.state).1 })
      → T (after_decrypt c ev r b).1
  unfolding relay_plain mark set_state save ◌>>=◌
  opened_keeps q (raised x) b h = q.on_save _ h
  opened_keeps q (ok plain) b h = elim (Bool-cases (is_message plain.kind)) [
    | inl yes' ↦ rw yes' (
        (Preserves-if _ _ _ Preserves-skip (forward-Preserves q c ev (mx_body plain.content))).from
          _ h)
    | inr no' ↦ rw no' h
  ]

  opened_silent :
      (r : Outcome MxEvent) (b : Bridge)
      → IsSeen ev.event_id b
      → (after_decrypt c ev r b).1.posts ≡ b.posts
  unfolding relay_plain mark set_state save mark_mx ◌>>=◌
  opened_silent (raised x) b h = refl
  opened_silent (ok plain) b h = elim (Bool-cases (is_message plain.kind)) [
    | inl yes' ↦ rw yes' (rw h refl)
    | inr no' ↦ rw no' refl
  ]

pub event_keeps :
    {T : Bridge → Type 0} (q : OnCursors T) (c : Clients) (ev : MxEvent) (b : Bridge)
    → is_empty ev.event_id ≡ false
    → T (record b { state = (mark_mx ev.event_id b.state).1 })
    → T (relay_event c (some ev) b).1
unfolding relay_event mark set_state ◌>>=◌
event_keeps q c ev b named h = rw named (elim (Bool-cases (ev.sender == c.bot_mxid)) [
  | inl own ↦ rw own h
  | inr foreign ↦ rw foreign (opened_keeps c ev q (open_event c ev b.posts ev.kind) b h)
])

-- An event that is recorded is not posted.
pub event_silent :
    (c : Clients) (ev : MxEvent) (b : Bridge)
    → IsSeen ev.event_id b
    → (relay_event c (some ev) b).1.posts ≡ b.posts
unfolding relay_event mark set_state ◌>>=◌
event_silent c ev b seen = elim (Bool-cases (is_empty ev.event_id)) [
  | inl nameless ↦ rw nameless refl
  | inr named ↦ rw named (elim (Bool-cases (ev.sender == c.bot_mxid)) [
    | inl own ↦ rw own refl
    | inr foreign ↦ rw foreign (opened_silent c ev (open_event c ev b.posts ev.kind) b seen)
  ])
]
