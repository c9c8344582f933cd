-- ===== src/Mx/Marker.antt =====
-- The wake message and its marker, up to `ensure_ready`.
use shape_rotator_matrix.Base.{
  ℕ, String, ◌≡◌, refl, ap, ◌+◌, ◌≤◌, suc, ◌==◌, Bool, true, false, not, ◌||◌, Option, none, some,
  List, [], ◌∷◌, arith, if◌then◌else◌,
}
use shape_rotator_matrix.Text.{is_empty}
use shape_rotator_matrix.Exec.{
  Exn, Outcome, ok, raised, pure, skip, modify, ◌>>=◌, ◌>>◌, from_outcome, from_error, when,
}
use shape_rotator_matrix.Exec.Rules.{
  Preserves, Preserves-pure, Preserves-raise, Preserves-gets, Preserves-if, Preserves-skip,
  Preserves-modify, Preserves-bind,
}
use shape_rotator_matrix.Exec.Triples.{
  Triple, Triple-bind, Triple-if, Triple-raise, Triple-return, Triple-gets, Triple-ends,
  Triple-preserves, after,
}
use shape_rotator_matrix.Mx.Host.{
  SyncData, Call, share_keys, own_keys, generate_recovery_key, sync_call, send_call, messages_call,
  close_session, stop_db, Host, Client,
}
use shape_rotator_matrix.Mx.Session.{
  put_next_batch, request, deliver, take_sync, wake_text, sync_once, bootstrap, send_message, wake,
  ensure_ready,
}

-- How many wake messages have got through, and how often the generation of keys was requested.
abbrev pub wakes : List (String × String) → ℕ
wakes [] = 0
wakes ((room, text) ∷ ds) = (if text == wake_text then 1 else 0) + wakes ds

abbrev pub generated : List Call → ℕ
generated [] = 0
generated (share_keys ∷ cs) = generated cs
generated (own_keys ∷ cs) = generated cs
generated (generate_recovery_key ∷ cs) = suc (generated cs)
generated (sync_call since full ∷ cs) = generated cs
generated (send_call room text ∷ cs) = generated cs
generated (messages_call room n ∷ cs) = generated cs
generated (close_session ∷ cs) = generated cs
generated (stop_db ∷ cs) = generated cs

-- There is room for the wake message that is due as long as the marker is missing, and for `k` more.
abbrev pub HasRoom : ℕ → Host → Type 0
HasRoom k h = wakes h.delivered + (if h.woke then 0 else 1) + k ≤ 1 + generated h.calls

module _ (k : ℕ) where
  pub outcome_lem : {A : Type 0} (r : Outcome A) → Preserves (HasRoom k) (from_outcome r)
  outcome_lem (ok a) = Preserves-pure a
  outcome_lem (raised x) = Preserves-raise x

  pub error_lem : (o : Option Exn) → Preserves (HasRoom k) (from_error {S = Host} o)
  error_lem none = Preserves-skip
  error_lem (some x) = Preserves-raise x

  more_lem : (c : Call) (h : Host) → HasRoom k h → HasRoom k (record h { calls = c ∷ h.calls })
  more_lem share_keys h le = le
  more_lem own_keys h le = le
  more_lem generate_recovery_key h le = omega (arith, le)
  more_lem (sync_call since full) h le = le
  more_lem (send_call room text) h le = le
  more_lem (messages_call room n) h le = le
  more_lem close_session h le = le
  more_lem stop_db h le = le

  pub request-HasRoom : (c : Call) → Preserves (HasRoom k) (request c)
  unfolding request
  request-HasRoom c = Preserves-modify _ (more_lem c)

  pub sync_once-HasRoom : (cl : Client) (full : Bool) → Preserves (HasRoom k) (sync_once cl full)
  unfolding sync_once put_next_batch
  sync_once-HasRoom cl full = Preserves-bind _ _ (Preserves-gets _) λ since.
      Preserves-bind _ _ (Preserves-gets _) λ reply.
        Preserves-bind _ _ (request-HasRoom (sync_call since full))
          λ _. Preserves-bind _ _ (outcome_lem reply) take_lem
    where
      take_lem : (d : Option SyncData) → Preserves (HasRoom k) (take_sync d)
      take_lem none = Preserves-skip
      take_lem (some d) =
          Preserves-bind _ _
            (Preserves-if (not (is_empty d.next_batch)) _ _ (Preserves-modify _ λ h le. le)
              Preserves-skip)
            λ _. Preserves-modify _ λ h le. le

  -- A message with another text.
  pub send_other-HasRoom :
      (cl : Client) (room text : String)
      → (text == wake_text) ≡ false
      → Preserves (HasRoom k) (send_message cl room text)
  unfolding send_message
  send_other-HasRoom cl room text differ = Preserves-bind _ _ (Preserves-gets _) λ reply.
      Preserves-bind _ _ (request-HasRoom (send_call room text)) λ _.
        Preserves-bind _ _ (outcome_lem reply) λ event_id.
          Preserves-bind _ _ (Preserves-modify _ λ h le. rw differ (omega (arith, le)))
            λ _. Preserves-pure _

abbrev slack : Bool → ℕ
slack true = 1
slack false = 0

generate_lem : (h : Host) → HasRoom 0 h → HasRoom 1 (request generate_recovery_key h).1
unfolding request ◌>>=◌
generate_lem h le = omega (arith, le)

-- The state before a wake message that is due.
record IsDue (h : Host) : Type 0 where
  marked : HasRoom 0 h
  due : wakes h.delivered + 1 ≤ 1 + generated h.calls

-- The state after it, before the marker is written.
abbrev IsPaid : Host → Type 0
IsPaid h = wakes h.delivered ≤ 1 + generated h.calls

send_lem : (room : String) (h : Host) → IsDue h → IsDue (request (send_call room wake_text) h).1
unfolding request ◌>>=◌
send_lem room h d = record { marked = d.marked; due = d.due }

deliver_lem :
    (room event_id : String)
    → Triple IsDue (do deliver room wake_text; pure event_id) (λ _. IsPaid) (HasRoom 0)
unfolding ◌>>=◌
deliver_lem room event_id = record { run = λ h d. omega (arith, d.due) }

mark_lem : Triple IsPaid (modify (λ h. record h { woke = true })) (λ _ h. HasRoom 0 h) (HasRoom 0)
unfolding ◌>>=◌
mark_lem = record { run = λ h paid. omega (arith, paid) }

skip_lem : (h : Host) → HasRoom 0 h × (h.woke ≡ true) → HasRoom 0 (skip {S = Host} h).1
unfolding ◌>>=◌
skip_lem h p = p.0

due_lem : (h : Host) → h.woke ≡ false → HasRoom 0 h → wakes h.delivered + 1 ≤ 1 + generated h.calls
due_lem h missing le =
    let same : ◌≡◌ {A = ℕ} (if h.woke then 0 else 1) 1 = ap (λ b. if b then 0 else 1) missing in
    omega (arith, le, same)

module _ (cl : Client) where
  bootstrap-HasRoom :
      Triple (HasRoom 0) (bootstrap cl) (λ just h. HasRoom (slack just) h) (HasRoom 0)
  unfolding bootstrap
  bootstrap-HasRoom = Triple-bind _ _ (Triple-preserves _ (Preserves-gets _) (λ h le. le)) λ error.
      Triple-bind _ _ (Triple-preserves _ (request-HasRoom 0 share_keys) (λ h le. le)) λ _.
        Triple-bind _ _ (Triple-preserves _ (error_lem 0 error) (λ h le. le)) λ _.
          Triple-bind _ _ (Triple-preserves _ (Preserves-gets _) (λ h le. le)) λ reply.
            Triple-bind _ _ (Triple-preserves _ (request-HasRoom 0 own_keys) (λ h le. le)) λ _.
              Triple-bind _ _ (Triple-preserves _ (outcome_lem 0 reply) (λ h le. le)) λ known.
                Triple-if known _ _ (λ _. Triple-return false λ h le. le)
                  λ _. Triple-bind _ _ (Triple-preserves _ (Preserves-gets _) (λ h le. le)) λ reply.
                    Triple-bind _ _ (Triple-ends {Q = HasRoom 1} _ generate_lem weaken) λ _.
                      Triple-bind _ _ (Triple-preserves _ (outcome_lem 1 reply) weaken) λ key.
                        Triple-bind _ _ (Triple-preserves _ (Preserves-modify _ λ h le. le) weaken)
                          λ _. Triple-return true λ h le. le
    where
      weaken : (h : Host) → HasRoom 1 h → HasRoom 0 h
      weaken h le = omega (arith, le)

  wake-HasRoom : (room : String) → Triple IsDue (wake cl room) (λ _ h. HasRoom 0 h) (HasRoom 0)
  unfolding wake send_message
  wake-HasRoom room =
      Triple-bind {Q = λ _ h. IsPaid h} _ _
        (Triple-bind {Q = λ _. IsDue} _ _ (Triple-gets _ λ h d. d) λ reply.
          Triple-bind {Q = λ _. IsDue} _ _ (Triple-ends _ (send_lem room) (λ h d. d.marked)) λ _.
            Triple-bind {Q = λ _. IsDue} _ _ (known_lem reply)
              λ event_id. deliver_lem room event_id)
        λ _.
          Triple-bind {Q = λ _ h. HasRoom 0 h} _ _ mark_lem
            λ _. Triple-preserves _ (sync_once-HasRoom 0 cl false) (λ h le. le)
    where
      known_lem : (r : Outcome String) → Triple IsDue (from_outcome r) (λ _. IsDue) (HasRoom 0)
      known_lem (ok id) = Triple-return id λ h d. d
      known_lem (raised x) = Triple-raise x λ h d. d.marked

  ready_lem :
      (room : String) (just woke : Bool)
      → Triple
          (λ h. HasRoom (slack just) h × (h.woke ≡ woke))
          (when (just || not woke) (wake cl room))
          (λ _ h. HasRoom 0 h)
          (HasRoom 0)
  ready_lem room true woke = record {
    run = λ h p.
        (wake-HasRoom room).run h
          (record { marked = omega (arith, p.0); due = omega (arith, p.0) });
  }
  ready_lem room false true = Triple-ends {Q = HasRoom 0} skip skip_lem (λ h le. le)
  ready_lem room false false = record {
    run = λ h p. (wake-HasRoom room).run h (record { marked = p.0; due = due_lem h p.1 p.0 });
  }

  ensure_ready-HasRoom :
      (room : String) → Triple (HasRoom 0) (ensure_ready cl room) (λ _ h. HasRoom 0 h) (HasRoom 0)
  unfolding ensure_ready
  ensure_ready-HasRoom room = Triple-bind _ _ bootstrap-HasRoom λ just.
      Triple-bind _ _ (Triple-preserves _ (sync_once-HasRoom (slack just) cl true) (weaken just))
        λ _.
          Triple-bind {Q = λ w h. HasRoom (slack just) h × (h.woke ≡ w)} _ _
            (Triple-gets _ λ h le. (le, refl)) λ woke. ready_lem room just woke
    where
      weaken : (just : Bool) (h : Host) → HasRoom (slack just) h → HasRoom 0 h
      weaken true h le = omega (arith, le)
      weaken false h le = le

  pub ready-HasRoom : (room : String) → Preserves (HasRoom 0) (ensure_ready cl room)
  ready-HasRoom room = record { from = λ h le. after _ (ensure_ready-HasRoom room) h le }
