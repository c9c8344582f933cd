-- ===== src/Responder/History.antt =====
-- Whose history the responder takes over, over its whole run.
use shape_rotator_matrix.Base.{
  ℕ, zero, suc, String, ◌≡◌, refl, sym, ap, ◌∙◌, ◌⊎◌, inl, inr, Bool, true, false, not, ◌&&◌,
  Option, none, some, List, [], ◌∷◌, All, Any, arith, ◌==◌, if◌then◌else◌,
}
use shape_rotator_matrix.Text.{is_empty}
use shape_rotator_matrix.Dict.{Dict, lookup, keys, lookup-set_cases}
use shape_rotator_matrix.Exec.{Outcome, ok, raised, Stmt, skip, ◌>>=◌, from_outcome, on_option}
use shape_rotator_matrix.Exec.Rules.{
  Preserves, Preserves-gets, Preserves-if, Preserves-option, Preserves-try, Preserves-skip,
  Preserves-modify, Preserves-bind,
}
use shape_rotator_matrix.Responder.Data.{
  InviteEvent, Message, SyncData, Call, sync_call, Bot, Client,
}
use shape_rotator_matrix.Responder.Loop.{
  is_invite, inviter_in, with_inviter, remember_inviters, command_reply, command_of, send_text,
  on_msg, logged, handle_encrypted, handle_messages, join_room, join_rooms, take_sync, sync_once,
  rounds, main,
}
use shape_rotator_matrix.Responder.Invited.{
  WasInvited, IsVouched, IsSafe, error_lem, calls_lem, on_encrypted-IsSafe,
}

-- A room with an event by which `u` invites the bot.
abbrev Invites : String → String → String → String × List InviteEvent → Type 0
Invites mxid room u (r, evs) =
    (r ≡ room) × Any (λ (ev : InviteEvent). (is_invite mxid ev ≡ true) × (ev.sender ≡ u)) evs

chosen_lem :
    (b : Bool) (x u : String) (rest : Option String)
    → (if b then some x else rest) ≡ some u
    → ((b ≡ true) × (x ≡ u)) ⊎ (rest ≡ some u)
chosen_lem true x u rest h = inl (refl, cc h)
chosen_lem false x u rest h = inr h

inviter_in-some :
    (mxid u : String) (evs : List InviteEvent)
    → inviter_in mxid evs ≡ some u
    → Any (λ (ev : InviteEvent). (is_invite mxid ev ≡ true) × (ev.sender ≡ u)) evs
unfolding inviter_in
inviter_in-some mxid u [] h = cc
inviter_in-some mxid u (ev ∷ evs) h =
    elim (chosen_lem (is_invite mxid ev && not (is_empty ev.sender)) ev.sender u _ h) [
      | inl (yes', same) ↦ inl (ground arith, same)
      | inr later ↦ inr (inviter_in-some mxid u evs later)
    ]

module _ (cl : Client) where
  abbrev AllInvited : Dict String → Type 0
  AllInvited d = (room u : String) → lookup room d ≡ some u → WasInvited cl room u

  remember-AllInvited :
      (rooms : Dict (List InviteEvent)) (d : Dict String)
      → ((room u : String) → Any (Invites cl.mxid room u) rooms → WasInvited cl room u)
      → AllInvited d
      → AllInvited (remember_inviters cl.mxid rooms d)
  unfolding remember_inviters
  remember-AllInvited [] d sub h = h
  remember-AllInvited ((room, evs) ∷ rooms) d sub h =
      remember-AllInvited rooms _ (λ r u m. sub r u (inr m)) (one_lem (inviter_in cl.mxid evs) refl)
    where
      one_lem :
          (o : Option String) → inviter_in cl.mxid evs ≡ o → AllInvited (with_inviter room o d)
      one_lem none is r u found = h r u found
      one_lem (some v) is r u found = elim (lookup-set_cases room r v u d found) [
        | inl (same_room, same) ↦
            sub r u (inl (same_room, inviter_in-some cl.mxid u evs (is ∙ ap some (sym same))))
        | inr before ↦ h r u before
      ]

  logged-IsSafe : (m : Stmt Bot) → Preserves (IsSafe cl) m → Preserves (IsSafe cl) (logged m)
  logged-IsSafe m k = Preserves-try m _ k λ x. Preserves-skip

  send_text-IsSafe : (room text : String) → Preserves (IsSafe cl) (send_text cl room text)
  unfolding send_text
  send_text-IsSafe room text =
      Preserves-bind _ _ (Preserves-gets _)
        λ o. Preserves-bind _ _ (calls_lem cl _) λ _. error_lem cl o

  encrypted-IsSafe : (raws : List String) → Preserves (IsSafe cl) (handle_encrypted cl raws)
  unfolding handle_encrypted
  encrypted-IsSafe [] = Preserves-skip
  encrypted-IsSafe (raw ∷ raws) =
      Preserves-bind _ _ (logged-IsSafe _ (on_encrypted-IsSafe cl raw)) λ _. encrypted-IsSafe raws

  messages-IsSafe : (msgs : List Message) → Preserves (IsSafe cl) (handle_messages cl msgs)
  unfolding handle_messages on_msg
  messages-IsSafe [] = Preserves-skip
  messages-IsSafe (msg ∷ msgs) =
      Preserves-bind _ _
        (logged-IsSafe _ (
          Preserves-if (msg.sender == cl.mxid) _ _ Preserves-skip (
            Preserves-option (command_reply cl.mxid (command_of msg.body)) _ _ Preserves-skip
              λ text. send_text-IsSafe msg.room_id text)))
        λ _. messages-IsSafe msgs

  joins-IsSafe : (rooms : List String) → Preserves (IsSafe cl) (join_rooms cl rooms)
  unfolding join_rooms join_room
  joins-IsSafe [] = Preserves-skip
  joins-IsSafe (room ∷ rooms) =
      Preserves-bind _ _
        (logged-IsSafe _ (
          Preserves-bind _ _ (Preserves-gets _)
            λ o. Preserves-bind _ _ (calls_lem cl _) λ _. error_lem cl o))
        λ _. joins-IsSafe rooms

  take_sync-IsSafe :
      (past : List Call) (since : Option String) (reply : SyncData)
      → cl.sync past since ≡ ok (some reply)
      → Preserves (IsSafe cl) (take_sync cl reply)
  unfolding take_sync
  take_sync-IsSafe past since reply replied =
      Preserves-bind _ _
        (Preserves-if (not (is_empty reply.next_batch)) _ _
          (Preserves-modify _ (λ b h. record { inviters = h.inviters; groups = h.groups }))
          Preserves-skip)
        λ _.
          Preserves-bind _ _
            (Preserves-modify _ (λ b h. record {
              inviters =
                  remember-AllInvited reply.invite b.inviters
                    (λ room u m. record {
                      past = past;
                      since = since;
                      reply = reply;
                      replied = replied;
                      invited = m;
                    })
                    h.inviters;
              groups = h.groups;
            }))
            λ _.
              Preserves-bind _ _
                (Preserves-modify _ (λ b h. record { inviters = h.inviters; groups = h.groups }))
                λ _. Preserves-bind _ _ (encrypted-IsSafe reply.to_device) λ _.
                  Preserves-bind _ _ (messages-IsSafe reply.messages)
                    λ _. joins-IsSafe (keys reply.invite)

  sync_once-IsSafe : (first : Bool) → Preserves (IsSafe cl) (sync_once cl first)
  unfolding sync_once ◌>>=◌
  sync_once-IsSafe first = record {
    from = λ b h.
        let since = if first then none else b.cursor in go b h since (cl.sync b.calls since) refl;
  }
    where
      go :
          (b : Bot)
          → IsSafe cl b
          → (since : Option String) (r : Outcome (Option SyncData)) → cl.sync b.calls since ≡ r
          → IsSafe cl
              ((do data' ← from_outcome r; on_option data' skip (take_sync cl))
                (record b { calls = sync_call since first ∷ b.calls })).1
      go b h since (ok none) is = record { inviters = h.inviters; groups = h.groups }
      go b h since (ok (some reply)) is =
          (take_sync-IsSafe b.calls since reply is).from _
            (record { inviters = h.inviters; groups = h.groups })
      go b h since (raised x) is = record { inviters = h.inviters; groups = h.groups }

  rounds-IsSafe : (n : ℕ) → Preserves (IsSafe cl) (rounds cl n)
  unfolding rounds
  rounds-IsSafe zero = Preserves-skip
  rounds-IsSafe (suc n) =
      Preserves-bind _ _ (logged-IsSafe _ (sync_once-IsSafe false)) λ _. rounds-IsSafe n

  -- Whatever the servers reply and however many rounds the responder runs: every session that a
  -- bundle has put into its crypto store is for the room that the bundle names, and the sender of
  -- the bundle is a user who had invited the bot to that room, by an event of a /sync reply.
  pub main-AllVouched :
      (dm_room intro : String) (n : ℕ) (b : Bot)
      → b.inviters ≡ []
      → b.groups ≡ []
      → All (IsVouched cl) (main cl dm_room intro n b).1.groups
  unfolding main lookup
  main-AllVouched dm_room intro n b fresh none' =
      ((Preserves-bind _ _ (sync_once-IsSafe true) λ _.
          Preserves-bind _ _
            (Preserves-if (not (is_empty dm_room) && not (is_empty intro)) _ _
              (send_text-IsSafe dm_room intro) Preserves-skip)
            λ _. rounds-IsSafe n).from
        b (start_lem b fresh none')).groups
    where
      start_lem : (b : Bot) → b.inviters ≡ [] → b.groups ≡ [] → IsSafe cl b
      start_lem b fresh none' = record {
        inviters = λ room u found. cc (ap (lookup room) fresh, found);
        groups = rw none' tt;
      }
