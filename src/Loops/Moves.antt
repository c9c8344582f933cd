-- ===== src/Loops/Moves.antt =====
-- What the loops do to places while no admin writes.
use shape_rotator_matrix.Base.{
  ℕ, zero, suc, String, Option, none, some, List, All, All-map, if◌then◌else◌,
}
use shape_rotator_matrix.Text.{is_empty}
use shape_rotator_matrix.Exec.{
  Outcome, ok, raised, Exec, Stmt, pure, gets, modify, skip, ◌>>=◌, ◌>>◌, from_outcome, on_option,
}
use shape_rotator_matrix.Exec.Rules.{
  Preserves, Preserves-bind, Preserves-pure, Preserves-raise, Preserves-gets, Preserves-skip,
  Preserves-if, preserves_rules,
}
use shape_rotator_matrix.Exec.Triples.{
  Triple, Triple-if, Triple-bind, Triple-preserves, Triple-use, after,
}
use shape_rotator_matrix.World.{World, Env}
use shape_rotator_matrix.Credentials.{Server, Boot}
use shape_rotator_matrix.Round.{sync_round}
use shape_rotator_matrix.Round.Uses.{IsOutsider, sync_round-Refines}
use shape_rotator_matrix.Lobby.Round.{lobby_round}
use shape_rotator_matrix.Places.Refines.{Refines, Refines-refl, Refines-trans}
use shape_rotator_matrix.System.{stop, step, lobby_sync}
use shape_rotator_matrix.System.Uses.{Steps-Refines}
use shape_rotator_matrix.Loops.{
  Batch, SyncReply, sync_failed, no_dict, batch, Ask, Looping, Source, on_world, on_boot, ask,
  keep_next, put_since, main_turn, lobby_turn, turns, position, lobby_whoami, lobby_sync_loop,
  sync_loop,
}

-- Whoever writes in a reply is an outsider.
abbrev pub IsQuiet : Env → SyncReply → Type 0
IsQuiet e sync_failed = Unit
IsQuiet e no_dict = Unit
IsQuiet e (batch d) = All (λ chat. IsOutsider e chat.sender) d.chats

module _ (a : World) where
  -- From the state files that the loop found.
  abbrev Reached : Looping → Type 0
  Reached x = Refines a x.world

  Preserves-on_world :
      (m : Stmt World) → ((w : World) → Refines w (m w).1) → Preserves Reached (on_world m)
  unfolding on_world
  Preserves-on_world m h = record { from = λ x g. Refines-trans g (h x.world) }

  Preserves-on_boot : (m : Stmt Boot) → Preserves Reached (on_boot m)
  unfolding on_boot
  Preserves-on_boot m = record { from = λ x g. g }

  Preserves-keep_next :
      (since : Option String) (next_batch : String) → Preserves Reached (keep_next since next_batch)
  unfolding keep_next put_since modify pure ◌>>=◌
  Preserves-keep_next since next_batch =
      Preserves-if (is_empty next_batch) _ _ (record { from = λ x g. g })
        (record { from = λ x g. g })

  Preserves-from_outcome : {A : Type 0} (r : Outcome A) → Preserves Reached (from_outcome r)
  Preserves-from_outcome (ok v) = Preserves-pure v
  Preserves-from_outcome (raised x) = Preserves-raise x

  Preserves-lobby_whoami : (c : Source) → Preserves Reached (lobby_whoami c)
  unfolding lobby_whoami
  Preserves-lobby_whoami c = search (preserves_rules, Preserves-from_outcome)

  Preserves-batch :
      (since : Option String) (d : Batch) (m : Stmt World)
      → ((w : World) → Refines w (m w).1)
      → Preserves Reached (do since' ← keep_next since d.next_batch; on_world m; pure since')
  Preserves-batch since d m h =
      Preserves-bind _ _ (Preserves-keep_next since d.next_batch)
        λ since'. Preserves-bind _ _ (Preserves-on_world m h) λ _. Preserves-pure since'

  Preserves-main_turn :
      (e : Env) (since : Option String) (reply : SyncReply)
      → IsQuiet e reply
      → Preserves Reached (main_turn e since reply)
  unfolding main_turn
  Preserves-main_turn e since sync_failed h = Preserves-pure since
  Preserves-main_turn e since no_dict h = Preserves-pure since
  Preserves-main_turn e since (batch d) h =
      Preserves-batch since d (sync_round e d.rooms d.chats)
        (λ w. sync_round-Refines e d.rooms d.chats w h)

  Preserves-lobby_turn :
      (e : Env) (self : String) (since : Option String) (reply : SyncReply)
      → Preserves Reached (lobby_turn e self since reply)
  unfolding lobby_turn
  Preserves-lobby_turn e self since sync_failed = Preserves-pure since
  Preserves-lobby_turn e self since no_dict = Preserves-raise _
  Preserves-lobby_turn e self since (batch d) =
      Preserves-batch since d (lobby_round e self d.rooms d.invites)
        (λ w. Steps-Refines {e = e} (step (lobby_sync self d.rooms d.invites w) (stop _)))

  -- What every reply of the homeserver satisfies holds of the one that comes.
  ask_triple :
      (c : Source) (Q : SyncReply → Type 0)
      → ((past : List Ask) (w : World) (since : Option String) → Q (c.sync past w since))
      → (since : Option String)
      → Triple Reached (ask c since) (λ reply x. Reached x × Q reply) Reached
  unfolding ask gets modify pure ◌>>=◌
  ask_triple c Q h since = record { run = λ x g. (g, h x.asks x.world since) }

  turns_triple :
      (c : Source) (turn : Option String → SyncReply → Exec Looping (Option String))
      (Q : SyncReply → Type 0)
      → ((past : List Ask) (w : World) (since : Option String) → Q (c.sync past w since))
      → ((since : Option String) (reply : SyncReply)
          → Q reply
          → Preserves Reached (turn since reply))
      → (n : ℕ) (since : Option String)
      → Triple Reached (turns c turn n since) (λ _ x. Reached x) Reached
  unfolding turns
  turns_triple c turn Q all k zero since = Triple-preserves _ Preserves-skip (λ x h. h)
  turns_triple c turn Q all k (suc n) since = Triple-bind _ _ (ask_triple c Q all since) λ reply.
      Triple-use λ quiet.
        Triple-bind _ _ (Triple-preserves _ (k since reply quiet) (λ x h. h))
          λ since'. turns_triple c turn Q all k n since'

  begin_triple :
      (m : Option String → Stmt Looping)
      → ((since : Option String) → Triple Reached (m since) (λ _ x. Reached x) Reached)
      → Triple Reached
          (do since ← gets (λ x. position x.boot.disk.sync_since); m since)
          (λ _ x. Reached x)
          Reached
  begin_triple m t = Triple-bind _ _ (Triple-preserves _ (Preserves-gets _) (λ x h. h)) t

  main_loop_triple :
      (e : Env) (c : Source) (s : Server) (n : ℕ)
      → ((past : List Ask) (w : World) (since : Option String) → IsQuiet e (c.sync past w since))
      → Triple Reached (sync_loop e c s n) (λ _ x. Reached x) Reached
  unfolding sync_loop
  main_loop_triple e c s n quiet =
      Triple-bind _ _ (Triple-preserves _ (Preserves-gets _) (λ x h. h)) λ i.
        Triple-bind _ _ (Triple-preserves _ (Preserves-on_boot _) (λ x h. h)) λ _. begin_triple _ (
          turns_triple c _ (IsQuiet (record e { our_mxid = i.0 }))
            (λ past w since. quiet_lem i.0 (c.sync past w since) (quiet past w since))
            (Preserves-main_turn _) n)
    where
      quiet_lem :
          (mxid : String) (reply : SyncReply)
          → IsQuiet e reply
          → IsQuiet (record e { our_mxid = mxid }) reply
      quiet_lem mxid sync_failed h = tt
      quiet_lem mxid no_dict h = tt
      quiet_lem mxid (batch d) h =
          All-map d.chats (λ chat g. record { unlisted = g.unlisted; low = g.low }) h

  found_triple :
      (e : Env) (c : Source) (n : ℕ) (found : Option String)
      → Triple Reached
          (on_option found skip (λ self. if is_empty self then skip else do
            since ← gets (λ x. position x.boot.disk.sync_since)
            turns c (lobby_turn e self) n since))
          (λ _ x. Reached x)
          Reached
  found_triple e c n none = Triple-preserves _ Preserves-skip (λ x h. h)
  found_triple e c n (some self) =
      Triple-if (is_empty self) _ _ (λ h. Triple-preserves _ Preserves-skip (λ x h. h))
        (λ h. begin_triple _ (
          turns_triple c _ (λ _. Unit) (λ past w since. tt)
            (λ since reply _. Preserves-lobby_turn e self since reply) n))

  lobby_loop_triple :
      (e : Env) (c : Source) (n : ℕ)
      → Triple Reached (lobby_sync_loop e c n) (λ _ x. Reached x) Reached
  unfolding lobby_sync_loop
  lobby_loop_triple e c n =
      Triple-bind _ _ (Triple-preserves _ (Preserves-lobby_whoami c) (λ x h. h))
        (found_triple e c n)

pub main_loop-Refines :
    (e : Env) (c : Source) (s : Server) (n : ℕ) (x : Looping)
    → ((past : List Ask) (w : World) (since : Option String) → IsQuiet e (c.sync past w since))
    → Refines x.world (sync_loop e c s n x).1.world
main_loop-Refines e c s n x quiet =
    after (sync_loop e c s n) (main_loop_triple x.world e c s n quiet) x (Refines-refl x.world)

pub lobby_loop-Refines :
    (e : Env) (c : Source) (n : ℕ) (x : Looping) → Refines x.world (lobby_sync_loop e c n x).1.world
lobby_loop-Refines e c n x =
    after (lobby_sync_loop e c n) (lobby_loop_triple x.world e c n) x (Refines-refl x.world)
