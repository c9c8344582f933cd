-- ===== src/Loops/Cursor.antt =====
-- From where the loops ask: their requests to /sync follow the replies.
use shape_rotator_matrix.Base.{
  ℕ, zero, suc, String, ◌≡◌, refl, sym, ap, ◌∙◌, Option, some, List, [], ◌∷◌, if◌then◌else◌,
}
use shape_rotator_matrix.Text.{is_empty}
use shape_rotator_matrix.Exec.{Exec, Stmt, pure, gets, modify, skip, raise, ◌>>=◌, ◌>>◌}
use shape_rotator_matrix.Exec.Rules.{Preserves}
use shape_rotator_matrix.Exec.Triples.{
  Triple, Triple-if, Triple-bind, Triple-preserves, Triple-return,
}
use shape_rotator_matrix.World.{World, Env}
use shape_rotator_matrix.Credentials.{read_text}
use shape_rotator_matrix.Round.{sync_round}
use shape_rotator_matrix.Lobby.Round.{lobby_round}
use shape_rotator_matrix.Loops.{
  Batch, SyncReply, sync_failed, no_dict, batch, Ask, Looping, Source, on_world, ask, keep_next,
  put_since, main_turn, lobby_turn, turns,
}

-- Where the next request starts from, after a reply.
abbrev pub moved : Option String → SyncReply → Option String
moved c sync_failed = c
moved c no_dict = c
moved c (batch d) = if is_empty d.next_batch then c else some d.next_batch

-- The same after all replies; the newest stands first.
abbrev pub position_after : Option String → List Ask → Option String
position_after start [] = start
position_after start (a ∷ past) = moved (position_after start past) a.reply

-- Every request starts where the batches that were taken before it ended, up to the blanks that the
-- reading of the file strips.
abbrev pub IsChain : Option String → List Ask → Type 0
IsChain start [] = Unit
IsChain start (a ∷ past) =
    (read_text a.since ≡ read_text (position_after start past)) × IsChain start past

-- The loop has followed the replies from `start` on, and its file says where it is.
pub record IsFollowing (start : Option String) (x : Looping) : Type 0 where
  pub chain : IsChain start x.asks
  pub file : x.boot.disk.sync_since ≡ position_after start x.asks

module _ (start : Option String) where
  -- After a request, before its reply is taken: the file is one reply behind.
  pub record Asked (since : Option String) (reply : SyncReply) (x : Looping) : Type 0 where
    chain : IsChain start x.asks
    file : moved x.boot.disk.sync_since reply ≡ position_after start x.asks
    here : read_text since ≡ read_text x.boot.disk.sync_since

  pub record At (since : Option String) (x : Looping) : Type 0 where
    pub following : IsFollowing start x
    pub here : read_text since ≡ read_text x.boot.disk.sync_since

  pub ask_triple :
      (c : Source) (since : Option String)
      → Triple (At since) (ask c since) (λ reply x. Asked since reply x) (IsFollowing start)
  unfolding ask gets modify pure ◌>>=◌
  ask_triple c since = record {
    run = λ x h. record {
      chain = (h.here ∙ ap read_text h.following.file, h.following.chain);
      file = ap (λ f. moved f (c.sync x.asks x.world since)) h.following.file;
      here = h.here;
    };
  }

  keep_triple :
      (since : Option String) (d : Batch)
      → Triple
          (Asked since (batch d))
          (keep_next since d.next_batch)
          (λ s x. At s x)
          (IsFollowing start)
  unfolding keep_next put_since modify pure ◌>>=◌
  keep_triple since d =
      Triple-if (is_empty d.next_batch) _ _
        (λ none'. record {
          run = λ x h. record {
            following = record {
              chain = h.chain;
              file =
                  ap (λ b. if b then x.boot.disk.sync_since else some d.next_batch) (sym none')
                  ∙ h.file;
            };
            here = h.here;
          };
        })
        (λ some'. record {
          run = λ x h. record {
            following = record {
              chain = h.chain;
              file =
                  ap (λ b. if b then x.boot.disk.sync_since else some d.next_batch) (sym some')
                  ∙ h.file;
            };
            here = refl;
          };
        })

  Preserves-on_world : (since : Option String) (m : Stmt World) → Preserves (At since) (on_world m)
  unfolding on_world
  Preserves-on_world since m = record {
    from = λ x h. record {
      following = record { chain = h.following.chain; file = h.following.file };
      here = h.here;
    };
  }

  batch_triple :
      (since : Option String) (d : Batch) (m : Stmt World)
      → Triple
          (Asked since (batch d))
          (do since' ← keep_next since d.next_batch; on_world m; pure since')
          (λ s x. At s x)
          (IsFollowing start)
  batch_triple since d m = Triple-bind _ _ (keep_triple since d) λ since'.
      Triple-bind _ _ (Triple-preserves _ (Preserves-on_world since' m) (λ x h. h.following))
        λ _. Triple-return since' (λ x h. h)

  pub main_triple :
      (e : Env) (since : Option String) (reply : SyncReply)
      → Triple (Asked since reply) (main_turn e since reply) (λ s x. At s x) (IsFollowing start)
  unfolding main_turn pure
  main_triple e since sync_failed = record {
    run = λ x h. record { following = record { chain = h.chain; file = h.file }; here = h.here };
  }
  main_triple e since no_dict = record {
    run = λ x h. record { following = record { chain = h.chain; file = h.file }; here = h.here };
  }
  main_triple e since (batch d) = batch_triple since d (sync_round e d.rooms d.chats)

  pub lobby_triple :
      (e : Env) (self : String) (since : Option String) (reply : SyncReply)
      → Triple
          (Asked since reply)
          (lobby_turn e self since reply)
          (λ s x. At s x)
          (IsFollowing start)
  unfolding lobby_turn pure raise
  lobby_triple e self since sync_failed = record {
    run = λ x h. record { following = record { chain = h.chain; file = h.file }; here = h.here };
  }
  lobby_triple e self since no_dict = record {
    run = λ x h. record { chain = h.chain; file = h.file };
  }
  lobby_triple e self since (batch d) = batch_triple since d (lobby_round e self d.rooms d.invites)

  pub turns_triple :
      (c : Source) (turn : Option String → SyncReply → Exec Looping (Option String))
      → ((since : Option String) (reply : SyncReply)
          → Triple (Asked since reply) (turn since reply) (λ s x. At s x) (IsFollowing start))
      → (n : ℕ) (since : Option String)
      → Triple (At since) (turns c turn n since) (λ _ x. IsFollowing start x) (IsFollowing start)
  unfolding turns skip
  turns_triple c turn t zero since = record { run = λ x h. h.following }
  turns_triple c turn t (suc n) since =
      Triple-bind _ _ (ask_triple c since)
        λ reply. Triple-bind _ _ (t since reply) λ since'. turns_triple c turn t n since'
