-- ===== src/Lobby/Join/Settles.antt =====
-- The reply of /join/api against what the request wrote.
use shape_rotator_matrix.Base.{
  ℕ, String, ◌≡◌, false, Option, none, some, arith, Bool-cases, inl, inr,
}
use shape_rotator_matrix.Text.{strip, is_empty}
use shape_rotator_matrix.Dict.{set}
use shape_rotator_matrix.Exec.{◌>>=◌, pure}
use shape_rotator_matrix.Exec.Rules.{Preserves, preserves_rules}
use shape_rotator_matrix.Exec.Triples.{Triple, Post, Triple-bind, Triple-preserves}
use shape_rotator_matrix.World.{World, Env, audit, save_codes, save_lobby, clock}
use shape_rotator_matrix.World.Frames.{
  SameFiles, SameFiles-refl, SameFiles-OnFiles, Preserves-audit, Preserves-post, Preserves-draw,
}
use shape_rotator_matrix.Haiku.{fetch_wiki_challenge}
use shape_rotator_matrix.Haiku.Files.{Preserves-fetch_wiki_challenge}
use shape_rotator_matrix.Codes.{is_dead, spend}
use shape_rotator_matrix.Lobby.Join.{
  JoinReply, bad_json, missing_code, invalid_code, create_failed, joined, rand_alias_suffix,
  create_lobby_room_raw, new_lobby, commit_join, try_create, finish_join, join_handler,
}

-- Between the two worlds one use of the code was spent and one empty lobby room was opened.
pub record Opened (code alias room title keyword : String) (a b : World) : Type 0 where
  pub now : ℕ
  pub live : is_dead code a.codes ≡ false
  pub spent : b.codes ≡ spend code a.codes
  pub opened : b.lobby ≡ set room (new_lobby alias code now title keyword) a.lobby
  pub signup : b.signup ≡ a.signup
  pub vetting : b.vetting ≡ a.vetting

-- What a reply says of the state files.
abbrev pub Wrote : String → World → JoinReply → World → Type 0
Wrote code a (joined alias room title keyword) b = Opened code alias room title keyword a b
Wrote code a bad_json b = SameFiles a b
Wrote code a missing_code b = SameFiles a b
Wrote code a invalid_code b = SameFiles a b
Wrote code a create_failed b = SameFiles a b

module _ (e : Env) (code : String) (a : World) where
  Preserves-rand_alias_suffix : Preserves (SameFiles a) (rand_alias_suffix e)
  unfolding rand_alias_suffix
  Preserves-rand_alias_suffix = search (preserves_rules, Preserves-draw, SameFiles-OnFiles a)

  Preserves-create_lobby_room_raw : Preserves (SameFiles a) (create_lobby_room_raw e)
  unfolding create_lobby_room_raw
  Preserves-create_lobby_room_raw =
      search (preserves_rules, Preserves-post, Preserves-rand_alias_suffix, SameFiles-OnFiles a)

  Preserves-try_create : Preserves (SameFiles a) (try_create e code)
  unfolding try_create
  Preserves-try_create =
      search
        (preserves_rules, Preserves-create_lobby_room_raw, Preserves-audit, SameFiles-OnFiles a)

  module _ (live : is_dead code a.codes ≡ false) where
    commit_lem :
        (title keyword room alias : String) (s : World)
        → SameFiles a s
        → Post
            (Wrote code a)
            (SameFiles a)
            (commit_join e a.codes code title keyword (room, alias) s)
    unfolding commit_join save_codes save_lobby clock audit ◌>>=◌
    commit_lem title keyword room alias s h = record {
      now = e.now s.trace;
      live = live;
      spent = ground arith;
      opened = ground arith;
      signup = ground arith;
      vetting = ground arith;
    }

    finish_triple :
        (title keyword : String) (made : Option (String × String))
        → Triple
            (SameFiles a)
            (finish_join e a.codes code title keyword made)
            (Wrote code a)
            (SameFiles a)
    unfolding pure
    finish_triple title keyword none = record { run = λ s h. h }
    finish_triple title keyword (some (room, alias)) = record {
      run = commit_lem title keyword room alias;
    }

    live_triple :
        Triple
          (SameFiles a)
          (do
            (title, keyword) ← fetch_wiki_challenge e
            made ← try_create e code
            finish_join e a.codes code title keyword made)
          (Wrote code a)
          (SameFiles a)
    live_triple =
        Triple-bind _ _
          (Triple-preserves _ (Preserves-fetch_wiki_challenge (SameFiles-OnFiles a) e) (λ s h. h))
          (λ (title, keyword).
            Triple-bind _ _ (Triple-preserves _ Preserves-try_create (λ s h. h))
              (λ made. finish_triple title keyword made))

-- A request to /join/api that is answered with a room has spent exactly one use of a live code and
-- opened exactly that room; every other answer, and an exception, leaves all state files as they
-- were. This holds whatever the servers reply.
pub join_handler-Wrote :
    (e : Env) (raw : String) (w : World)
    → Post (Wrote (strip raw) w) (SameFiles w) (join_handler e (some raw) w)
unfolding join_handler ◌>>=◌
join_handler-Wrote e raw w = elim (Bool-cases (is_empty (strip raw))) [
  | inl blank ↦ rw blank (SameFiles-refl w)
  | inr given ↦ rw given (elim (Bool-cases (is_dead (strip raw) w.codes)) [
    | inl dead ↦ rw dead (unfold audit in ground arith)
    | inr live ↦ rw live ((live_triple e (strip raw) w live).run w (SameFiles-refl w))
  ])
]
