-- ===== src/Start/Seeding.antt =====
-- What a start of the process leaves in the state files, however it ends.
use shape_rotator_matrix.Base.{
  String, ◌≡◌, refl, ap, ◌∙◌, sym, subst, true, ◌||◌, [], ◌∷◌, arith, eq_iff, eq_refl, ◌⊎◌, inl,
  inr, if◌then◌else◌,
}
use shape_rotator_matrix.Dict.{Dict, lookup, has, has-set, set}
use shape_rotator_matrix.Exec.{Exec, raise, skip, modify}
use shape_rotator_matrix.Exec.Rules.{Preserves, preserves_rules}
use shape_rotator_matrix.Exec.Triples.{
  Post, Triple, Triple-bind, Triple-preserves, Triple-pure, Post-map,
}
use shape_rotator_matrix.World.{CodeEntry, World}
use shape_rotator_matrix.Codes.{merge_missing}
use shape_rotator_matrix.Codes.Spending.{lookup-merge_missing}
use shape_rotator_matrix.Credentials.{Boot}
use shape_rotator_matrix.Start.{
  Seed, unset, unreadable, no_object, seeds, Machine, Setup, on_main, on_lobby, put_world, Table,
  codes_table, signup_table, merge_seed, start_lobby_bot, name_of, start,
}

-- The codes of a seed, none where it is no JSON object.
abbrev pub codes_of : Seed → Dict CodeEntry
codes_of unset = []
codes_of unreadable = []
codes_of no_object = []
codes_of (seeds data') = data'

abbrev pub seeded : Seed → Dict CodeEntry → Dict CodeEntry
seeded s codes = merge_missing (codes_of s) codes

pub has-merge_missing :
    (k : String) (data' codes : Dict CodeEntry)
    → has k (merge_missing data' codes) ≡ (has k codes || has k data')
unfolding merge_missing has
has-merge_missing k [] codes = ground arith
has-merge_missing k ((j, v) ∷ data') codes = ground (
  arith,
  eq_iff j k,
  has-merge_missing k data' (if has j codes then codes else set j v codes),
  has-set j k v codes,
)

-- Every code of the seed is on file.
pub record Covers (data' codes : Dict CodeEntry) : Type 0 where
  pub kept : (k : String) → has k data' ≡ true → has k codes ≡ true

head_lem :
    (k : String) (v : CodeEntry) (data' codes : Dict CodeEntry)
    → Covers ((k, v) ∷ data') codes
    → has k codes ≡ true
unfolding has
head_lem k v data' codes h = h.kept k (simp (eq_refl))

tail_lem :
    (k : String) (v : CodeEntry) (data' codes : Dict CodeEntry)
    → Covers ((k, v) ∷ data') codes
    → Covers data' codes
unfolding has
tail_lem k v data' codes h = record { kept = λ j g. h.kept j (ground (arith, g)) }

-- A second merge of the same seed adds nothing.
pub merge_missing_again :
    (data' codes : Dict CodeEntry) → Covers data' codes → merge_missing data' codes ≡ codes
unfolding merge_missing
merge_missing_again [] codes h = refl
merge_missing_again ((k, v) ∷ data') codes h =
    rw (head_lem k v data' codes h) (merge_missing_again data' codes (tail_lem k v data' codes h))

pub Covers-merge_missing : (data' codes : Dict CodeEntry) → Covers data' (merge_missing data' codes)
Covers-merge_missing data' codes = record {
  kept = λ k h. ground (arith, has-merge_missing k data' codes, h);
}

-- The files of the bots are apart from the state files.
module _ {A : Type 0} (w : World) where
  pub Preserves-on_main : (m : Exec Boot A) → Preserves (λ y. y.world ≡ w) (on_main m)
  unfolding on_main
  Preserves-on_main m = record { from = λ y h. h }

  pub Preserves-on_lobby : (m : Exec Boot A) → Preserves (λ y. y.world ≡ w) (on_lobby m)
  unfolding on_lobby
  Preserves-on_lobby m = record { from = λ y h. h }

module _ (c : Setup) (w : World) where
  pub Preserves-start_lobby_bot :
      (token : String) → Preserves (λ y. y.world ≡ w) (start_lobby_bot c token)
  unfolding start_lobby_bot
  Preserves-start_lobby_bot token = search (preserves_rules, Preserves-on_lobby w)

  pub Preserves-name_of : (mxid : String) → Preserves (λ y. y.world ≡ w) (name_of c mxid)
  unfolding name_of
  Preserves-name_of mxid = search preserves_rules

module _ (R : Machine → Type 0) where
  pub Triple-merge_seed :
      (path : Table) (s : Seed) (w : World)
      → path.save_to (path.load_from w) w ≡ w
      → ((y : Machine) → y.world ≡ w → R y)
      → Triple
          (λ y. y.world ≡ w)
          (merge_seed path s)
          (λ _ y. y.world ≡ path.save_to (seeded s (path.load_from w)) w)
          R
  unfolding merge_seed merge_missing skip raise put_world modify
  Triple-merge_seed path unset w same weaken = record { run = λ y h. h ∙ sym same }
  Triple-merge_seed path unreadable w same weaken = record { run = λ y h. h ∙ sym same }
  Triple-merge_seed path no_object w same weaken = record { run = λ y h. weaken y h }
  Triple-merge_seed path (seeds data') w same weaken = record {
    run = λ y h. ap (λ v. path.save_to (merge_missing data' (path.load_from v)) v) h;
  }

-- A table keeps what it had.
pub record Kept (a b : Dict CodeEntry) : Type 0 where
  pub lookup_old : (k : String) → has k a ≡ true → lookup k b ≡ lookup k a

-- The state files after a start that failed.
pub record Stopped (a b : World) : Type 0 where
  pub codes : Kept a.codes b.codes
  pub signup : b.signup ≡ a.signup
  pub vetting : b.vetting ≡ a.vetting
  pub lobby : b.lobby ≡ a.lobby
  pub announced : b.announced ≡ a.announced

-- The state files after a start that got to the loops.
pub record Started (c : Setup) (a b : World) : Type 0 where
  pub codes :
      (k : String)
      → lookup k b.codes
        ≡ (if has k a.codes then lookup k a.codes else lookup k (codes_of c.initial_codes))
  pub signup :
      (k : String)
      → lookup k b.signup
        ≡ (if has k a.signup then lookup k a.signup else lookup k (codes_of c.initial_signup_codes))
  pub vetting : b.vetting ≡ a.vetting
  pub lobby : b.lobby ≡ a.lobby
  pub announced : b.announced ≡ a.announced

Kept-merge_missing : (data' codes : Dict CodeEntry) → Kept codes (merge_missing data' codes)
Kept-merge_missing data' codes = record {
  lookup_old = λ k h. ground (arith, lookup-merge_missing k data' codes, h);
}

-- The two states that `start` can leave, by their contents.
abbrev pub after_codes : Setup → World → World
after_codes c w = record w { codes = seeded c.initial_codes w.codes }

abbrev pub after_both : Setup → World → World
after_both c w = record w {
  codes = seeded c.initial_codes w.codes;
  signup = seeded c.initial_signup_codes w.signup;
}

pub Triple-start :
    (c : Setup) (w : World)
    → Triple
        (λ y. y.world ≡ w)
        (start c)
        (λ _ y. y.world ≡ after_both c w)
        (λ y. (y.world ≡ w) ⊎ (y.world ≡ after_codes c w))
unfolding start
Triple-start c w = Triple-bind _ _ (Triple-preserves _ (Preserves-on_main w _) (λ y h. inl h)) (λ r.
    Triple-bind _ _ (Triple-preserves _ (Preserves-start_lobby_bot c w _) (λ y h. inl h)) (λ token.
      Triple-bind _ _ (Triple-preserves _ (Preserves-name_of c w _) (λ y h. inl h)) (λ name.
        Triple-bind _ _ (Triple-merge_seed _ codes_table c.initial_codes w refl (λ y h. inl h))
          (λ _.
            Triple-bind _ _
              (Triple-merge_seed _ signup_table c.initial_signup_codes (after_codes c w) refl
                (λ y h. inr h))
              (λ _. Triple-pure _ (λ y h. h))))))

stopped_lem : (c : Setup) (w : World) → Stopped w w
stopped_lem c w = record {
  codes = record { lookup_old = λ k h. refl };
  signup = refl;
  vetting = refl;
  lobby = refl;
  announced = refl;
}

stopped_codes_lem : (c : Setup) (w : World) → Stopped w (after_codes c w)
stopped_codes_lem c w = record {
  codes = Kept-merge_missing (codes_of c.initial_codes) w.codes;
  signup = refl;
  vetting = refl;
  lobby = refl;
  announced = refl;
}

started_lem : (c : Setup) (w : World) → Started c w (after_both c w)
started_lem c w = record {
  codes = λ k. lookup-merge_missing k (codes_of c.initial_codes) w.codes;
  signup = λ k. lookup-merge_missing k (codes_of c.initial_signup_codes) w.signup;
  vetting = refl;
  lobby = refl;
  announced = refl;
}

-- A start of the process that gets to the loops keeps every code of the two tables with its uses,
-- adds the codes of the environment that the tables lack, and changes no other state file; one that
-- fails keeps every code too and changes at most the table of knock codes.
pub start-Started :
    (c : Setup) (x : Machine)
    → Post (λ _ y. Started c x.world y.world) (λ y. Stopped x.world y.world) (start c x)
start-Started c x =
    Post-map (start c x) (λ g y h. subst (Started c x.world) (sym h) (started_lem c x.world))
      (λ y h. elim h [
        | inl same ↦ subst (Stopped x.world) (sym same) (stopped_lem c x.world)
        | inr codes ↦ subst (Stopped x.world) (sym codes) (stopped_codes_lem c x.world)
      ])
      ((Triple-start c x.world).run x refl)
