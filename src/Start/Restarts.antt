-- ===== src/Start/Restarts.antt =====
-- The process over several starts on the same machine.
use shape_rotator_matrix.Base.{ℕ, String, Option, List, ◌≡◌, ◌⊎◌, inl, inr, refl, sym, subst}
use shape_rotator_matrix.Dict.{Dict}
use shape_rotator_matrix.Exec.{Outcome, ok, raised}
use shape_rotator_matrix.Exec.Triples.{Post, Post-either}
use shape_rotator_matrix.World.{CodeEntry, World, Env}
use shape_rotator_matrix.Places.Laws.{Moves-has}
use shape_rotator_matrix.Places.Refines.{
  Refines, Refines-refl, Refines-trans, of_lengths, NoGain, Refines-NoGain,
}
use shape_rotator_matrix.Credentials.{Disk, Server}
use shape_rotator_matrix.Loops.{Ask, Looping, Source, sync_loop, lobby_sync_loop}
use shape_rotator_matrix.Loops.Moves.{IsQuiet, main_loop-Refines, lobby_loop-Refines}
use shape_rotator_matrix.Start.{Seed, Machine, Setup, Globals, start}
use shape_rotator_matrix.Start.Seeding.{
  codes_of, Covers, Covers-merge_missing, merge_missing_again, after_codes, after_both,
  Triple-start,
}
use shape_rotator_matrix.System.{Steps}
use shape_rotator_matrix.System.Uses.{Steps-Refines}

-- The state files after any runs of the loops, rounds, requests and starts with the same
-- `INITIAL_CODES`; all else in the environment may differ from start to start, and the files of the
-- bots may change at any time.
pub data Life (codes : Seed) (x : Machine) : Machine → Type 0 where
  begin : Life codes x x
  served :
      {e : Env} {y : Machine} {w : World}
      → Life codes x y
      → (main lobby : Disk) → Steps e y.world w
      → Life codes x (record y { main = main; lobby = lobby; world = w })
  ran_main :
      {y : Machine}
      → Life codes x y
      → (e : Env) (c : Source) (s : Server) (n : ℕ) (l : Looping) → l.world ≡ y.world
      → ((past : List Ask) (w : World) (since : Option String) → IsQuiet e (c.sync past w since))
      → Life codes x (record y { world = (sync_loop e c s n l).1.world })
  ran_lobby :
      {y : Machine}
      → Life codes x y
      → (e : Env) (c : Source) (n : ℕ) (l : Looping) → l.world ≡ y.world
      → Life codes x (record y { world = (lobby_sync_loop e c n l).1.world })
  restart :
      {y : Machine}
      → Life codes x y
      → (c : Setup) → c.initial_codes ≡ codes
      → Life codes x (start c y).1

-- Moves keep the codes of a seed on file.
Covers-Refines :
    {a b : World} (data' : Dict CodeEntry)
    → Refines a b
    → Covers data' a.codes
    → Covers data' b.codes
Covers-Refines data' r h = record { kept = λ k g. Moves-has k r.moves (h.kept k g) }

after_codes_lem :
    (c : Setup) (w : World)
    → Covers (codes_of c.initial_codes) w.codes
    → Refines w (after_codes c w)
after_codes_lem c w h =
    of_lengths w (after_codes c w) (merge_missing_again (codes_of c.initial_codes) w.codes h) refl
      refl

after_both_lem :
    (c : Setup) (w : World) → Covers (codes_of c.initial_codes) w.codes → Refines w (after_both c w)
after_both_lem c w h =
    of_lengths w (after_both c w) (merge_missing_again (codes_of c.initial_codes) w.codes h) refl
      refl

-- A start that finds its codes on file makes no moves.
start_lem :
    (c : Setup) (x : Machine)
    → Covers (codes_of c.initial_codes) x.world.codes
    → Refines x.world (start c x).1.world
start_lem c x h =
    Post-either (λ y. Refines x.world y.world) (start c x)
      (λ g y same. subst (Refines x.world) (sym same) (after_both_lem c x.world h))
      (λ y same. elim same [
        | inl old ↦ subst (Refines x.world) (sym old) (Refines-refl x.world)
        | inr codes ↦ subst (Refines x.world) (sym codes) (after_codes_lem c x.world h)
      ])
      ((Triple-start c x.world).run x refl)

-- From a machine with the codes of the environment on file.
Life-Refines :
    {codes : Seed} {x y : Machine}
    → Covers (codes_of codes) x.world.codes
    → Life codes x y
    → Refines x.world y.world
Life-Refines {x = x} h begin = Refines-refl x.world
Life-Refines h (served before main lobby steps) =
    Refines-trans (Life-Refines h before) (Steps-Refines steps)
Life-Refines {x = x} h (ran_main before e c s n l same quiet) =
    Refines-trans (subst (Refines x.world) (sym same) (Life-Refines h before))
      (main_loop-Refines e c s n l quiet)
Life-Refines {x = x} h (ran_lobby before e c n l same) =
    Refines-trans (subst (Refines x.world) (sym same) (Life-Refines h before))
      (lobby_loop-Refines e c n l)
Life-Refines {codes} h (restart {y} before c same) =
    let r = Life-Refines h before in
    Refines-trans r (
      start_lem c y (
        subst (λ s. Covers (codes_of s) y.world.codes) (sym same)
          (Covers-Refines (codes_of codes) r h)))

covered :
    (c : Setup) (r : Outcome Globals) (y : Machine) (g : Globals) (w : World)
    → r ≡ ok g
    → Post
        (λ _ z. z.world ≡ after_both c w)
        (λ z. (z.world ≡ w) ⊎ (z.world ≡ after_codes c w))
        (r, y)
    → Covers (codes_of c.initial_codes) y.world.codes
covered c (ok g') y g w h p =
    subst (λ v. Covers (codes_of c.initial_codes) v.codes) (sym p)
      (Covers-merge_missing (codes_of c.initial_codes) w.codes)
covered c (raised x) y g w h p = cc h

-- After a start that got to the loops, through any turns of the loops, rounds, requests and further
-- starts with the same `INITIAL_CODES`, in any order and however each of them ends, as long as only
-- outsiders write to the main loop: the state files go through moves of the abstract machine of places
-- only, and no knock code ever has more uses than after that first start. So a restart gives no use
-- back to a code that the environment names.
pub restarts-Refines :
    (c : Setup) (x : Machine) (g : Globals) {y : Machine}
    → (start c x).0 ≡ ok g
    → Life c.initial_codes (start c x).1 y
    → Refines (start c x).1.world y.world × NoGain (start c x).1.world y.world
restarts-Refines c x g h life =
    let r =
      Life-Refines
        (covered c (start c x).0 (start c x).1 g x.world h ((Triple-start c x.world).run x refl))
        life in
    (r, Refines-NoGain r)
