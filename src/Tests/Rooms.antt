-- ===== src/Tests/Rooms.antt =====
-- Knocks, vetting rooms and lobby rooms at concrete inputs.
use shape_rotator_matrix.Base.{
  ne_of_eq, String, ◌≡◌, refl, true, Option, none, some, List, [], ◌∷◌, ◌+◌, ◌↔◌,
}
use shape_rotator_matrix.Text.{strip, len, splitlines, contains}
use shape_rotator_matrix.Dict.{Dict, lookup}
use shape_rotator_matrix.Exec.{Outcome, ok, ◌>>=◌}
use shape_rotator_matrix.Exec.Triples.{Post}
use shape_rotator_matrix.World.{send_msg, post, request, audit, clock}
use shape_rotator_matrix.Sync.{Event}
use shape_rotator_matrix.Welcome.{invite_to_children, mint_welcome_signup_code}
use shape_rotator_matrix.World.{uses_left, Vetting, World}
use shape_rotator_matrix.World.Frames.{SameFiles}
use shape_rotator_matrix.Haiku.{passed, vet, haiku_lines}
use shape_rotator_matrix.Haiku.Accepts.{IsHaiku, vet-passed_iff}
use shape_rotator_matrix.Codes.{is_dead}
use shape_rotator_matrix.Knock.{handle_knock}
use shape_rotator_matrix.Knock.Admission.{Settled, handle_knock-Settled}
use shape_rotator_matrix.Vetting.{grant, promote, process_vetting_room, cleanup_stale_vetting}
use shape_rotator_matrix.Vetting.Judgement.{Agrees, judge, process-Agrees}
use shape_rotator_matrix.Vetting.Cleanup
use shape_rotator_matrix.Lobby.Join.{join_handler, commit_join, new_lobby}
use shape_rotator_matrix.Lobby.Join.Settles.{Wrote, join_handler-Wrote}
use shape_rotator_matrix.Lobby.Join.Race.{overlapping_joins}
use shape_rotator_matrix.Tests.{env, start, says, haiku, vetting_room}

handle_knock-Settled_example :
    Settled env
      (strip "haiku7")
      "@ada:example.org"
      start
      (handle_knock env "!space:example.org" "@ada:example.org" "haiku7" start).1
unfolding strip is_dead lookup
handle_knock-Settled_example =
    handle_knock-Settled env "!space:example.org" "@ada:example.org" "haiku7" start refl

join_handler-Wrote_example :
    Post (Wrote (strip "haiku7") start) (SameFiles start) (join_handler env (some "haiku7") start)
join_handler-Wrote_example = join_handler-Wrote env "haiku7" start

vet-passed_iff_example :
    (vet (λ s. s) "Ada" haiku "pond" ≡ passed) ↔ IsHaiku (λ s. s) "Ada" haiku "pond"
vet-passed_iff_example = vet-passed_iff (λ s. s) "Ada" haiku "pond"

overlapping_joins_example :
    let w1 =
      (commit_join env start.codes "haiku7" "Garden pond" "pond" ("!a:x", "lobby-a") start).1 in
    let w2 = (commit_join env start.codes "haiku7" "Tea" "cups" ("!b:x", "lobby-b") w1).1 in
    (uses_left (lookup "haiku7" w2.codes) + 1 ≡ uses_left (lookup "haiku7" start.codes))
    × (lookup "!a:x" w2.lobby
        ≡ some (new_lobby "lobby-a" "haiku7" (env.now start.trace) "Garden pond" "pond"))
    × (lookup "!b:x" w2.lobby ≡ some (new_lobby "lobby-b" "haiku7" (env.now w1.trace) "Tea" "cups"))
unfolding is_dead lookup
overlapping_joins_example =
    overlapping_joins env "haiku7" "Garden pond" "Tea" "pond" "cups" "!a:x" "!b:x" "lobby-a"
      "lobby-b" start refl (ne_of_eq "!a:x" "!b:x" refl)

-- A wrong answer, then the haiku: the room is promoted with two tries left.
abbrev answers : List Event
answers = says "@ada:example.org" haiku ∷ []

abbrev promoted_room : Vetting
promoted_room = record vetting_room { tries_left = 2; promoted = true; promoted_at = 10000 }

abbrev vetted : Outcome (Option Vetting) × World
vetted =
    process_vetting_room env "!v:x" vetting_room none (says "@ada:example.org" "hello" ∷ answers)
      start

process-Agrees_example :
    Agrees env
      (judge (λ text. vet env.lower "Ada" text "pond") 3 ("hello" ∷ haiku ∷ []))
      vetting_room
      promoted_room
      vetted.1
unfolding process_vetting_room vet strip len haiku_lines contains splitlines send_msg post request
    audit clock ◌>>=◌ invite_to_children mint_welcome_signup_code grant promote
process-Agrees_example =
    process-Agrees env "!v:x" vetting_room promoted_room none (says "@ada:example.org" "hello")
      answers start vetted.1 refl

cleanup-exact_example :
    let state : Dict Vetting = ("!v:x", vetting_room) ∷ [] in
    (state' : Dict Vetting) × (gone : List String) × (w' : World) × (cleanup_stale_vetting env state
        start
      ≡ (ok (state', Cleanup.is_some gone), w'))
    × Cleanup.Swept env.vetting_timeout (env.now start.trace) state state' gone
    × SameFiles start w'
    × (w'.trace ≡ Cleanup.leaving gone start.trace)
cleanup-exact_example = Cleanup.cleanup-exact env (("!v:x", vetting_room) ∷ []) start
