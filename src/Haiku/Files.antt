-- ===== src/Haiku/Files.antt =====
-- Drawing a challenge changes no state file.
use shape_rotator_matrix.Base.{ℕ, zero, suc, ◌+◌, String, List, [], ◌∷◌}
use shape_rotator_matrix.Exec.{Exec}
use shape_rotator_matrix.Exec.Rules.{Preserves, preserves_rules, Preserves-bind, Preserves-if}
use shape_rotator_matrix.World.{World, Env, random_summary, Reply, answer, failed}
use shape_rotator_matrix.World.Frames.{OnFiles, Preserves-request}
use shape_rotator_matrix.Haiku.{choose, after_reply, fetch_loop, fetch_wiki_challenge}

module _ {P : World → Type 0} (q : OnFiles P) (e : Env) where
  module _ (again : String → Exec World (String × String))
      (ka : (t : String) → Preserves P (again t)) where
    Preserves-choose : (title : String) (ws : List String) → Preserves P (choose again title ws)
    unfolding choose
    Preserves-choose title [] = ka title
    Preserves-choose title (w ∷ ws) = search preserves_rules

    Preserves-after_reply :
        (attempt : ℕ) (title : String) (reply : Reply)
        → Preserves P (after_reply e attempt title again reply)
    unfolding after_reply
    Preserves-after_reply attempt title (failed x) =
        Preserves-bind _ _ (Preserves-request q e _) (λ _. ka title)
    Preserves-after_reply attempt title (answer status found) =
        Preserves-if _ _ _ (Preserves-bind _ _ (Preserves-request q e _) (λ _. ka title))
          (Preserves-choose _ _)

  Preserves-fetch_loop :
      (left attempt : ℕ) (title : String) → Preserves P (fetch_loop e left attempt title)
  unfolding fetch_loop
  Preserves-fetch_loop zero attempt title = search preserves_rules
  Preserves-fetch_loop (suc left) attempt title =
      Preserves-bind _ _ (Preserves-request q e random_summary)
        (Preserves-after_reply _ (λ t. Preserves-fetch_loop left (attempt + 1) t) attempt title)

  pub Preserves-fetch_wiki_challenge : Preserves P (fetch_wiki_challenge e)
  unfolding fetch_wiki_challenge
  Preserves-fetch_wiki_challenge = Preserves-fetch_loop 5 0 ""
