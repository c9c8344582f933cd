-- ===== src/Welcome/Files.antt =====
-- A promotion's extras keep what does not speak of the signup table.
use shape_rotator_matrix.Base.{ℕ, zero, suc, String, List, [], ◌∷◌, length}
use shape_rotator_matrix.Exec.{pure}
use shape_rotator_matrix.Dict.{Dict}
use shape_rotator_matrix.Exec.Rules.{
  Preserves, preserves_rules, Preserves-pure, Preserves-bind, Preserves-if, Preserves-modify,
}
use shape_rotator_matrix.World.{CodeEntry, World, Env, save_signup}
use shape_rotator_matrix.World.Frames.{OnFiles, Preserves-draw, Preserves-new_code, Preserves-post}
use shape_rotator_matrix.Codes.Fresh.{longer_code, fresh_loop, fresh_code}
use shape_rotator_matrix.Welcome.{children_loop, invite_to_children, mint_welcome_signup_code}

module _ {P : World → Type 0} (q : OnFiles P) (e : Env) where
  Preserves-longer_code : Preserves P (longer_code e)
  unfolding longer_code
  Preserves-longer_code = search (preserves_rules, Preserves-draw, Preserves-new_code)

  Preserves-fresh_loop :
      (fuel : ℕ) (codes : Dict CodeEntry) (code : String)
      → Preserves P (fresh_loop e fuel codes code)
  unfolding fresh_loop
  Preserves-fresh_loop zero codes code = search preserves_rules
  Preserves-fresh_loop (suc fuel) codes code =
      Preserves-if _ _ (pure code)
        (Preserves-bind _ _ Preserves-longer_code (λ next. Preserves-fresh_loop fuel codes next))
        (Preserves-pure code)

  pub Preserves-fresh_code : (codes : Dict CodeEntry) → Preserves P (fresh_code e codes)
  unfolding fresh_code
  Preserves-fresh_code codes =
      Preserves-bind _ _ (Preserves-new_code q e)
        (λ code. Preserves-fresh_loop (suc (suc (length codes))) codes code)

  Preserves-children_loop :
      (mxid : String) (rest : List String) → Preserves P (children_loop e mxid rest)
  unfolding children_loop
  Preserves-children_loop mxid [] = search preserves_rules
  Preserves-children_loop mxid (child ∷ rest) = Preserves-bind _ _ (Preserves-post q e _) (λ p.
      Preserves-bind _ _ (Preserves-children_loop mxid rest) (λ invited. search preserves_rules))

  pub Preserves-invite_to_children : (mxid : String) → Preserves P (invite_to_children e mxid)
  unfolding invite_to_children
  Preserves-invite_to_children mxid = Preserves-children_loop mxid e.space_child_ids

  module _ (on_signup : (w : World) (d : Dict CodeEntry) → P w → P (record w { signup = d })) where
    Preserves-save_signup : (d : Dict CodeEntry) → Preserves P (save_signup d)
    unfolding save_signup
    Preserves-save_signup d = Preserves-modify _ (λ w h. on_signup w d h)

    pub Preserves-mint_welcome : (mxid : String) → Preserves P (mint_welcome_signup_code e mxid)
    unfolding mint_welcome_signup_code
    Preserves-mint_welcome mxid =
        search (preserves_rules, Preserves-fresh_code, Preserves-save_signup)
