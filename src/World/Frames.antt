-- ===== src/World/Frames.antt =====
-- Facts about the files that requests, messages, audit entries and random draws cannot change.
use shape_rotator_matrix.Base.{◌≡◌, arith, ℕ, String, List, ◌∷◌}
use shape_rotator_matrix.Exec.Rules.{Preserves, Preserves-modify, Preserves-bind, preserves_rules}
use shape_rotator_matrix.World.{
  World, Env, Request, Reply, answer, failed, Notice, Audit, request, or_raise, post, send_msg,
  send_msg_raw, audit, clock, draw, new_code,
}

-- `P` speaks of the files alone.
pub record OnFiles (P : World → Type 0) : Type 0 where
  pub on_trace : (w : World) (r : Request) → P w → P (record w { trace = r ∷ w.trace })
  pub on_log : (w : World) (l : List Audit) → P w → P (record w { log = l })
  pub on_drawn : (w : World) (n : ℕ) → P w → P (record w { drawn = n })

module _ {P : World → Type 0} (q : OnFiles P) where
  pub Preserves-audit : (a : Audit) → Preserves P (audit a)
  unfolding audit
  Preserves-audit a = Preserves-modify _ (λ w h. q.on_log w _ h)

  pub Preserves-or_raise : (r : Reply) → Preserves P (or_raise r)
  Preserves-or_raise (answer status text) = search preserves_rules
  Preserves-or_raise (failed x) = search preserves_rules

  module _ (e : Env) where
    pub Preserves-request : (r : Request) → Preserves P (request e r)
    unfolding request
    Preserves-request r = record { from = λ w h. q.on_trace w _ h }

    pub Preserves-draw : (source : ℕ → String) → Preserves P (draw e source)
    unfolding draw
    Preserves-draw source = record { from = λ w h. q.on_drawn w _ h }

    pub Preserves-clock : Preserves P (clock e)
    unfolding clock
    Preserves-clock = search preserves_rules

    pub Preserves-new_code : Preserves P (new_code e)
    unfolding new_code
    Preserves-new_code = search (preserves_rules, Preserves-draw)

    pub Preserves-post : (r : Request) → Preserves P (post e r)
    unfolding post
    Preserves-post r = Preserves-bind _ _ (Preserves-request r) Preserves-or_raise

    pub Preserves-send_msg : (room : String) (text : Notice) → Preserves P (send_msg e room text)
    unfolding send_msg
    Preserves-send_msg room text = search (preserves_rules, Preserves-post)

    pub Preserves-send_msg_raw :
        (room : String) (text : Notice) → Preserves P (send_msg_raw e room text)
    unfolding send_msg_raw
    Preserves-send_msg_raw room text = search (preserves_rules, Preserves-post)

-- The state files hold the same in both worlds.
pub record SameFiles (a b : World) : Type 0 where
  pub codes : b.codes ≡ a.codes
  pub signup : b.signup ≡ a.signup
  pub vetting : b.vetting ≡ a.vetting
  pub lobby : b.lobby ≡ a.lobby
  pub announced : b.announced ≡ a.announced

pub SameFiles-refl : (a : World) → SameFiles a a
SameFiles-refl a = ground arith

pub SameFiles-OnFiles : (a : World) → OnFiles (SameFiles a)
SameFiles-OnFiles a = record {
  on_trace = λ w t h. ground arith;
  on_log = λ w l h. ground arith;
  on_drawn = λ w n h. ground arith;
}
