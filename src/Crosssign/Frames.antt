-- ===== src/Crosssign/Frames.antt =====
-- What the parts of `_crosssign` keep.
use shape_rotator_matrix.Base.{ℕ, zero, suc, String, Option, none, some, ◌∷◌}
use shape_rotator_matrix.Exec.{Outcome, ok, raised, from_outcome}
use shape_rotator_matrix.Exec.Rules.{
  Preserves, Preserves-bind, Preserves-modify, Preserves-if, Preserves-pure, Preserves-gets,
  Preserves-raise, Preserves-option,
}
use shape_rotator_matrix.Crosssign.Keys.{Crypto}
use shape_rotator_matrix.Crosssign.Requests.{Call, Work, Server, request, sleep, generate, required}
use shape_rotator_matrix.Crosssign.Bootstrap.{whoami, query_device, find_device}

-- What requests and the generation of keys leave alone.
pub record OnWork (Q : Work → Type 0) : Type 0 where
  pub on_call : (w : Work) (c : Call) → Q w → Q (record w { calls = c ∷ w.calls })
  pub on_key : (w : Work) (n : ℕ) → Q w → Q (record w { made = n })

module _ {Q : Work → Type 0} (q : OnWork Q) (e : Crypto) (srv : Server) where
  pub from_outcome-Preserves : {A : Type 0} (r : Outcome A) → Preserves Q (from_outcome r)
  from_outcome-Preserves (ok a) = Preserves-pure _
  from_outcome-Preserves (raised x) = Preserves-raise _

  pub request-Preserves : (c : Call) → Preserves Q (request srv c)
  unfolding request
  request-Preserves c = Preserves-bind _ _ (Preserves-gets _) λ reply.
      Preserves-bind _ _ (Preserves-modify _ (λ w h. q.on_call w c h))
        λ _. from_outcome-Preserves reply

  pub sleep-Preserves : Preserves Q sleep
  unfolding sleep
  sleep-Preserves = Preserves-modify _ (λ w h. q.on_call w _ h)

  pub generate-Preserves : Preserves Q (generate e)
  unfolding generate
  generate-Preserves =
      Preserves-bind _ _ (Preserves-gets _)
        λ key. Preserves-bind _ _ (Preserves-modify _ (λ w h. q.on_key w _ h)) λ _. Preserves-pure _

  pub required-Preserves : (key : String) (v : Option String) → Preserves Q (required key v)
  required-Preserves key none = Preserves-raise _
  required-Preserves key (some v) = Preserves-pure _

  pub whoami-Preserves : Preserves Q (whoami e srv)
  unfolding whoami
  whoami-Preserves = Preserves-bind _ _ (request-Preserves _) λ r.
      Preserves-if _ _ _
        (Preserves-bind _ _ (from_outcome-Preserves r.1) λ me.
          Preserves-bind _ _ (required-Preserves "user_id" me.user_id) λ user_id.
            Preserves-bind _ _ (required-Preserves "device_id" me.device_id)
              λ device_id. Preserves-pure _)
        (Preserves-raise _)

  pub query-Preserves :
      (user_id device_id : String) → Preserves Q (query_device e srv user_id device_id)
  unfolding query_device
  query-Preserves user_id device_id = Preserves-bind _ _ (request-Preserves _) λ r.
      Preserves-if _ _ _ (Preserves-bind _ _ (from_outcome-Preserves r.1) λ found. Preserves-pure _)
        (Preserves-pure _)

  pub find-Preserves :
      (n : ℕ) (user_id device_id : String) → Preserves Q (find_device e srv n user_id device_id)
  unfolding find_device
  find-Preserves zero user_id device_id = Preserves-pure _
  find-Preserves (suc n) user_id device_id =
      Preserves-bind _ _ (query-Preserves user_id device_id) λ found.
        Preserves-option found _ _
          (Preserves-bind _ _ sleep-Preserves λ _. find-Preserves n user_id device_id)
          (λ d. Preserves-pure _)
