-- ===== src/Exec/Returns.antt =====
-- What the returned values of a statement satisfy, whatever the state is.
use shape_rotator_matrix.Base.{◌≡◌, refl, ap, subst, Bool, true, false, if◌then◌else◌}
use shape_rotator_matrix.Exec.{Exn, Outcome, ok, raised, Exec, pure, raise, ◌>>=◌}

abbrev pub OnOk {ℓ} : {A : Type ℓ} → (A → Type ℓ) → Outcome A → Type ℓ
OnOk Q (ok a) = Q a
OnOk Q (raised x) = Unit

-- Every value that `m` returns satisfies `Q`.
pub record Returns {ℓ} {S A : Type ℓ} (Q : A → Type ℓ) (m : Exec S A) : Type ℓ where
  pub on_ok : (s : S) → OnOk Q (m s).0

module _ {ℓ} {S A : Type ℓ} {Q : A → Type ℓ} where
  pub Returns-pure : (a : A) → Q a → Returns {S = S} Q (pure a)
  unfolding pure
  Returns-pure a h = record { on_ok = λ s. h }

  pub Returns-raise : (x : Exn) → Returns {S = S} Q (raise x)
  unfolding raise
  Returns-raise x = record { on_ok = λ s. tt }

  pub Returns-if :
      (b : Bool) (m n : Exec S A)
      → (b ≡ true → Returns Q m)
      → (b ≡ false → Returns Q n)
      → Returns Q (if b then m else n)
  Returns-if true m n rm rn = rm refl
  Returns-if false m n rm rn = rn refl

  pub returned : (m : Exec S A) {a : A} {s s' : S} → Returns Q m → m s ≡ (ok a, s') → Q a
  returned m {a} {s} r h = subst (OnOk Q) (ap (λ (p : Outcome A × S). p.0) h) (r.on_ok s)

module _ {ℓ} {S A B : Type ℓ} {Q : B → Type ℓ} where
  go_on :
      (r : Outcome A) (s : S) (f : A → Exec S B)
      → ((a : A) → Returns Q (f a))
      → OnOk Q (((λ _. (r, s)) >>= f) s).0
  unfolding ◌>>=◌
  go_on (ok a) s f h = (h a).on_ok s
  go_on (raised x) s f h = tt

  pub Returns-bind :
      (m : Exec S A) (f : A → Exec S B) → ((a : A) → Returns Q (f a)) → Returns Q (m >>= f)
  unfolding ◌>>=◌
  Returns-bind m f h = record { on_ok = λ s. go_on (m s).0 (m s).1 f h }

module _ {ℓ} {S A B : Type ℓ} {P : A → Type ℓ} where
  then_lem :
      {Q : B → Type ℓ} (r : Outcome A) (s : S) (f : A → Exec S B)
      → OnOk P r
      → ((a : A) → P a → Returns Q (f a))
      → OnOk Q (((λ _. (r, s)) >>= f) s).0
  unfolding ◌>>=◌
  then_lem (ok a) s f p h = (h a p).on_ok s
  then_lem (raised x) s f p h = tt

  -- What the first part returns may be used of the second.
  pub Returns-seq :
      {Q : B → Type ℓ} (m : Exec S A) (f : A → Exec S B)
      → Returns P m
      → ((a : A) → P a → Returns Q (f a))
      → Returns Q (m >>= f)
  unfolding ◌>>=◌
  Returns-seq m f p h = record { on_ok = λ s. then_lem (m s).0 (m s).1 f (p.on_ok s) h }

module _ {ℓ} {A : Type ℓ} {P Q : A → Type ℓ} where
  weaken_lem : (r : Outcome A) → ((a : A) → P a → Q a) → OnOk P r → OnOk Q r
  weaken_lem (ok a) f h = f a h
  weaken_lem (raised x) f h = tt

  pub Returns-weaken :
      {S : Type ℓ} (m : Exec S A) → ((a : A) → P a → Q a) → Returns P m → Returns Q m
  Returns-weaken m f h = record { on_ok = λ s. weaken_lem (m s).0 f (h.on_ok s) }
