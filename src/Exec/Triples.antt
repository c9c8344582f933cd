-- ===== src/Exec/Triples.antt =====
-- Hoare triples for statements: from a state with `P`, the result and the state after a return
-- satisfy `Q`, and the state after a raise satisfies `R`.
use shape_rotator_matrix.Base.{Bool, true, false, ◌≡◌, refl, if◌then◌else◌}
use shape_rotator_matrix.Exec.{Exn, Outcome, ok, raised, Exec, pure, raise, gets, modify, ◌>>=◌}
use shape_rotator_matrix.Exec.Rules.{Preserves}
use shape_rotator_matrix.Exec.Returns.{OnOk, Returns}

abbrev pub Post {ℓ} : {S A : Type ℓ} → (A → S → Type ℓ) → (S → Type ℓ) → Outcome A × S → Type ℓ
Post Q R (ok a, s) = Q a s
Post Q R (raised x, s) = R s

pub record Triple {ℓ} {S A : Type ℓ} (P : S → Type ℓ) (m : Exec S A) (Q : A → S → Type ℓ)
    (R : S → Type ℓ) : Type ℓ where
  pub run : (s : S) → P s → Post Q R (m s)

module _ {ℓ} {S A : Type ℓ} (R : S → Type ℓ) where
  both_lem : (r : Outcome A) (s : S) → R s → Post (λ (_ : A) t. R t) R (r, s)
  both_lem (ok a) s h = h
  both_lem (raised x) s h = h

module _ {ℓ} {S A : Type ℓ} {P : S → Type ℓ} {R : S → Type ℓ} where
  preserves_lem :
      (r : Outcome A) (s : S) → P s → ((t : S) → P t → R t) → Post (λ (_ : A) t. P t) R (r, s)
  preserves_lem (ok a) s h weaken = h
  preserves_lem (raised x) s h weaken = weaken s h

  pub Triple-preserves :
      (m : Exec S A) → Preserves P m → ((s : S) → P s → R s) → Triple P m (λ _ s. P s) R
  Triple-preserves m k weaken = record {
    run = λ s h. preserves_lem (m s).0 (m s).1 (k.from s h) weaken;
  }

  -- What holds after the run, however it ends, holds after a return and after a raise.
  pub Triple-both : (m : Exec S A) → ((s : S) → P s → R (m s).1) → Triple P m (λ _ s. R s) R
  Triple-both m h = record { run = λ s p. both_lem R (m s).0 (m s).1 (h s p) }

  pub Triple-if :
      {Q : A → S → Type ℓ} (b : Bool) (m n : Exec S A)
      → (b ≡ true → Triple P m Q R)
      → (b ≡ false → Triple P n Q R)
      → Triple P (if b then m else n) Q R
  Triple-if true m n tm tn = tm refl
  Triple-if false m n tm tn = tn refl

module _ {ℓ} {S A : Type ℓ} {Q : S → Type ℓ} {R : S → Type ℓ} where
  ends_lem :
      (r : Outcome A) (s : S) → Q s → ((t : S) → Q t → R t) → Post (λ (_ : A) t. Q t) R (r, s)
  ends_lem (ok a) s h weaken = h
  ends_lem (raised x) s h weaken = weaken s h

  pub Triple-pure :
      {P : S → Type ℓ} (a : A) → ((s : S) → P s → Q s) → Triple P (pure a) (λ _ s. Q s) R
  unfolding pure
  Triple-pure a h = record { run = h }

  pub Triple-raise :
      {P : S → Type ℓ} (x : Exn) → ((s : S) → P s → R s) → Triple P (raise x) (λ (_ : A) s. Q s) R
  unfolding raise
  Triple-raise x h = record { run = h }

  -- What is known of the state after the run, however it ends.
  pub Triple-ends :
      {P : S → Type ℓ} (m : Exec S A)
      → ((s : S) → P s → Q (m s).1)
      → ((s : S) → Q s → R s)
      → Triple P m (λ _ s. Q s) R
  Triple-ends m h weaken = record { run = λ s p. ends_lem (m s).0 (m s).1 (h s p) weaken }

module _ {ℓ} {S A B : Type ℓ} {Q : A → S → Type ℓ} {Q' : B → S → Type ℓ} {R : S → Type ℓ} where
  bind_lem :
      (r : Outcome A) (s : S) (f : A → Exec S B)
      → Post Q R (r, s)
      → ((a : A) → Triple (Q a) (f a) Q' R)
      → Post Q' R (((λ _. (r, s)) >>= f) s)
  unfolding ◌>>=◌
  bind_lem (ok a) s f h tf = (tf a).run s h
  bind_lem (raised x) s f h tf = h

module _ {ℓ} {S A B : Type ℓ} {P : S → Type ℓ} {Q : A → S → Type ℓ} {Q' : B → S → Type ℓ}
    {R : S → Type ℓ} where
  pub Triple-bind :
      (m : Exec S A) (f : A → Exec S B)
      → Triple P m Q R
      → ((a : A) → Triple (Q a) (f a) Q' R)
      → Triple P (m >>= f) Q' R
  unfolding ◌>>=◌
  Triple-bind m f tm tf = record { run = λ s h. bind_lem (m s).0 (m s).1 f (tm.run s h) tf }

module _ {ℓ} {S A : Type ℓ} {P : S → Type ℓ} {R : S → Type ℓ} (Q : A → Type ℓ) where
  returns_lem :
      (r : Outcome A) (s : S)
      → P s
      → OnOk Q r
      → ((t : S) → P t → R t)
      → Post (λ a t. P t × Q a) R (r, s)
  returns_lem (ok a) s p q weaken = (p, q)
  returns_lem (raised x) s p q weaken = weaken s p

  -- What is kept of the state and what is known of the result, together.
  pub Triple-returns :
      (m : Exec S A)
      → Preserves P m
      → Returns Q m
      → ((s : S) → P s → R s)
      → Triple P m (λ a s. P s × Q a) R
  Triple-returns m k r weaken = record {
    run = λ s h. returns_lem (m s).0 (m s).1 (k.from s h) (r.on_ok s) weaken;
  }

module _ {ℓ} {S A : Type ℓ} (Q R R' : S → Type ℓ) (T : A → Type ℓ) where
  with_lem :
      (r : Outcome A) (s : S)
      → Post (λ (_ : A) t. Q t) R (r, s)
      → OnOk T r
      → ((t : S) → R t → R' t)
      → Post (λ a t. Q t × T a) R' (r, s)
  with_lem (ok a) s p q weaken = (p, q)
  with_lem (raised x) s p q weaken = weaken s p

  -- What a triple says, and what is known of the result.
  pub Triple-with :
      {P : S → Type ℓ} (m : Exec S A)
      → Triple P m (λ _ s. Q s) R
      → Returns T m
      → ((s : S) → R s → R' s)
      → Triple P m (λ a s. Q s × T a) R'
  Triple-with m t r weaken = record {
    run = λ s h. with_lem (m s).0 (m s).1 (t.run s h) (r.on_ok s) weaken;
  }

module _ {ℓ} {S A : Type ℓ} {P : S → Type ℓ} {Q : A → S → Type ℓ} {R : S → Type ℓ} where
  pub Triple-return : (a : A) → ((s : S) → P s → Q a s) → Triple P (pure a) Q R
  unfolding pure
  Triple-return a h = record { run = h }

  pub Triple-gets : (f : S → A) → ((s : S) → P s → Q (f s) s) → Triple P (gets f) Q R
  unfolding gets
  Triple-gets f h = record { run = h }

module _ {S : Type 0} {P R : S → Type 0} {Q : Unit → S → Type 0} where
  pub Triple-modify : (f : S → S) → ((s : S) → P s → Q tt (f s)) → Triple P (modify f) Q R
  unfolding modify
  Triple-modify f h = record { run = h }

-- A fact that does not speak of the state may be used of the statement.
pub Triple-use {ℓ} :
    {S A : Type ℓ} {P : S → Type ℓ} {T : Type ℓ} {m : Exec S A} {Q : A → S → Type ℓ}
    {R : S → Type ℓ}
    → (T → Triple P m Q R)
    → Triple (λ s. P s × T) m Q R
Triple-use k = record { run = λ s h. (k h.1).run s h.0 }

-- Where a return and a raise promise the same, so does the state after the run.
pub after {ℓ} :
    {S A : Type ℓ} {P : S → Type ℓ} {R : S → Type ℓ} (m : Exec S A)
    → Triple P m (λ _ s. R s) R
    → (s : S) → P s
    → R (m s).1
after {S} {A} {P} {R} m t s h = settle (m s).0 (m s).1 (t.run s h)
  where
    settle : (r : Outcome A) (s' : S) → Post (λ (_ : A) w. R w) R (r, s') → R s'
    settle (ok a) s' p = p
    settle (raised x) s' p = p

-- What follows from either end of a run.
pub Post-either {ℓ} :
    {S A : Type ℓ} {Q : A → S → Type ℓ} {R : S → Type ℓ} (T : S → Type ℓ) (r : Outcome A × S)
    → ((a : A) (s : S) → Q a s → T s)
    → ((s : S) → R s → T s)
    → Post Q R r
    → T r.1
Post-either T (ok a, s) f g h = f a s h
Post-either T (raised x, s) f g h = g s h

pub Post-map {ℓ} :
    {S A : Type ℓ} {Q Q' : A → S → Type ℓ} {R R' : S → Type ℓ} (r : Outcome A × S)
    → ((a : A) (s : S) → Q a s → Q' a s)
    → ((s : S) → R s → R' s)
    → Post Q R r
    → Post Q' R' r
Post-map (ok a, s) f g h = f a s h
Post-map (raised x, s) f g h = g s h

-- A triple promises what follows from its promises.
pub Triple-map {ℓ} :
    {S A : Type ℓ} {P : S → Type ℓ} {m : Exec S A} {Q Q' : A → S → Type ℓ} {R R' : S → Type ℓ}
    → Triple P m Q R
    → ((a : A) (s : S) → Q a s → Q' a s)
    → ((s : S) → R s → R' s)
    → Triple P m Q' R'
Triple-map {m = m} t f g = record { run = λ s h. Post-map (m s) f g (t.run s h) }
