-- ===== src/Exec/Rules.antt =====
-- Invariants of statements, a rule for each way to build one.
use shape_rotator_matrix.Base.{Option, none, some, Bool, true, false, if◌then◌else◌}
use shape_rotator_matrix.Exec.{
  Exn, Outcome, ok, raised, Exec, pure, raise, gets, ◌>>=◌, try_except, skip, modify, on_option,
}

-- `m` keeps `P`, whether it returns or raises.
pub record Preserves {ℓ} {S A : Type ℓ} (P : S → Type ℓ) (m : Exec S A) : Type ℓ where
  pub from : (s : S) → P s → P (m s).1

module _ {ℓ} {S A : Type ℓ} {P : S → Type ℓ} where
  pub Preserves-pure : (a : A) → Preserves P (pure a)
  unfolding pure
  Preserves-pure a = record { from = λ s h. h }

  pub Preserves-raise : (e : Exn) → Preserves P (raise {A = A} e)
  unfolding raise
  Preserves-raise e = record { from = λ s h. h }

  pub Preserves-gets : (f : S → A) → Preserves P (gets f)
  unfolding gets
  Preserves-gets f = record { from = λ s h. h }

  pub Preserves-if :
      (b : Bool) (m n : Exec S A) → Preserves P m → Preserves P n → Preserves P (if b then m else n)
  Preserves-if true m n km kn = km
  Preserves-if false m n km kn = kn

  pub Preserves-option :
      {B : Type ℓ} (o : Option B) (m : Exec S A) (f : B → Exec S A)
      → Preserves P m
      → ((b : B) → Preserves P (f b))
      → Preserves P (on_option o m f)
  Preserves-option none m f km kf = km
  Preserves-option (some b) m f km kf = kf b

  handle_lem :
      (r : Outcome A) (s : S) (f : Exn → Exec S A)
      → P s
      → ((e : Exn) → Preserves P (f e))
      → P (try_except (λ _. (r, s)) f s).1
  unfolding try_except
  handle_lem (ok a) s f h kf = h
  handle_lem (raised e) s f h kf = (kf e).from s h

  pub Preserves-try :
      (m : Exec S A) (f : Exn → Exec S A)
      → Preserves P m
      → ((e : Exn) → Preserves P (f e))
      → Preserves P (try_except m f)
  unfolding try_except
  Preserves-try m f km kf = record { from = λ s h. handle_lem (m s).0 (m s).1 f (km.from s h) kf }

module _ {S : Type 0} {P : S → Type 0} where
  pub Preserves-skip : Preserves P (skip {S = S})
  unfolding skip
  Preserves-skip = record { from = λ s h. h }

  pub Preserves-modify : (f : S → S) → ((s : S) → P s → P (f s)) → Preserves P (modify f)
  unfolding modify
  Preserves-modify f kf = record { from = kf }

module _ {ℓ} {S A B : Type ℓ} {P : S → Type ℓ} where
  go_on :
      (r : Outcome A) (s : S) (f : A → Exec S B)
      → P s
      → ((a : A) → Preserves P (f a))
      → P (((λ _. (r, s)) >>= f) s).1
  unfolding ◌>>=◌
  go_on (ok a) s f h kf = (kf a).from s h
  go_on (raised e) s f h kf = h

  pub Preserves-bind :
      (m : Exec S A) (f : A → Exec S B)
      → Preserves P m
      → ((a : A) → Preserves P (f a))
      → Preserves P (m >>= f)
  unfolding ◌>>=◌
  Preserves-bind m f km kf = record { from = λ s h. go_on (m s).0 (m s).1 f (km.from s h) kf }

pub ruleset preserves_rules = (
  Preserves-pure, Preserves-raise, Preserves-gets, Preserves-if, Preserves-option, Preserves-try,
  Preserves-skip, Preserves-bind,
)
