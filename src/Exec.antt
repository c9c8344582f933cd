-- ===== src/Exec.antt =====
-- Coroutines that change shared state and may raise. What was done before a raise stays done, so
-- the state comes back beside the exception too.
pub mod Rules
pub mod Triples
pub mod Returns
use shape_rotator_matrix.Base.{
  ℕ, String, Bool, true, false, List, [], ◌∷◌, Option, none, some, if◌then◌else◌,
}

-- An exception: the status that `getattr(e, "http_status", 500)` reads, and its text.
pub record Exn : Type 0 where
  pub http_status : ℕ
  pub text : String

pub data Outcome {ℓ} (A : Type ℓ) : Type ℓ where
  ok : A → Outcome A
  raised : Exn → Outcome A

abbrev pub Exec {ℓ} : Type ℓ → Type ℓ → Type ℓ
Exec S A = S → Outcome A × S

-- A statement returns no value.
abbrev pub Stmt : Type 0 → Type 0
Stmt S = Exec S Unit

module _ {ℓ} {S A : Type ℓ} where
  unfoldable pub pure : A → Exec S A
  pure a s = (ok a, s)

  unfoldable pub raise : Exn → Exec S A
  raise e s = (raised e, s)

  unfoldable pub gets : (S → A) → Exec S A
  gets f s = (ok (f s), s)

  abbrev pub caught : Outcome A × S → (Exn → Exec S A) → Outcome A × S
  caught (ok a, s) f = (ok a, s)
  caught (raised e, s) f = f e s

  -- `try: m  except Exception as e: f(e)`
  unfoldable pub try_except : Exec S A → (Exn → Exec S A) → Exec S A
  try_except m f s = caught (m s) f

module _ {S : Type 0} where
  unfoldable pub skip : Stmt S
  skip s = (ok tt, s)

  unfoldable pub modify : (S → S) → Stmt S
  modify f s = (ok tt, f s)

module _ {ℓ} {S A B : Type ℓ} where
  abbrev pub continue : Outcome A × S → (A → Exec S B) → Outcome B × S
  continue (ok a, s) f = f a s
  continue (raised e, s) f = (raised e, s)

  infixl 10 ◌>>=◌ ◌>>◌
  -- opening this opens the other constructions too
  unfoldable pub ◌>>=◌ : Exec S A → (A → Exec S B) → Exec S B
  unfolding pure raise gets try_except skip modify
  ◌>>=◌ m f s = continue (m s) f

  abbrev pub ◌>>◌ : Exec S A → Exec S B → Exec S B
  m >> n = m >>= λ _. n

-- A call whose outcome is known: its value, or what it raised.
abbrev pub from_outcome {ℓ} : {S A : Type ℓ} → Outcome A → Exec S A
from_outcome (ok a) = pure a
from_outcome (raised e) = raise e

abbrev pub from_error : {S : Type 0} → Option Exn → Stmt S
from_error none = skip
from_error (some e) = raise e

-- `if b: m`
abbrev pub when : {S : Type 0} → Bool → Stmt S → Stmt S
when b m = if b then m else skip

-- The cases of an `Option`, as a statement that branches on `is None`.
abbrev pub on_option {ℓ} : {A B : Type ℓ} → Option A → B → (A → B) → B
on_option none x f = x
on_option (some a) x f = f a
