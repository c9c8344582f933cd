-- ===== src/Redact/Calls.antt =====
-- Which requests the parts of the script make.
use shape_rotator_matrix.Base.{
  ℕ, suc, String, ◌≡◌, refl, ◌∙◌, inl, inr, Bool-cases, ◌&&◌, List, [], ◌∷◌, leb, eqb,
}
use shape_rotator_matrix.Exec.{
  Exn, Outcome, ok, raised, Exec, ◌>>=◌, skip, pure, try_except, from_outcome,
}
use shape_rotator_matrix.Redact.Tool.{
  Body, session, page, nothing, Call, login_call, messages_call, redact_call, logout_call, pause,
  Tool, Server, opened, http, session_of, login, logout, redact,
}

-- The ids of the redactions that were requested, newest first.
abbrev pub redacted : List Call → List String
redacted [] = []
redacted (login_call user password ∷ cs) = redacted cs
redacted (messages_call room from ∷ cs) = redacted cs
redacted (redact_call room event_id reason ∷ cs) = event_id ∷ redacted cs
redacted (logout_call ∷ cs) = redacted cs
redacted (pause ∷ cs) = redacted cs

-- How many pages were requested.
abbrev pub walked : List Call → ℕ
walked [] = 0
walked (login_call user password ∷ cs) = walked cs
walked (messages_call room from ∷ cs) = suc (walked cs)
walked (redact_call room event_id reason ∷ cs) = walked cs
walked (logout_call ∷ cs) = walked cs
walked (pause ∷ cs) = walked cs

-- A continuation that leaves the state alone.
module _ {S A B : Type 0} (m : Exec S A) where
  settle :
      (r : Outcome A) (s : S) (k : A → Exec S B)
      → ((a : A) (t : S) → (k a t).1 ≡ t)
      → (((λ _. (r, s)) >>= k) s).1 ≡ s
  unfolding ◌>>=◌
  settle (ok a) s k quiet = quiet a s
  settle (raised x) s k quiet = refl

  then_quiet :
      (k : A → Exec S B) → ((a : A) (t : S) → (k a t).1 ≡ t) → (s : S) → ((m >>= k) s).1 ≡ (m s).1
  unfolding ◌>>=◌
  then_quiet k quiet s = settle (m s).0 (m s).1 k quiet

module _ {S A : Type 0} (m : Exec S A) where
  caught_lem :
      (r : Outcome A) (s : S) (f : Exn → Exec S A)
      → ((x : Exn) (t : S) → (f x t).1 ≡ t)
      → (try_except (λ _. (r, s)) f s).1 ≡ s
  unfolding try_except
  caught_lem (ok a) s f quiet = refl
  caught_lem (raised x) s f quiet = quiet x s

  except_quiet :
      (f : Exn → Exec S A)
      → ((x : Exn) (t : S) → (f x t).1 ≡ t)
      → (s : S) → (try_except m f s).1 ≡ (m s).1
  unfolding try_except
  except_quiet f quiet s = caught_lem (m s).0 (m s).1 f quiet

module _ (srv : Server) where
  from_outcome_quiet : {A : Type 0} (r : Outcome A) (t : Tool) → (from_outcome r t).1 ≡ t
  unfolding ◌>>=◌
  from_outcome_quiet (ok a) t = refl
  from_outcome_quiet (raised x) t = refl

  opened_quiet : (r : ℕ × Body) (t : Tool) → (opened r t).1 ≡ t
  unfolding ◌>>=◌
  opened_quiet (status, body) t = elim (Bool-cases (leb 200 status && leb status 299)) [
    | inl good ↦ rw good refl
    | inr bad ↦ rw bad refl
  ]

  session_quiet : (r : ℕ × Body) (t : Tool) → (session_of r t).1 ≡ t
  unfolding ◌>>=◌
  session_quiet (status, session token device user) t = elim (Bool-cases (eqb status 200)) [
    | inl good ↦ rw good refl
    | inr bad ↦ rw bad refl
  ]
  session_quiet (status, page chunk end) t = refl
  session_quiet (status, nothing) t = refl

  pub http-calls : (c : Call) (t : Tool) → (http srv c t).1 ≡ record t { calls = c ∷ t.calls }
  unfolding http ◌>>=◌
  http-calls c t =
      then_quiet (from_outcome (srv t.calls c)) opened opened_quiet
        (record t { calls = c ∷ t.calls })
      ∙ from_outcome_quiet (srv t.calls c) (record t { calls = c ∷ t.calls })

  pub login-calls :
      (user password : String) (t : Tool)
      → (login srv user password t).1 ≡ record t { calls = login_call user password ∷ t.calls }
  unfolding login
  login-calls user password t = then_quiet _ session_of session_quiet t ∙ http-calls _ t

  pub redact-calls :
      (room event_id reason : String) (t : Tool)
      → (redact srv room event_id reason t).1
        ≡ record t { calls = redact_call room event_id reason ∷ t.calls }
  unfolding redact pure
  redact-calls room event_id reason t = then_quiet _ _ (λ r t. refl) t ∙ http-calls _ t

  pub logout-calls : (t : Tool) → (logout srv t).1 ≡ record t { calls = logout_call ∷ t.calls }
  unfolding logout skip
  logout-calls t =
      except_quiet _ _ (λ x t. refl) t ∙ then_quiet _ _ (λ r t. refl) t ∙ http-calls _ t
