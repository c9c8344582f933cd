-- ===== src/Redact/Ends.antt =====
-- How a run of the script ends.
use shape_rotator_matrix.Base.{
  ℕ, String, ◌≡◌, refl, sym, ◌⊎◌, inl, inr, true, List, [], ◌∷◌, eqb, arith,
}
use shape_rotator_matrix.Exec.{ok}
use shape_rotator_matrix.Exec.Returns.{
  Returns, Returns-pure, Returns-raise, Returns-if, Returns-seq,
}
use shape_rotator_matrix.Exec.Triples.{Triple-bind, Triple-ends, Triple-both, Triple-with, after}
use shape_rotator_matrix.Redact.Tool.{
  Body, session, page, nothing, Call, login_call, logout_call, Tool, Server, session_of, login,
  logout,
}
use shape_rotator_matrix.Redact.Run.{Args, query_of, finally_logout, main}
use shape_rotator_matrix.Redact.Wanted.{Answered, http-Answered}
use shape_rotator_matrix.Redact.Calls.{login-calls, logout-calls}
use shape_rotator_matrix.Redact.Limits.{Within, work-IsWithin}

-- The server has let the script in as this user.
pub record LoggedIn (srv : Server) (args : Args) (mxid : String) : Type 0 where
  pub past : List Call
  pub token : String
  pub device : String
  pub replied : srv past (login_call args.user args.password) ≡ ok (200, session token device mxid)

-- The ends of a run that starts without earlier requests.
abbrev pub Ends : Server → Args → List Call → Type 0
Ends srv args calls =
    (calls ≡ login_call args.user args.password ∷ [])
    ⊎ ((mxid : String) × LoggedIn srv args mxid
        × Within srv args mxid calls
        × (before : List Call) × (calls ≡ logout_call ∷ before))

is_200 : (status : ℕ) → eqb status 200 ≡ true → status ≡ 200
is_200 status h = ground arith

module _ (srv : Server) (args : Args) where
  session-LoggedIn :
      (r : ℕ × Body)
      → Answered srv (query_of args "") (login_call args.user args.password) r
      → Returns {S = Tool} (λ x. LoggedIn srv args x.2) (session_of r)
  session-LoggedIn (status, session token device user) (past, replied) =
      Returns-if (eqb status 200) _ _
        (λ h.
          Returns-pure (token, device, user)
            (record {
              past = past;
              token = token;
              device = device;
              replied = rw (sym (is_200 status h)) replied;
            }))
        (λ h. Returns-raise _)
  session-LoggedIn (status, page chunk end) a = Returns-raise _
  session-LoggedIn (status, nothing) a = Returns-raise _

  login-LoggedIn : Returns (λ x. LoggedIn srv args x.2) (login srv args.user args.password)
  unfolding login
  login-LoggedIn =
      Returns-seq _ _ (http-Answered srv (query_of args "") (login_call args.user args.password))
        session-LoggedIn

  out_lem :
      (mxid : String) (v : Tool)
      → LoggedIn srv args mxid
      → Within srv args mxid v.calls
      → Ends srv args (logout srv v).1.calls
  out_lem mxid v logged h = rw (logout-calls srv v) (
      inr (
        mxid,
        logged,
        record {
          wanted = h.wanted;
          once = h.once;
          limited = h.limited;
          dry = h.dry;
          pages = h.pages;
        },
        v.calls,
        refl,
      ))

  -- However a run of the script ends: either the login did not work and nothing else was requested,
  -- or the last request is a logout, and in between each request to redact was for an event that the
  -- server listed, that the user of the script sent, that lies between the two times (both included)
  -- and was not redacted when it was listed; no event was redacted twice; at most as many as the
  -- limit, where there is one, and none in a dry run; and at most 2000 pages were fetched.
  pub main-Ends : (t : Tool) → t.calls ≡ [] → Ends srv args (main srv args t).1.calls
  unfolding main finally_logout
  main-Ends t fresh =
      after {P = λ v. v.calls ≡ []} {R = λ v. Ends srv args v.calls} (main srv args)
        (Triple-bind _ _
          (Triple-with (λ v. v.calls ≡ login_call args.user args.password ∷ [])
            (λ v. v.calls ≡ login_call args.user args.password ∷ []) _ (λ x. LoggedIn srv args x.2)
            (login srv args.user args.password)
            (Triple-ends _ (λ v h. rw (login-calls srv args.user args.password v, h) refl)
              (λ v h. h))
            login-LoggedIn (λ v h. inl h))
          λ x. Triple-both _ λ v h.
            out_lem x.2 _ h.1 (after _ (work-IsWithin srv args x.2) v (rw h.0 (refl, omega arith))))
        t fresh
