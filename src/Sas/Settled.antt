-- ===== src/Sas/Settled.antt =====
-- What becomes of a session when a MAC event comes for it.
use shape_rotator_matrix.Base.{String, ◌≡◌, ◌⊎◌, inl, inr, true, false, none, some, eq_refl}
use shape_rotator_matrix.Text.{is_empty}
use shape_rotator_matrix.Dict.{lookup, lookup-set, lookup-delete}
use shape_rotator_matrix.Exec.{◌>>=◌}
use shape_rotator_matrix.Exec.Rules.{Preserves, Preserves-modify}
use shape_rotator_matrix.Exec.Triples.{Post, Triple, Triple-bind, Triple-preserves}
use shape_rotator_matrix.Sas.Session.{text_at, Session, Manager, Client, keep_session}
use shape_rotator_matrix.Sas.Manager.{Event, with_session, pop_session, on_mac}
use shape_rotator_matrix.Sas.Frames.{handle_mac-Preserves}

-- The session is in the table, perhaps marked as cancelled since.
abbrev pub IsLive : {D : Type 0} → Session → Manager D → Type 0
IsLive s w =
    (lookup s.txn_id w.sessions ≡ some s)
    ⊎ (lookup s.txn_id w.sessions ≡ some (record s { cancelled = true }))

module _ {D : Type 0} (e : Client D) (s : Session) where
  cancelled-IsLive : Preserves (IsLive s) (keep_session {D = D} (record s { cancelled = true }))
  unfolding keep_session
  cancelled-IsLive = Preserves-modify _ λ w h. inr (simp (lookup-set, eq_refl))

  gone_lem :
      (txn : String)
      → Triple (IsLive s) (pop_session {D = D} txn) (λ _ w. lookup txn w.sessions ≡ none) (IsLive s)
  unfolding pop_session ◌>>=◌
  gone_lem txn = record { run = λ w h. simp (lookup-delete, eq_refl) }

  -- A MAC event of a live session whose handler returns leaves no session with that transaction id,
  -- whether the codes agree or not; where the handler raises, the session is still there, at most
  -- marked as cancelled.
  pub on_mac-Settled :
      (ev : Event) (w : Manager D)
      → text_at "transaction_id" ev.content ≡ s.txn_id
      → is_empty s.txn_id ≡ false
      → lookup s.txn_id w.sessions ≡ some s
      → Post (λ _ w'. lookup s.txn_id w'.sessions ≡ none) (λ w'. IsLive s w') (on_mac e ev w)
  unfolding on_mac with_session ◌>>=◌
  on_mac-Settled ev w same there live =
      rw (same, there, live)
        ((Triple-bind _ _
            (Triple-preserves _
              (handle_mac-Preserves e (IsLive s) (λ w l h. h) (λ w b h. h) s ev.content
                cancelled-IsLive)
              (λ w h. h))
            (λ _. gone_lem s.txn_id)).run
          w (inl live))
