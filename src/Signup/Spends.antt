-- ===== src/Signup/Spends.antt =====
-- What a signup request does to the table of signup codes.
use shape_rotator_matrix.Base.{
  String, ◌≡◌, refl, ap, ◌⊎◌, inl, inr, false, not, ◌||◌, Option, some, List, [], ◌∷◌, arith, eqb,
  ltb, Bool-cases,
}
use shape_rotator_matrix.Text.{len, strip, is_empty}
use shape_rotator_matrix.Dict.{Dict, lookup}
use shape_rotator_matrix.Exec.{Exec, pure, ◌>>=◌}
use shape_rotator_matrix.Exec.Rules.{Preserves, Preserves-pure, Preserves-bind, Preserves-if}
use shape_rotator_matrix.Exec.Triples.{Triple, Post, Triple-bind, Triple-preserves, Triple-if}
use shape_rotator_matrix.World.{CodeEntry, World, Env, save_signup, audit}
use shape_rotator_matrix.World.Frames.{
  OnFiles, SameFiles, SameFiles-refl, SameFiles-OnFiles, Preserves-audit, Preserves-post,
}
use shape_rotator_matrix.Codes.{is_dead, spend}
use shape_rotator_matrix.Signup.{
  Form, SignupReply, signup_disabled, bad_json, missing_fields, bad_username, password_too_short,
  invalid_code, register_init_unexpected, register_failed, signed_up, admin_invite, set_name,
  join_children, open_dm, welcome, register_account, signup_checked, signup_handler, valid_username,
}

-- One use of a live signup code was spent between the two worlds, and nothing else changed.
pub record Spent (code : String) (a b : World) : Type 0 where
  pub live : is_dead code a.signup ≡ false
  pub spent : b.signup ≡ spend code a.signup
  pub codes : b.codes ≡ a.codes
  pub vetting : b.vetting ≡ a.vetting
  pub lobby : b.lobby ≡ a.lobby
  pub announced : b.announced ≡ a.announced

Spent-OnFiles : (code : String) (a : World) → OnFiles (Spent code a)
Spent-OnFiles code a = record {
  on_trace = λ w t h. ground arith;
  on_log = λ w l h. ground arith;
  on_drawn = λ w n h. ground arith;
}

-- What a reply says of the state files.
abbrev pub Paid : String → World → SignupReply → World → Type 0
Paid code a (signed_up mxid steps) b = Spent code a b
Paid code a signup_disabled b = SameFiles a b
Paid code a bad_json b = SameFiles a b
Paid code a missing_fields b = SameFiles a b
Paid code a bad_username b = SameFiles a b
Paid code a password_too_short b = SameFiles a b
Paid code a invalid_code b = SameFiles a b
Paid code a (register_init_unexpected status) b = SameFiles a b
Paid code a (register_failed errcode) b = SameFiles a b

-- What an exception leaves.
abbrev pub Broken : String → World → World → Type 0
Broken code a b = SameFiles a b ⊎ Spent code a b

module _ {P : World → Type 0} (q : OnFiles P) (e : Env) where
  join_children-Preserves :
      (mxid : String) (rooms : List String) → Preserves P (join_children e mxid rooms)
  unfolding join_children
  join_children-Preserves mxid [] = Preserves-pure _
  join_children-Preserves mxid (room ∷ rooms) =
      Preserves-bind _ _ (Preserves-post q e _)
        λ r. Preserves-bind _ _ (join_children-Preserves mxid rooms) λ joined. Preserves-pure _

  admin_invite-Preserves : (mxid room : String) → Preserves P (admin_invite e mxid room)
  unfolding admin_invite
  admin_invite-Preserves mxid room = Preserves-bind _ _ (Preserves-post q e _) λ r. Preserves-pure _

  set_name-Preserves : (mxid displayname : String) → Preserves P (set_name e mxid displayname)
  unfolding set_name
  set_name-Preserves mxid displayname =
      Preserves-if _ _ _ (Preserves-pure _)
        (Preserves-bind _ _ (Preserves-post q e _) λ r. Preserves-pure _)

  open_dm-Preserves : (mxid inviter : String) → Preserves P (open_dm e mxid inviter)
  unfolding open_dm
  open_dm-Preserves mxid inviter =
      Preserves-if _ _ _ (Preserves-pure _)
        (Preserves-bind _ _ (Preserves-post q e _) λ r. Preserves-pure _)

module _ (e : Env) (code : String) (a : World) where
  kept_triple :
      {A : Type 0} (m : Exec World A)
      → Preserves (Spent code a) m
      → Triple (Spent code a) m (λ _ s. Spent code a s) (Broken code a)
  kept_triple m k = Triple-preserves m k (λ s h. inr h)

  same_triple :
      {A : Type 0} (m : Exec World A)
      → Preserves (SameFiles a) m
      → Triple (SameFiles a) m (λ _ s. SameFiles a s) (Broken code a)
  same_triple m k = Triple-preserves m k (λ s h. inl h)

  stop_triple :
      (r : SignupReply)
      → ((s : World) → SameFiles a s → Paid code a r s)
      → Triple (SameFiles a) (pure r) (Paid code a) (Broken code a)
  unfolding pure
  stop_triple r h = record { run = h }

  welcome_triple :
      (displayname mxid : String) (entry : Option CodeEntry)
      → Triple (Spent code a) (welcome e code displayname entry mxid) (Paid code a) (Broken code a)
  unfolding welcome pure
  welcome_triple displayname mxid entry =
      Triple-bind _ _ (kept_triple _ (admin_invite-Preserves (Spent-OnFiles code a) e _ _))
        λ invited.
          Triple-bind _ _ (kept_triple _ (set_name-Preserves (Spent-OnFiles code a) e _ _)) λ named.
            Triple-bind _ _ (kept_triple _ (Preserves-post (Spent-OnFiles code a) e _))
              λ (joined, body).
                Triple-bind _ _
                  (kept_triple _ (join_children-Preserves (Spent-OnFiles code a) e mxid _))
                  λ children.
                    Triple-bind _ _ (kept_triple _ (open_dm-Preserves (Spent-OnFiles code a) e _ _))
                      λ dm.
                        Triple-bind _ _ (kept_triple _ (Preserves-audit (Spent-OnFiles code a) _))
                          λ _. record { run = λ s h. h }

  save_triple :
      (codes : Dict CodeEntry)
      → is_dead code a.signup ≡ false
      → codes ≡ a.signup
      → Triple
          (SameFiles a)
          (save_signup (spend code codes))
          (λ _ s. Spent code a s)
          (Broken code a)
  unfolding save_signup ◌>>=◌
  save_triple codes live same = record {
    run = λ s h. record {
      live = live;
      spent = ap (spend code) same;
      codes = h.codes;
      vetting = h.vetting;
      lobby = h.lobby;
      announced = h.announced;
    };
  }

  account_triple :
      (username password displayname : String)
      → is_dead code a.signup ≡ false
      → Triple
          (SameFiles a)
          (register_account e a.signup code username password displayname)
          (Paid code a)
          (Broken code a)
  unfolding register_account
  account_triple username password displayname live =
      let q = SameFiles-OnFiles a in
      Triple-bind _ _ (same_triple _ (Preserves-post q e _)) λ (status, session).
        Triple-if (not (eqb status 401)) _ _
          (λ _. stop_triple (register_init_unexpected status) (λ s h. h))
          λ _. Triple-bind _ _ (same_triple _ (Preserves-post q e _)) λ (status', result).
            Triple-if (not (eqb status' 200)) _ _
              (λ _.
                Triple-bind _ _ (same_triple _ (Preserves-audit q _))
                  λ _. stop_triple (register_failed result) (λ s h. h))
              (λ _.
                Triple-bind _ _ (save_triple a.signup live refl)
                  λ _. welcome_triple displayname result (lookup code a.signup))

  checked_triple :
      (username password displayname : String)
      → Post (Paid code a) (Broken code a) (signup_checked e code username password displayname a)
  unfolding signup_checked audit ◌>>=◌
  checked_triple username password displayname =
      let same = SameFiles-refl a in
      elim (Bool-cases (is_empty code || is_empty username || is_empty password)) [
        | inl missing ↦ rw missing same
        | inr given ↦ rw given (elim (Bool-cases (valid_username username)) [
          | inr bad ↦ rw bad same
          | inl good ↦ rw good (elim (Bool-cases (ltb (len password) 12)) [
            | inl short ↦ rw short same
            | inr long ↦ rw long (elim (Bool-cases (is_dead code a.signup)) [
              | inl dead ↦ rw dead (ground arith)
              | inr live ↦ rw live ((account_triple username password displayname live).run a same)
            ])
          ])
        ])
      ]

-- A signup request that is answered with an account has spent exactly one use of a live signup code
-- and changed nothing else; every other answer leaves all state files as they were. An exception
-- leaves them as they were or comes after that one use was spent. This holds whatever the servers
-- reply.
pub signup_handler-Paid :
    (e : Env) (form : Form) (w : World)
    → Post (Paid (strip form.code) w) (Broken (strip form.code) w) (signup_handler e (some form) w)
unfolding signup_handler ◌>>=◌
signup_handler-Paid e form w = elim (Bool-cases (is_empty e.reg_token)) [
  | inl off ↦ rw off (SameFiles-refl w)
  | inr on ↦ rw on (
      checked_triple e (strip form.code) w (e.lower (strip form.username)) form.password
        (strip form.display_name))
]
