-- ===== src/Text/Strip.antt =====
-- Stripping a text that was stripped.
use shape_rotator_matrix.Base.{
  String, Bool, true, false, ◌≡◌, refl, ap, ◌∙◌, Bool-cases, inl, inr, arith, if◌then◌else◌,
}
use Prim.Native.Char.{Char}
use Prim.Native.String.{[], ◌∷◌}
use shape_rotator_matrix.Text.{strip, strip_by, lstrip_by, rstrip_by, drop_last_if, is_space}

short_lem : (b : Bool) (c : Char) (s : String) → (if b then [] else c ∷ []) ≡ c ∷ s → [] ≡ s
short_lem true c s h = cc h
short_lem false c s h = ground (arith, h)

module _ (p : Char → Bool) where
  lstrip_again : (s : String) → lstrip_by p (lstrip_by p s) ≡ lstrip_by p s
  unfolding lstrip_by
  lstrip_again [] = refl
  lstrip_again (c ∷ s) = elim (Bool-cases (p c)) [
    | inl yes' ↦ rw yes' (lstrip_again s)
    | inr no' ↦ simp (no')
  ]

  drop_again :
      (c : Char) (t : String)
      → rstrip_by p t ≡ t
      → rstrip_by p (drop_last_if p c t) ≡ drop_last_if p c t
  unfolding rstrip_by
  drop_again c [] h = elim (Bool-cases (p c)) [ inl yes' ↦ simp (yes') | inr no' ↦ simp (no') ]
  drop_again c (d ∷ t) h = ap (drop_last_if p c) h

  rstrip_again : (s : String) → rstrip_by p (rstrip_by p s) ≡ rstrip_by p s
  unfolding rstrip_by
  rstrip_again [] = refl
  rstrip_again (c ∷ s) = drop_again c (rstrip_by p s) (rstrip_again s)

  tail_lem : (c : Char) (s t : String) → drop_last_if p c t ≡ c ∷ s → t ≡ s
  tail_lem c s [] h = short_lem (p c) c s h
  tail_lem c s (d ∷ t) h = ground (arith, h)

  rstrip-lstrip : (s : String) → rstrip_by p s ≡ s → rstrip_by p (lstrip_by p s) ≡ lstrip_by p s
  unfolding rstrip_by lstrip_by
  rstrip-lstrip [] h = refl
  rstrip-lstrip (c ∷ s) h = elim (Bool-cases (p c)) [
    | inl yes' ↦ rw yes' (rstrip-lstrip s (tail_lem c s (rstrip_by p s) h))
    | inr no' ↦ rw no' h
  ]

pub strip_again : (s : String) → strip (strip s) ≡ strip s
unfolding strip strip_by
strip_again s =
    ap (lstrip_by is_space)
      (rstrip-lstrip is_space (rstrip_by is_space s) (rstrip_again is_space s))
    ∙ lstrip_again is_space (rstrip_by is_space s)
