-- ===== src/Text/Find.antt =====
-- `s + t`, `t.startswith(s)` and `s in t`, with what they decide.
use Prim.Native.Char.{code}
use Prim.Native.String.{[], ◌∷◌}
use text.Mathlib.TextEquality.{Char-path}
use shape_rotator_matrix.Base.{
  ◌≡◌, refl, ap, ◌∙◌, ◌↔◌, inl, inr, String, Bool, true, false, ◌&&◌, ◌||◌, arith, eqb, Bool-cases,
}

unfoldable pub concat : String → String → String
concat [] t = t
concat (c ∷ s) t = c ∷ concat s t

unfoldable pub is_prefix_of : String → String → Bool
is_prefix_of [] t = true
is_prefix_of (c ∷ s) [] = false
is_prefix_of (c ∷ s) (d ∷ t) = eqb (code c) (code d) && is_prefix_of s t

-- `needle in hay`
unfoldable pub contains : String → String → Bool
unfolding is_prefix_of
contains needle [] = is_prefix_of needle []
contains needle (c ∷ hay) = is_prefix_of needle (c ∷ hay) || contains needle hay

-- `s` stands somewhere in `t`.
abbrev pub Infix : String → String → Type 0
Infix s t = (before : String) × (after : String) × (t ≡ concat before (concat s after))

prefix_sound : (s t : String) → is_prefix_of s t ≡ true → (after : String) × (t ≡ concat s after)
unfolding is_prefix_of concat
prefix_sound [] t h = (t, refl)
prefix_sound (c ∷ s) [] h = (cc)
prefix_sound (c ∷ s) (d ∷ t) h =
    let (after, e) = prefix_sound s t (ground arith) in
    let same : c ≡ d = Char-path c d (ground arith) in (after, cc (same, e))

prefix_complete : (s after : String) → is_prefix_of s (concat s after) ≡ true
unfolding is_prefix_of concat
prefix_complete [] after = refl
prefix_complete (c ∷ s) after = ground (arith, prefix_complete s after)

contains_sound : (s t : String) → contains s t ≡ true → Infix s t
unfolding contains concat
contains_sound s [] h = let (after, e) = prefix_sound s [] h in ([], after, e)
contains_sound s (d ∷ t) h = elim (Bool-cases (is_prefix_of s (d ∷ t))) [
  | inl here ↦ let (after, e) = prefix_sound s (d ∷ t) here in ([], after, e)
  | inr later ↦
      let (before, after, e) = contains_sound s t (ground arith) in
      (d ∷ before, after, ap (◌∷◌ d) e)
]

contains_prefix : (s t : String) → is_prefix_of s t ≡ true → contains s t ≡ true
unfolding contains
contains_prefix s [] h = h
contains_prefix s (d ∷ t) h = ground arith

contains_complete : (s before after : String) → contains s (concat before (concat s after)) ≡ true
unfolding contains concat
contains_complete s [] after = contains_prefix s (concat s after) (prefix_complete s after)
contains_complete s (c ∷ before) after = ground (arith, contains_complete s before after)

pub contains_iff : (s t : String) → (contains s t ≡ true) ↔ Infix s t
contains_iff s t =
    (contains_sound s t, λ (before, after, e). ap (contains s) e ∙ contains_complete s before after)
