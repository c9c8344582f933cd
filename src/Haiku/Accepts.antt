-- ===== src/Haiku/Accepts.antt =====
-- What the captcha accepts.
use shape_rotator_matrix.Base.{◌≤◌, ◌≡◌, ◌↔◌, String, false, length, arith}
use shape_rotator_matrix.Text.{len, strip, Infix, contains_iff, is_empty}
use shape_rotator_matrix.Haiku.{vet, passed, haiku_lines}

-- The four conditions of an accepted answer.
pub record IsHaiku (lower : String → String) (displayname message keyword : String) : Type 0 where
  pub named : is_empty displayname ≡ false
  pub three_lines : length (haiku_lines message) ≡ 3
  pub long_enough : 30 ≤ len (strip message)
  pub short_enough : len (strip message) ≤ 400
  pub has_keyword : Infix (lower keyword) (lower (strip message))

-- An answer passes exactly where its author has a display name, it has three lines that are not
-- blank, its stripped text has between 30 and 400 characters, and the lower-cased keyword occurs in
-- the lower-cased text.
pub vet-passed_iff :
    (lower : String → String) (displayname message keyword : String)
    → (vet lower displayname message keyword ≡ passed) ↔ IsHaiku lower displayname message keyword
unfolding vet
vet-passed_iff lower displayname message keyword = (
  λ h. record {
    named = ground arith;
    three_lines = ground arith;
    long_enough = ground arith;
    short_enough = ground arith;
    has_keyword = (contains_iff _ _).0 (ground arith);
  },
  λ h. let found = (contains_iff _ _).1 h.has_keyword in ground arith,
)
