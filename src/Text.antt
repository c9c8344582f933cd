-- ===== src/Text.antt =====
-- Python's `str` methods that knock-approver/approver.py and bridge/relay.py call. A text is its
-- sequence of code points; white space and line breaks are Python's own tables.
mod Find
pub mod Strip
unfoldable pub use Find.{concat, is_prefix_of, contains}
pub use Find.{Infix, contains_iff}
use Prim.Native.Char.{Char, code}
use Prim.Native.String.{[], ◌∷◌}
use mathlib.Core.List
use mathlib.Core.Option
use shape_rotator_matrix.Base.{Option, none, some, not, ◌+◌, ◌-◌, ◌*◌}
use shape_rotator_matrix.Base.{
  ℕ, zero, suc, ◌≡◌, refl, String, Bool, true, false, ◌&&◌, ◌||◌, List, leb, eqb, if◌then◌else◌,
}

abbrev within : ℕ → ℕ → ℕ → Bool
within lo hi n = leb lo n && leb n hi

-- `str.isspace` of one character
unfoldable pub is_space : Char → Bool
is_space c =
    let n = code c in
    within 9 13 n
    || within 28 32 n
    || eqb n 133
    || eqb n 160
    || eqb n 5760
    || within 8192 8202 n
    || within 8232 8233 n
    || eqb n 8239
    || eqb n 8287
    || eqb n 12288

-- the boundaries of `str.splitlines`
unfoldable pub is_break : Char → Bool
is_break c = let n = code c in within 10 13 n || within 28 30 n || eqb n 133 || within 8232 8233 n

abbrev pub is_empty : String → Bool
is_empty [] = true
is_empty (c ∷ s) = false

-- `len(s)`
unfoldable pub len : String → ℕ
len [] = 0
len (c ∷ s) = suc (len s)

unfoldable pub lstrip_by : (Char → Bool) → String → String
lstrip_by p [] = []
lstrip_by p (c ∷ s) = let rest = lstrip_by p s in if p c then rest else c ∷ s

abbrev pub drop_last_if : (Char → Bool) → Char → String → String
drop_last_if p c [] = if p c then [] else c ∷ []
drop_last_if p c (d ∷ s) = c ∷ d ∷ s

unfoldable pub rstrip_by : (Char → Bool) → String → String
rstrip_by p [] = []
rstrip_by p (c ∷ s) = drop_last_if p c (rstrip_by p s)

-- `s.strip(chars)`, the set of characters as a test
unfoldable pub strip_by : (Char → Bool) → String → String
unfolding lstrip_by rstrip_by
strip_by p s = lstrip_by p (rstrip_by p s)

-- `s.strip()`
unfoldable pub strip : String → String
unfolding strip_by is_space
strip s = strip_by is_space s

abbrev extend_first : Char → List String → List String
extend_first c List.[] = List.◌∷◌ (c ∷ []) List.[]
extend_first c (List.◌∷◌ l ls) = List.◌∷◌ (c ∷ l) ls

-- The scan of `str.splitlines`; the flag says that the character before was a carriage return,
-- whose line feed belongs to the same break.
lines_after : Bool → String → List String
unfolding is_break
lines_after cr [] = List.[]
lines_after cr (c ∷ s) =
    let rest = lines_after (eqb (code c) 13) s in
    if cr && eqb (code c) 10
    then rest
    else if is_break c
    then List.◌∷◌ [] rest
    else extend_first c rest

-- `s[:n]`
unfoldable pub take : ℕ → String → String
take zero s = []
take (suc n) [] = []
take (suc n) (c ∷ s) = c ∷ take n s

-- `s[n:]`
unfoldable pub drop_chars : ℕ → String → String
drop_chars zero s = s
drop_chars (suc n) [] = []
drop_chars (suc n) (c ∷ s) = drop_chars n s

-- `sep.join(parts)`
unfoldable pub join : String → List String → String
unfolding concat
join sep List.[] = []
join sep (List.◌∷◌ p List.[]) = p
join sep (List.◌∷◌ p (List.◌∷◌ q ps)) = concat p (concat sep (join sep (List.◌∷◌ q ps)))

-- the characters of `s` that fail a test, in order
unfoldable pub without : (Char → Bool) → String → String
without p [] = []
without p (c ∷ s) = let rest = without p s in if p c then rest else c ∷ rest

-- `s.rstrip("=").replace("_", "").replace("-", "")[:9]`
unfoldable pub code_text : String → String
unfolding take without rstrip_by
code_text s = take 9 (
    without (λ c. eqb (code c) b'-')
      (without (λ c. eqb (code c) b'_') (rstrip_by (λ c. eqb (code c) b'=') s)))

-- `s.splitlines()`
unfoldable pub splitlines : String → List String
unfolding lines_after
splitlines s = lines_after false s

pieces : String → List String
unfolding is_space
pieces [] = List.◌∷◌ [] List.[]
pieces (c ∷ s) = let rest = pieces s in if is_space c then List.◌∷◌ [] rest else extend_first c rest

keep_words : List String → List String
keep_words List.[] = List.[]
keep_words (List.◌∷◌ w ws) =
    let rest = keep_words ws in if is_empty w then rest else List.◌∷◌ w rest

-- `s.split()`
unfoldable pub split : String → List String
unfolding pieces keep_words
split s = keep_words (pieces s)

-- The digits of a decimal number. An underscore may stand between two digits.
digits_from : Bool → ℕ → String → Option ℕ
digits_from after_digit n [] = if after_digit then some n else none
digits_from after_digit n (c ∷ s) =
    let d = code c in
    let rest = digits_from (not (eqb d b'_')) (if eqb d b'_' then n else n * 10 + (d - 48)) s in
    if within 48 57 d || (eqb d b'_' && after_digit) then rest else none

signed : Char → String → Option ℕ
unfolding digits_from
signed c s =
    if eqb (code c) b'+'
    then digits_from false 0 s
    else if eqb (code c) b'-'
    then Option.map (λ n. 0) (digits_from false 0 s)
    else digits_from false 0 (c ∷ s)

unsigned : String → Option ℕ
unfolding signed
unsigned [] = none
unsigned (c ∷ s) = signed c s

-- `int(s)` of ASCII text, `none` where it raises. A negative number is given as 0.
unfoldable pub parse_int : String → Option ℕ
unfolding unsigned strip
parse_int s = unsigned (strip s)

first_word : String → String × String
unfolding is_space
first_word [] = ([], [])
first_word (c ∷ s) =
    let (w, rest) = first_word s in if is_space c then ([], c ∷ s) else (c ∷ w, rest)

-- `parts = s.split(maxsplit=1)`: the first word, and the rest without the space between
unfoldable pub split_once : String → String × String
unfolding first_word lstrip_by is_space
split_once s = let (w, rest) = first_word (lstrip_by is_space s) in (w, lstrip_by is_space rest)

strip_lines :
    splitlines (strip " a b\r\nc \n\nd")
    ≡ List.◌∷◌ "a b" (List.◌∷◌ "c " (List.◌∷◌ "" (List.◌∷◌ "d" List.[])))
unfolding splitlines strip
strip_lines = refl

split_words : split "  -n 10  signup " ≡ List.◌∷◌ "-n" (List.◌∷◌ "10" (List.◌∷◌ "signup" List.[]))
unfolding split
split_words = refl

parse_ints : (parse_int " +1_0 " ≡ some 10) × (parse_int "1__0" ≡ none) × (parse_int "-" ≡ none)
unfolding parse_int
parse_ints = (refl, refl, refl)
