-- ===== src/Haiku.antt =====
-- The haiku captcha of knock-approver/approver.py: the challenge drawn from Wikipedia
-- (`_fetch_wiki_challenge`) and the test of an answer (`_vet`).
pub mod Accepts
pub mod Files
use Prim.Native.Char.{Char, code}
use shape_rotator_matrix.Base.{
  ℕ, zero, suc, ◌+◌, ◌≤◌, String, Bool, true, false, not, ◌&&◌, ◌||◌, List, [], ◌∷◌, length, elem,
  leb, eqb, if◌then◌else◌,
}
use shape_rotator_matrix.Text.{len, strip, strip_by, splitlines, split, contains, concat, is_empty}
use shape_rotator_matrix.Exec.{Exec, pure, ◌>>=◌, ◌>>◌, skip}
use shape_rotator_matrix.World.{
  World, Env, Request, random_summary, sleep, Reply, answer, failed, request,
}

pub data Verdict : Type 0 where
  passed : Verdict
  because : String → Verdict

-- `[l for l in text.splitlines() if l.strip()]`
nonblank : List String → List String
unfolding strip
nonblank [] = []
nonblank (l ∷ ls) = let rest = nonblank ls in if is_empty (strip l) then rest else l ∷ rest

unfoldable pub haiku_lines : String → List String
unfolding nonblank splitlines strip
haiku_lines message = nonblank (splitlines (strip message))

unfoldable pub vet : (String → String) → String → String → String → Verdict
unfolding haiku_lines len contains
vet lower displayname message keyword =
    let text = strip message in
    if is_empty displayname
    then because "set a displayname in element first, then re-paste the haiku"
    else if not (eqb (length (haiku_lines message)) 3)
    then because "haiku is three lines"
    else if not (leb 30 (len text) && leb (len text) 400)
    then because "haiku should be roughly 30–400 chars"
    else if not (contains (lower keyword) (lower text))
    then because (concat "include the word '" (concat keyword "' somewhere"))
    else passed

abbrev stopwords : List String
stopwords =
    "with" ∷ "from" ∷ "that" ∷ "this" ∷ "their" ∷ "have" ∷ "been" ∷ "were" ∷ "into" ∷ "over"
    ∷ "when" ∷ "what" ∷ "where" ∷ "which" ∷ "would" ∷ "could" ∷ "should" ∷ "about" ∷ "after"
    ∷ "before" ∷ []

is_mark : Char → Bool
is_mark c =
    let n = code c in
    eqb n b'.'
    || eqb n b','
    || eqb n b';'
    || eqb n b':'
    || eqb n 39
    || eqb n b'"'
    || eqb n b'('
    || eqb n b')'
    || eqb n b'['
    || eqb n b']'

-- `words` of the title that can serve as keyword: four letters or more, letters only, no stop-word
candidates : (String → String) → (String → Bool) → List String → List String
unfolding len
candidates lower is_alpha [] = []
candidates lower is_alpha (w ∷ ws) =
    let rest = candidates lower is_alpha ws in
    if leb 4 (len w) && is_alpha w && not (elem (lower w) stopwords) then w ∷ rest else rest

stripped : List String → List String
unfolding strip_by is_mark
stripped [] = []
stripped (w ∷ ws) = strip_by is_mark w ∷ stripped ws

-- `max(candidates, key=len)`: the first of the longest
longest : String → List String → String
unfolding len
longest best [] = best
longest best (w ∷ ws) = longest (if leb (len w) (len best) then best else w) ws

-- The end of one attempt, by the candidates of its title: the first of the longest, or go on.
choose :
    (String → Exec World (String × String)) → String → List String → Exec World (String × String)
unfolding longest
choose again title [] = again title
choose again title (w ∷ ws) = pure (title, longest w ws)

-- One attempt, given how to go on with a title. A `failed` reply stands for the network and decoding
-- errors that the code catches. Sleeps are counted in half seconds.
after_reply :
    Env
    → ℕ
    → String
    → (String → Exec World (String × String))
    → Reply
    → Exec World (String × String)
unfolding candidates stripped choose
after_reply e attempt title again (failed x) = request e (sleep (attempt + 1)) >> again title
after_reply e attempt title again (answer status found) =
    if not (eqb status 200)
    then request e (sleep (attempt + 1)) >> again title
    else let title' = if is_empty found then title else found in
      choose again title' (candidates e.lower e.is_alpha (stripped (split title')))

-- The loop over attempts: `left` rounds are still to come.
fetch_loop : Env → ℕ → ℕ → String → Exec World (String × String)
unfolding after_reply
fetch_loop e zero attempt title = pure (if is_empty title then "Wikipedia" else title, "wikipedia")
fetch_loop e (suc left) attempt title = do
  reply ← request e random_summary
  after_reply e attempt title (λ t. fetch_loop e left (attempt + 1) t) reply

unfoldable pub fetch_wiki_challenge : Env → Exec World (String × String)
unfolding fetch_loop
fetch_wiki_challenge e = fetch_loop e 5 0 ""
