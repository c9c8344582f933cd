-- ===== src/Admin/Mint.antt =====
-- `cmd_mint`: the parse of its flags, and the codes that it makes.
pub mod Fresh
use shape_rotator_matrix.Base.{
  ℕ, zero, suc, ltb, String, Bool, true, false, ◌&&◌, ◌||◌, Option, none, some, List, [], ◌∷◌, ◌++◌,
  ◌==◌, if◌then◌else◌,
}
use shape_rotator_matrix.Text.{split, parse_int, concat, is_prefix_of, drop_chars, is_empty, join}
use shape_rotator_matrix.Dict.{Dict, set}
use shape_rotator_matrix.Exec.{Exec, Stmt, pure, gets, ◌>>=◌, ◌>>◌}
use shape_rotator_matrix.World.{CodeEntry, Audit, World, Env, save_codes, save_signup, audit}
use shape_rotator_matrix.Codes.Fresh.{fresh_code}

-- The flags so far; `signup` is the kind.
pub record Flags : Type 0 where
  pub signup : Bool
  pub n : ℕ
  pub uses : ℕ
  pub labels : List String

abbrev pub no_flags : Flags
no_flags = record { signup = false; n = 1; uses = 1; labels = [] }

-- The replies of the command.
pub data MintReply : Type 0 where
  not_a_number : String → String → MintReply
  bad_n : ℕ → MintReply
  bad_uses : ℕ → MintReply
  minted : Bool → ℕ → String → List String → MintReply

pub data Parsed : Type 0 where
  parsed : Flags → Parsed
  refused : MintReply → Parsed

abbrev no_labels : List String → Bool
no_labels [] = true
no_labels (l ∷ ls) = false

is_kind : Flags → String → Bool
is_kind f p = (p == "knock" || p == "signup") && no_labels f.labels

is_n_flag : String → Bool
is_n_flag p = p == "-n" || p == "--n"

-- `_parse_int`, and the flags with the number put in
abbrev with_number : String → String → Option ℕ → (ℕ → Flags) → (Flags → Parsed) → Parsed
with_number flag raw none put go_on = refused (not_a_number flag raw)
with_number flag raw (some k) put go_on = go_on (put k)

abbrev put_n : Flags → ℕ → Flags
put_n f k = record f { n = k }

abbrev put_uses : Flags → ℕ → Flags
put_uses f k = record f { uses = k }

-- The branches that look at one word only, in the order of the source.
single : Flags → String → (Flags → Parsed) → Parsed
unfolding is_prefix_of drop_chars parse_int
single f p go_on =
    if is_prefix_of "-n=" p
    then with_number "-n" (drop_chars 3 p) (parse_int (drop_chars 3 p)) (put_n f) go_on
    else if is_prefix_of "--n=" p
    then with_number "-n" (drop_chars 4 p) (parse_int (drop_chars 4 p)) (put_n f) go_on
    else if is_prefix_of "--uses=" p
    then with_number "--uses" (drop_chars 7 p) (parse_int (drop_chars 7 p)) (put_uses f) go_on
    else go_on (record f { labels = f.labels ++ p ∷ [] })

-- The loop over the words.
parse_words : Flags → List String → Parsed
unfolding is_kind is_n_flag single parse_int
parse_words f [] = parsed f
parse_words f (p ∷ []) =
    if is_kind f p then parsed (record f { signup = p == "signup" }) else single f p parsed
parse_words f (p ∷ v ∷ rest) =
    let after_one = λ (g : Flags). parse_words g (v ∷ rest) in
    let after_two = λ (g : Flags). parse_words g rest in
    if is_kind f p
    then after_one (record f { signup = p == "signup" })
    else if is_n_flag p
    then with_number "-n" v (parse_int v) (put_n f) after_two
    else if p == "--uses"
    then with_number "--uses" v (parse_int v) (put_uses f) after_two
    else single f p after_one

-- the bounds on the two numbers
abbrev check_bounds : Flags → Parsed
check_bounds f =
    if ltb f.n 1 || ltb 50 f.n
    then refused (bad_n f.n)
    else if ltb f.uses 1 || ltb 1000 f.uses
    then refused (bad_uses f.uses)
    else parsed f

abbrev bounded : Parsed → Parsed
bounded (parsed f) = check_bounds f
bounded (refused r) = refused r

unfoldable pub parse_mint : String → Parsed
unfolding parse_words
parse_mint args = bounded (parse_words no_flags (split args))

-- `" ".join(label_parts) or f"minted by {sender}"`
abbrev pub label_of : String → Flags → String
label_of sender f =
    let text = join " " f.labels in if is_empty text then concat "minted by " sender else text

-- The loop that makes `n` codes: the table, and the codes in order.
unfoldable pub mint_codes :
    Env → CodeEntry → ℕ → Dict CodeEntry → Exec World (Dict CodeEntry × List String)
mint_codes e entry zero codes = pure (codes, [])
mint_codes e entry (suc n) codes = do
  code ← fresh_code e codes
  (codes', rest) ← mint_codes e entry n (set code entry codes)
  pure (codes', code ∷ rest)

abbrev pub table_of : Bool → World → Dict CodeEntry
table_of true w = w.signup
table_of false w = w.codes

abbrev pub save_table : Bool → Dict CodeEntry → Stmt World
save_table true d = save_signup d
save_table false d = save_codes d

abbrev pub entry_of : String → Flags → CodeEntry
entry_of sender f = record { uses_remaining = f.uses; label = label_of sender f; inviter = "" }

unfoldable pub run_mint : Env → String → Parsed → Exec World MintReply
run_mint e sender (refused r) = pure r
run_mint e sender (parsed f) = do
  codes ← gets (table_of f.signup)
  (codes', made) ← mint_codes e (entry_of sender f) f.n codes
  save_table f.signup codes'
  audit (Audit.admin_mint f.signup f.n f.uses sender (label_of sender f) made)
  pure (minted f.signup f.uses (label_of sender f) made)

unfoldable pub cmd_mint : Env → String → String → Exec World MintReply
cmd_mint e sender args = run_mint e sender (parse_mint args)
