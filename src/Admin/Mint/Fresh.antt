-- ===== src/Admin/Mint/Fresh.antt =====
-- What !mint adds to the code table.
use shape_rotator_matrix.Base.{
  ℕ, zero, suc, subst, ◌≤◌, String, ◌≡◌, refl, ap, Bool, true, false, not, some, List, [], ◌∷◌, All,
  length, elem, arith, eq_iff, if◌then◌else◌,
}
use shape_rotator_matrix.Dict.{Dict, lookup, set, has, lookup-set, has-set}
use shape_rotator_matrix.Exec.{◌>>=◌, ◌>>◌, pure}
use shape_rotator_matrix.Exec.Returns.{
  Returns, Returns-pure, Returns-raise, Returns-bind, Returns-seq, Returns-if,
}
use shape_rotator_matrix.World.{CodeEntry, World, Env}
use shape_rotator_matrix.Codes.Fresh.{fresh_loop, fresh_code}
use shape_rotator_matrix.Exec.Rules.{Preserves, Preserves-pure, Preserves-bind}
use shape_rotator_matrix.Exec.Triples.{Post, Triple-bind, Triple-returns}
use shape_rotator_matrix.World.{Audit, save_codes, save_signup, audit}
use shape_rotator_matrix.World.Frames.{SameFiles, SameFiles-refl, SameFiles-OnFiles}
use shape_rotator_matrix.Welcome.Files.{Preserves-fresh_code}
use shape_rotator_matrix.Admin.Mint.{
  table_of, save_table, entry_of, Flags, parsed, MintReply, minted, parse_mint, mint_codes,
  run_mint, cmd_mint, label_of,
}

-- No code of the list occurs again further on.
abbrev pub Distinct : List String → Type 0
Distinct [] = Unit
Distinct (c ∷ cs) = (elem c cs ≡ false) × Distinct cs

-- The codes were made for the table `old`, which became `new`.
pub record Added (entry : CodeEntry) (n : ℕ) (old new : Dict CodeEntry) (made : List String)
    : Type 0 where
  pub count : length made ≡ n
  pub unused : All (λ c. has c old ≡ false) made
  pub distinct : Distinct made
  pub lookups : (k : String) → lookup k new ≡ (if elem k made then some entry else lookup k old)

fresh_loop_lem :
    (e : Env) (fuel : ℕ) (codes : Dict CodeEntry) (code : String)
    → Returns (λ c. has c codes ≡ false) (fresh_loop e fuel codes code)
unfolding fresh_loop
fresh_loop_lem e zero codes code = Returns-raise _
fresh_loop_lem e (suc fuel) codes code =
    Returns-if (has code codes) _ _ (λ _. Returns-bind _ _ λ next. fresh_loop_lem e fuel codes next)
      (λ new. Returns-pure _ new)

pub fresh_code_lem :
    (e : Env) (codes : Dict CodeEntry) → Returns (λ c. has c codes ≡ false) (fresh_code e codes)
unfolding fresh_code
fresh_code_lem e codes =
    Returns-bind _ _ λ code. fresh_loop_lem e (suc (suc (length codes))) codes code

-- Codes that a larger table lacks, the smaller one lacks, and they differ from the added code.
unused_lem :
    (c : String) (entry : CodeEntry) (old : Dict CodeEntry) (made : List String)
    → All (λ k. has k (set c entry old) ≡ false) made
    → All (λ k. has k old ≡ false) made × (elem c made ≡ false)
unused_lem c entry old [] h = (tt, refl)
unused_lem c entry old (k ∷ made) h =
    let (rest, apart) = unused_lem c entry old made h.1 in
    let here = has-set c k entry old in
    ((ground arith, rest), ground (arith, eq_iff c k, eq_iff k c))

mint_codes_lem :
    (e : Env) (entry : CodeEntry) (n : ℕ) (codes : Dict CodeEntry)
    → Returns (λ r. Added entry n codes r.0 r.1) (mint_codes e entry n codes)
unfolding mint_codes
mint_codes_lem e entry zero codes =
    Returns-pure _ (record { count = refl; unused = tt; distinct = tt; lookups = λ k. refl })
mint_codes_lem e entry (suc n) codes = Returns-seq _ _ (fresh_code_lem e codes) λ code new.
    Returns-seq _ _ (mint_codes_lem e entry n (set code entry codes)) λ (codes', rest) h.
      Returns-pure _ (
        let (unused, apart) = unused_lem code entry codes rest h.unused in
        record {
          count = ap suc h.count;
          unused = (new, unused);
          distinct = (apart, h.distinct);
          lookups = λ k. rw (h.lookups k) (ground (arith, lookup-set code k entry codes));
        })

parse_mint_bounds :
    (args : String) (f : Flags)
    → parse_mint args ≡ parsed f
    → (1 ≤ f.n) × (f.n ≤ 50) × (1 ≤ f.uses) × (f.uses ≤ 1000)
unfolding parse_mint
parse_mint_bounds args f h = ground arith

-- The command made the codes that its flags ask for, in the table of their kind, and left the other
-- files alone.
pub record Minted (sender : String) (f : Flags) (w : World) (r : MintReply) (w' : World)
    : Type 0 where
  pub made : List String
  pub reply : r ≡ minted f.signup f.uses (label_of sender f) made
  pub at_least_one : 1 ≤ f.n
  pub at_most_fifty : f.n ≤ 50
  pub added : Added (entry_of sender f) f.n (table_of f.signup w) (table_of f.signup w') made
  pub other_table : table_of (not f.signup) w' ≡ table_of (not f.signup) w
  pub vetting : w'.vetting ≡ w.vetting
  pub lobby : w'.lobby ≡ w.lobby

module _ (e : Env) (sender : String) (w : World) where
  Preserves-mint_codes :
      (entry : CodeEntry) (n : ℕ) (codes : Dict CodeEntry)
      → Preserves (SameFiles w) (mint_codes e entry n codes)
  unfolding mint_codes
  Preserves-mint_codes entry zero codes = Preserves-pure _
  Preserves-mint_codes entry (suc n) codes =
      Preserves-bind _ _ (Preserves-fresh_code (SameFiles-OnFiles w) e codes) λ code.
        Preserves-bind _ _ (Preserves-mint_codes entry n (set code entry codes))
          λ r. Preserves-pure _

  module _ (f : Flags) (low : 1 ≤ f.n) (high : f.n ≤ 50) where
    save_lem :
        (signup : Bool)
        → f.signup ≡ signup
        → (codes' : Dict CodeEntry) (made : List String) (s : World) → SameFiles w s
        → Added (entry_of sender f) f.n (table_of f.signup w) codes' made
        → Post (Minted sender f w) (SameFiles w) (
            (do
              save_table f.signup codes'
              audit (Audit.admin_mint f.signup f.n f.uses sender (label_of sender f) made)
              pure (minted f.signup f.uses (label_of sender f) made))
              s)
    unfolding save_codes save_signup audit ◌>>=◌
    save_lem true is codes' made s same h = rw is (record {
      made = made;
      reply = refl;
      at_least_one = low;
      at_most_fifty = high;
      added = subst (λ b. Added (entry_of sender f) f.n (table_of b w) codes' made) is h;
      other_table = same.codes;
      vetting = same.vetting;
      lobby = same.lobby;
    })
    save_lem false is codes' made s same h = rw is (record {
      made = made;
      reply = refl;
      at_least_one = low;
      at_most_fifty = high;
      added = subst (λ b. Added (entry_of sender f) f.n (table_of b w) codes' made) is h;
      other_table = same.signup;
      vetting = same.vetting;
      lobby = same.lobby;
    })

-- `!mint` with flags that parse makes as many codes as the flags say, between 1 and 50. They are
-- distinct, none was in the table before, and the table of their kind has for each of them the
-- entry that the flags describe and is otherwise as it was; the other table, the vetting rooms and
-- the lobby rooms stay. If no fresh code was found, the state files are as they were.
pub cmd_mint-Minted :
    (e : Env) (sender args : String) (f : Flags) (w : World)
    → parse_mint args ≡ parsed f
    → Post (Minted sender f w) (SameFiles w) (cmd_mint e sender args w)
unfolding cmd_mint run_mint ◌>>=◌
cmd_mint-Minted e sender args f w h =
    let bounds = parse_mint_bounds args f h in
    rw h (
      (Triple-bind _ _
          (Triple-returns (λ r. Added (entry_of sender f) f.n (table_of f.signup w) r.0 r.1) _
            (Preserves-mint_codes e sender w (entry_of sender f) f.n (table_of f.signup w))
            (mint_codes_lem e (entry_of sender f) f.n (table_of f.signup w)) (λ s same. same))
          λ (codes', made). record {
            run = λ s (same, added).
                save_lem e sender w f bounds.0 bounds.1 f.signup refl codes' made s same added;
          }).run
        w (SameFiles-refl w))
