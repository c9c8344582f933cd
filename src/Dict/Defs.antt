-- ===== src/Dict/Defs.antt =====
-- The operations of a `dict`.
use shape_rotator_matrix.Base.{
  String, Bool, false, Option, none, some, List, [], ◌∷◌, map, ◌==◌, ◌||◌, if◌then◌else◌,
}

abbrev pub Dict {ℓ} : Type ℓ → Type ℓ
Dict V = List (String × V)

module _ {ℓ} {V : Type ℓ} where
  -- `d.get(k)`
  unfoldable pub lookup : String → Dict V → Option V
  lookup k [] = none
  lookup k ((j, v) ∷ d) = if j == k then some v else lookup k d

  -- `d[k] = v`: an old key keeps its place, a new one goes to the end
  unfoldable pub set : String → V → Dict V → Dict V
  set k v [] = (k, v) ∷ []
  set k v ((j, w) ∷ d) = if j == k then (j, v) ∷ d else (j, w) ∷ set k v d

  -- `d.pop(k, None)`
  unfoldable pub delete : String → Dict V → Dict V
  delete k [] = []
  delete k ((j, v) ∷ d) = let rest = delete k d in if j == k then rest else (j, v) ∷ rest

  -- `k in d`
  unfoldable pub has : String → Dict V → Bool
  has k [] = false
  has k ((j, v) ∷ d) = j == k || has k d

  -- `list(d.keys())`
  abbrev pub keys : Dict V → List String
  keys = map (λ e. e.0)

  -- `d.get(k, v)`
  abbrev pub get_or : V → Option V → V
  get_or v none = v
  get_or v (some w) = w
