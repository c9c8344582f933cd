-- ===== src/Dict/Laws.antt =====
-- The laws of the dictionary operations.
use mathlib.Core.Option.{some-injective}
use shape_rotator_matrix.Base.{
  String, ◌+◌, ◌≤◌, length, ◌≡◌, refl, sym, ap, ◌∙◌, ◌≢◌, ◌⊎◌, true, false, Bool-cases, inl, inr,
  none, some, [], ◌∷◌, arith, ◌==◌, ◌||◌, eq_iff, eq_refl, if◌then◌else◌, str_ne,
}
use shape_rotator_matrix.Dict.Defs.{Dict, lookup, set, delete, has}

module _ {ℓ} {V : Type ℓ} where
  pub lookup-set :
      (k j : String) (v : V) (d : Dict V)
      → lookup j (set k v d) ≡ (if k == j then some v else lookup j d)
  unfolding lookup set
  lookup-set k j v [] = refl
  lookup-set k j v ((i, w) ∷ d) =
      ground (arith, eq_iff k j, eq_iff i k, eq_iff i j, lookup-set k j v d)

  pub lookup-delete :
      (k j : String) (d : Dict V) → lookup j (delete k d) ≡ (if k == j then none else lookup j d)
  unfolding lookup delete
  lookup-delete k j [] = ground arith
  lookup-delete k j ((i, w) ∷ d) =
      ground (arith, eq_iff k j, eq_iff i k, eq_iff i j, lookup-delete k j d)

  pub has-set : (k j : String) (v : V) (d : Dict V) → has j (set k v d) ≡ (k == j || has j d)
  unfolding has set
  has-set k j v [] = ground arith
  has-set k j v ((i, w) ∷ d) = ground (arith, eq_iff k j, eq_iff i k, eq_iff i j, has-set k j v d)

  pub lookup_of_not-has : (k : String) (d : Dict V) → has k d ≡ false → lookup k d ≡ none
  unfolding has lookup
  lookup_of_not-has k [] h = refl
  lookup_of_not-has k ((j, v) ∷ d) h = ground (arith, lookup_of_not-has k d)

  pub lookup_of_has : (k : String) (d : Dict V) → has k d ≡ true → (v : V) × (lookup k d ≡ some v)
  unfolding has lookup
  lookup_of_has k [] h = ground arith
  lookup_of_has k ((j, v) ∷ d) h = elim (Bool-cases (j == k)) [
    | inl same ↦ rw same (v, refl)
    | inr apart ↦ rw apart (lookup_of_has k d (ground arith))
  ]

  pub has_of_lookup : (k : String) (v : V) (d : Dict V) → lookup k d ≡ some v → has k d ≡ true
  unfolding has lookup
  has_of_lookup k v [] h = ground arith
  has_of_lookup k v ((j, w) ∷ d) h = ground (arith, has_of_lookup k v d)

  pub set_same : (k : String) (v : V) (d : Dict V) → lookup k d ≡ some v → set k v d ≡ d
  unfolding lookup set
  set_same k v [] h = ground arith
  set_same k v ((j, w) ∷ d) h = ground (arith, set_same k v d)

  pub lookup-set_self : (k : String) (v : V) (d : Dict V) → lookup k (set k v d) ≡ some v
  lookup-set_self k v d = simp (lookup-set, eq_refl)

  pub lookup-set_ne :
      (k j : String) (v : V) (d : Dict V) → k ≢ j → lookup j (set k v d) ≡ lookup j d
  lookup-set_ne k j v d h = rw (lookup-set k j v d, str_ne k j h)

module _ {ℓ} {V : Type ℓ} where
  pub length-set : (k : String) (v : V) (d : Dict V) → length (set k v d) ≤ length d + 1
  unfolding set
  length-set k v [] = omega arith
  length-set k v ((j, w) ∷ d) = ground (arith, length-set k v d)

  pub length-set_old :
      (k : String) (v : V) (d : Dict V) → has k d ≡ true → length (set k v d) ≡ length d
  unfolding set has
  length-set_old k v [] h = ground arith
  length-set_old k v ((j, w) ∷ d) h = ground (arith, length-set_old k v d)

-- What a lookup finds after an entry was written.
pub lookup-set_cases {ℓ} :
    {V : Type ℓ} (k j : String) (v x : V) (d : Dict V)
    → lookup j (set k v d) ≡ some x
    → ((k ≡ j) × (x ≡ v)) ⊎ (lookup j d ≡ some x)
lookup-set_cases k j v x d found = elim (Bool-cases (k == j)) [
  | inl same ↦ inl (
    (eq_iff k j).0 same,
    sym (
        some-injective v x
          (sym (lookup-set k j v d ∙ ap (λ b. if b then some v else lookup j d) same) ∙ found)),
  )
  | inr apart ↦
      inr (sym (lookup-set k j v d ∙ ap (λ b. if b then some v else lookup j d) apart) ∙ found)
]

pub lookup_of_lookup-delete {ℓ} :
    {V : Type ℓ} (k j : String) (x : V) (d : Dict V)
    → lookup j (delete k d) ≡ some x
    → lookup j d ≡ some x
lookup_of_lookup-delete k j x d found = elim (Bool-cases (k == j)) [
  | inl same ↦ (cc (lookup-delete k j d ∙ ap (λ b. if b then none else lookup j d) same, found))
  | inr apart ↦ sym (lookup-delete k j d ∙ ap (λ b. if b then none else lookup j d) apart) ∙ found
]

pub ruleset dict_laws = (lookup-set, lookup-delete, has-set)
