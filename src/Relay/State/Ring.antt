-- ===== src/Relay/State/Ring.antt =====
-- The ring of events seen.
use shape_rotator_matrix.Base.{
  ℕ, zero, suc, ◌-◌, ◌≤◌, ltb, String, ◌≡◌, refl, true, List, [], ◌∷◌, ◌++◌, length, drop, elem,
  length-append, length-drop, arith, eq_refl, Bool-cases, inl, inr,
}
use shape_rotator_matrix.Relay.State.{State, keep_last, mark_mx, mx_seen_limit}

pub length-keep_last : (limit : ℕ) (xs : List String) → length (keep_last limit xs) ≤ limit
unfolding keep_last
length-keep_last limit xs = ground (arith, length-drop (length xs - limit) xs)

elem-append : (x : String) (xs : List String) → elem x (xs ++ x ∷ []) ≡ true
elem-append x [] = ground (arith, eq_refl x)
elem-append x (y ∷ xs) = ground (arith, elem-append x xs)

-- The last element outlasts a deletion from the front.
elem-drop :
    (x : String) (n : ℕ) (xs : List String) → n ≤ length xs → elem x (drop n (xs ++ x ∷ [])) ≡ true
elem-drop x zero xs h = elem-append x xs
elem-drop x (suc n) [] h = ground arith
elem-drop x (suc n) (y ∷ xs) h = elem-drop x n xs (omega (arith, h))

elem-keep_last :
    (x : String) (limit : ℕ) (xs : List String)
    → 1 ≤ limit
    → elem x (keep_last limit (xs ++ x ∷ [])) ≡ true
unfolding keep_last
elem-keep_last x limit xs h =
    let n = length (xs ++ x ∷ []) in
    let size = length-append xs (x ∷ []) in
    elim (Bool-cases (ltb limit n)) [
      | inl more ↦ rw more (elem-drop x (n - limit) xs (omega (arith, size, h)))
      | inr fits ↦ rw fits (elem-append x xs)
    ]

-- Recording an event says whether it was recorded before; afterwards it is, the ring is within its
-- limit if it was before, and the Telegram cursor stays.
pub mark_mx-records :
    (event_id : String) (s : State)
    → length s.mx_seen ≤ mx_seen_limit
    → ((mark_mx event_id s).0 ≡ elem event_id s.mx_seen)
      × (elem event_id (mark_mx event_id s).1.mx_seen ≡ true)
      × (length (mark_mx event_id s).1.mx_seen ≤ mx_seen_limit)
      × ((mark_mx event_id s).1.tg_last_id ≡ s.tg_last_id)
unfolding mark_mx
mark_mx-records event_id s h = elim (Bool-cases (elem event_id s.mx_seen)) [
  | inl seen ↦ rw seen (refl, seen, h, refl)
  | inr new ↦ rw new (
    refl,
    elem-keep_last event_id mx_seen_limit s.mx_seen (omega arith),
    length-keep_last mx_seen_limit (s.mx_seen ++ event_id ∷ []),
    refl,
  )
]
