-- ===== src/Resources/Invariant.antt =====
-- src/ams/resources.py: amounts by key, and what the two loops over a dict of amounts leave behind.
use accumulative_matrix_swee.Prelude.{
  ℕ, ◌+◌, ◌-◌, ◌≤◌, ◌≡◌, refl, Option, Option-cases, inl, inr, none, some, [], ◌∷◌, arith,
}
use accumulative_matrix_swee.Prelude.Dict.{Dict, lookup, insert, lookup-insert, Distinct}
use accumulative_matrix_swee.Errors.{ok}
use accumulative_matrix_swee.Checked.{max_serialized_uint}
use accumulative_matrix_swee.Checked.Laws.{checked_add-nat}
use accumulative_matrix_swee.Resources.{
  Broker, add_usage, check_available, check_usage, subtract_usage,
}
use accumulative_matrix_swee.Resources.Vector.{Key, key_eq, key_beq_iff}

abbrev pub amount_or_zero : Option ℕ → ℕ
amount_or_zero none = 0
amount_or_zero (some n) = n

-- The amount under a key, 0 if there is none.
unfoldable pub amount_at : Key → Dict Key ℕ → ℕ
amount_at k d = amount_or_zero (lookup k d)

abbrev pub plus : Option ℕ → ℕ → Option ℕ
plus none n = none
plus (some m) n = some (m + n)

abbrev pub minus : Option ℕ → ℕ → Option ℕ
minus none n = none
minus (some m) n = some (m - n)

-- Every key of the first dict stands in the second, with room for the sum.
abbrev pub Fits : Dict Key ℕ → Dict Key ℕ → Type 0
Fits [] used = Unit
Fits ((k, n) ∷ requested) used =
    ((m : ℕ) × (lookup k used ≡ some m) × (m + n ≤ max_serialized_uint)) × Fits requested used

-- Every key of the first dict stands in the second, with at least its amount.
abbrev pub Holds : Dict Key ℕ → Dict Key ℕ → Type 0
Holds [] used = Unit
Holds ((k, n) ∷ resources) used =
    ((m : ℕ) × (lookup k used ≡ some m) × (n ≤ m)) × Holds resources used

Fits-insert :
    (k : Key) (v : ℕ) (requested used : Dict Key ℕ)
    → lookup k requested ≡ none
    → Fits requested used
    → Fits requested (insert k v used)
unfolding lookup
Fits-insert k v [] used h f = tt
Fits-insert k v ((j, n) ∷ requested) used h f = ground (
  arith,
  key_beq_iff k j,
  key_beq_iff j k,
  lookup-insert k j v used,
  Fits-insert k v requested used,
)

Holds-insert :
    (k : Key) (v : ℕ) (resources used : Dict Key ℕ)
    → lookup k resources ≡ none
    → Holds resources used
    → Holds resources (insert k v used)
unfolding lookup
Holds-insert k v [] used h f = tt
Holds-insert k v ((j, n) ∷ resources) used h f = ground (
  arith,
  key_beq_iff k j,
  key_beq_iff j k,
  lookup-insert k j v used,
  Holds-insert k v resources used,
)

-- With room for every sum, the second loop of `reserve` returns, and adds each amount to its key.
pub add_usage_lem :
    (requested used : Dict Key ℕ)
    → Distinct requested
    → Fits requested used
    → (used' : Dict Key ℕ) × (add_usage requested used ≡ (ok tt, used'))
      × ((j : Key) → lookup j used' ≡ plus (lookup j used) (amount_at j requested))
unfolding add_usage lookup amount_at
add_usage_lem [] used d f = (used, refl, λ j. ground arith)
add_usage_lem ((k, n) ∷ requested) used d f =
    let ((m, e, le), f') = f in
    let (used', r, p) =
      add_usage_lem requested (insert k (m + n) used) d.1
        (Fits-insert k (m + n) requested used d.0 f') in
    (
      used',
      rw (e, add_usage) (rw (checked_add-nat m n le, add_usage) r),
      λ j. ground (arith, p j, lookup-insert k j (m + n) used, key_beq_iff j k),
    )

-- With every amount held, `_release` passes its check and takes each amount from its key.
pub subtract_usage_lem :
    (resources used : Dict Key ℕ)
    → Distinct resources
    → Holds resources used
    → (used' : Dict Key ℕ) × (subtract_usage resources used ≡ (ok tt, used'))
      × ((j : Key) → lookup j used' ≡ minus (lookup j used) (amount_at j resources))
unfolding subtract_usage lookup amount_at
subtract_usage_lem [] used d f = (used, refl, λ j. ground arith)
subtract_usage_lem ((k, n) ∷ resources) used d f =
    let ((m, e, le), f') = f in
    let (used', r, p) =
      subtract_usage_lem resources (insert k (m - n) used) d.1
        (Holds-insert k (m - n) resources used d.0 f') in
    (
      used',
      rw (e, subtract_usage) r,
      λ j. ground (arith, p j, lookup-insert k j (m - n) used, key_beq_iff j k),
    )

pub check_usage_lem :
    (resources used : Dict Key ℕ) → Holds resources used → check_usage resources used ≡ ok tt
unfolding check_usage
check_usage_lem [] used h = refl
check_usage_lem ((k, n) ∷ resources) used h = ground (arith, check_usage_lem resources used h.1)

-- What `reserve` asks of each key of a request.
abbrev pub Available : Broker → Dict Key ℕ → Type 0
Available b [] = Unit
Available b ((k, n) ∷ requested) =
    ((c : ℕ) × (m : ℕ) × (lookup k b.capacity ≡ some c) × (lookup k b.used ≡ some m) × (m + n ≤ c))
    × Available b requested

pub check_available-eq_ok :
    (b : Broker) (requested : Dict Key ℕ)
    → check_available b requested ≡ ok tt
    → Available b requested
unfolding check_available
check_available-eq_ok b [] h = tt
check_available-eq_ok b ((k, n) ∷ requested) h = elim (Option-cases (lookup k b.capacity)) [
  | inl e ↦ absurd (ground arith)
  | inr (c, e) ↦ elim (Option-cases (lookup k b.used)) [
    | inl e' ↦ absurd (ground arith)
    | inr (m, e') ↦ ((c, m, e, e', ground arith), check_available-eq_ok b requested (ground arith))
  ]
]

pub check_available_lem :
    (b : Broker) (requested : Dict Key ℕ)
    → Available b requested
    → check_available b requested ≡ ok tt
unfolding check_available
check_available_lem b [] h = refl
check_available_lem b ((k, n) ∷ requested) h = ground (arith, check_available_lem b requested h.1)
