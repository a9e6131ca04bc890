-- ===== src/OpenaiStream/Client/Amend.antt =====
-- The client's change of one item, where the items are the views of the outputs of an order.
use mathlib.Core.List.{map-append}
use accumulative_matrix_swee.Prelude.{
  ℕ, suc, ◌+◌, ◌≡◌, ◌∙◌, refl, ap, Bool-cases, true, false, ◌&&◌, ◌==◌, Option, some, List, [], ◌∷◌,
  ◌++◌, map, arith, length, inl, inr,
}
use accumulative_matrix_swee.Errors.{ok}
use accumulative_matrix_swee.Generation.{OutputKind, message, reasoning, tool}
use accumulative_matrix_swee.Generation.Order.{output_eq, in_order, UniqueOutputs}
use accumulative_matrix_swee.OpenaiStream.Payloads.{Item}
use accumulative_matrix_swee.OpenaiStream.Session.{index_from}
use accumulative_matrix_swee.OpenaiStream.Client.{amend}

abbrev View : Type 0
View = OutputKind × ℕ → Item

-- The item behind the first ones.
pub amend-append :
    (done : List Item) (change : Item → Option Item) (x y : Item) (rest : List Item)
    → change x ≡ some y
    → amend (length done) change (done ++ x ∷ rest) ≡ some (done ++ y ∷ rest)
unfolding amend
amend-append [] change x y rest h = rw h refl
amend-append (d ∷ done) change x y rest h = rw (amend-append done change x y rest h) refl

output_eq_sound :
    (k l : OutputKind) (i j : ℕ)
    → (output_eq k l && i == j) ≡ true
    → ◌≡◌ {A = OutputKind × ℕ} (l, j) (k, i)
output_eq_sound message message i j h = ground arith
output_eq_sound message reasoning i j h = cc
output_eq_sound message tool i j h = cc
output_eq_sound reasoning message i j h = cc
output_eq_sound reasoning reasoning i j h = ground arith
output_eq_sound reasoning tool i j h = cc
output_eq_sound tool message i j h = cc
output_eq_sound tool reasoning i j h = cc
output_eq_sound tool tool i j h = ground arith

output_eq_refl : (k : OutputKind) (i : ℕ) → (output_eq k k && i == i) ≡ true
output_eq_refl message i = ground arith
output_eq_refl reasoning i = ground arith
output_eq_refl tool i = ground arith

-- Two views that agree on the outputs of an order give the same items.
pub map-eq-map :
    (v w : View) (order : List (OutputKind × ℕ))
    → ((k : OutputKind) (i : ℕ) → in_order k i order ≡ true → v (k, i) ≡ w (k, i))
    → map v order ≡ map w order
unfolding in_order
map-eq-map v w [] h = refl
map-eq-map v w ((k, i) ∷ order) h =
    let rest = map-eq-map v w order (λ l j m. h l j (ground arith)) in
    let head = h k i (ground (arith, output_eq_refl k i)) in cc

-- No output of the rest is the one that stands at the head.
distinct :
    (k : OutputKind) (i : ℕ) (l : OutputKind) (j : ℕ) (order : List (OutputKind × ℕ))
    → (output_eq k l && i == j) ≡ true
    → in_order l j order ≡ false
    → (k' : OutputKind) (i' : ℕ) → in_order k' i' order ≡ true
    → (output_eq k k' && i == i') ≡ false
distinct k i l j order here fresh k' i' m = elim (Bool-cases (output_eq k k' && i == i')) [
  | inr no_match ↦ no_match
  | inl match ↦
      let occurs = λ (o : OutputKind × ℕ). in_order o.0 o.1 order in
      let e = ap occurs (output_eq_sound k l i j here) in
      let e' = ap occurs (output_eq_sound k k' i i' match) in absurd (cc)
]

-- An output that is in the order has a position there, and changing the item at that position changes
-- the view of that output only.
amend-map :
    (k : OutputKind) (i : ℕ) (v w : View) (change : Item → Option Item)
    (order : List (OutputKind × ℕ)) (m : ℕ)
    → UniqueOutputs order
    → in_order k i order ≡ true
    → change (v (k, i)) ≡ some (w (k, i))
    → ((l : OutputKind) (j : ℕ)
        → in_order l j order ≡ true
        → (output_eq k l && i == j) ≡ false
        → v (l, j) ≡ w (l, j))
    → (p : ℕ) × (index_from m k i order ≡ ok (m + p))
      × (amend p change (map v order) ≡ some (map w order))
unfolding in_order index_from amend
amend-map k i v w change [] m u h c same = absurd (cc)
amend-map k i v w change ((l, j) ∷ order) m u h c same =
    elim (Bool-cases (output_eq k l && i == j)) [
      | inl here ↦
          let e = output_eq_sound k l i j here in
          let other = distinct k i l j order here u.0 in
          let tail =
            map-eq-map v w order (λ k' i' m'. same k' i' (ground arith) (other k' i' m')) in
          (0, ground arith, ground (arith, ap v e, ap w e))
      | inr there ↦
          let (p, ep, ea) =
            amend-map k i v w change order (m + 1) u.1 (ground arith) c
              (λ l' j' m'. same l' j' (ground arith)) in
          (suc p, ground arith, rw (ea, same l j (ground (arith, output_eq_refl l j)) there) refl)
    ]

-- A new output at the end, whose view is the new item; the views of the others stay.
pub map-append_one :
    (v w : View) (items : List Item) (order : List (OutputKind × ℕ)) (k : OutputKind) (i : ℕ)
    (x : Item)
    → items ≡ map v order
    → ((l : OutputKind) (j : ℕ) → in_order l j order ≡ true → v (l, j) ≡ w (l, j))
    → x ≡ w (k, i)
    → items ++ x ∷ [] ≡ map w (order ++ (k, i) ∷ [])
map-append_one v w items order k i x e same ex =
    rw (map-append w order ((k, i) ∷ []), ex, e, map-eq-map v w order same) refl

-- The same, with positions counted from 0.
pub amend-map_start :
    (k : OutputKind) (i : ℕ) (v w : View) (change : Item → Option Item)
    (order : List (OutputKind × ℕ))
    → UniqueOutputs order
    → in_order k i order ≡ true
    → change (v (k, i)) ≡ some (w (k, i))
    → ((l : OutputKind) (j : ℕ)
        → in_order l j order ≡ true
        → (output_eq k l && i == j) ≡ false
        → v (l, j) ≡ w (l, j))
    → (p : ℕ) × (index_from 0 k i order ≡ ok p)
      × (amend p change (map v order) ≡ some (map w order))
amend-map_start k i v w change order u h c same =
    let (p, ep, ea) = amend-map k i v w change order 0 u h c same in
    (p, ep ∙ ap ok (omega arith), ea)
