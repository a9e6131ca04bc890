-- ===== src/Checked/Laws.antt =====
-- src/ams/checked.py: the checked operations against the arithmetic of unbounded integers.
use native.Mathlib.Nat.{mul_assoc}
use accumulative_matrix_swee.Prelude.{
  ◌∙◌, ap, ℕ, ◌+◌, ◌*◌, ◌/◌, ◌≤◌, ◌<◌, ◌≡◌, ◌↔◌, refl, List, [], ◌∷◌, map, All, arith,
}
use accumulative_matrix_swee.Prelude.Int.{pos, negsuc}
use accumulative_matrix_swee.Errors.{ok, >>=-eq-ok}
use accumulative_matrix_swee.Checked.{
  Value, nat, int, bool, str, other, max_serialized_uint, checked_uint, checked_positive,
  checked_add, checked_mul, checked_product_from, checked_product, checked_range_end,
}

pub checked_uint-nat : (n : ℕ) → n ≤ max_serialized_uint → checked_uint (nat n) ≡ ok n
unfolding checked_uint
checked_uint-nat n h = ground arith

-- What `checked_uint` lets through is an integer of the range.
pub checked_uint-eq_ok :
    (v : Value) {n : ℕ} → checked_uint v ≡ ok n → (v ≡ nat n) × (n ≤ max_serialized_uint)
unfolding checked_uint
checked_uint-eq_ok (int (pos n)) h = ground arith
checked_uint-eq_ok (int (negsuc n)) h = cc
checked_uint-eq_ok (bool b) h = cc
checked_uint-eq_ok (str s) h = cc
checked_uint-eq_ok other h = cc

-- The test by division is the test on the product.
mul_fits : (l r m : ℕ) → 0 < l → r ≤ m / l → l * r ≤ m
mul_fits l r m p h = grind arith

mul_overflows : (l r m : ℕ) → 0 < l → m / l < r → m < l * r
mul_overflows l r m p h = grind arith

pub checked_mul-nat :
    (l r : ℕ)
    → l ≤ max_serialized_uint
    → r ≤ max_serialized_uint
    → l * r ≤ max_serialized_uint
    → checked_mul (nat l) (nat r) ≡ ok (l * r)
unfolding checked_mul
checked_mul-nat l r hl hr h = ground (arith, mul_overflows l r max_serialized_uint)

-- A result of `checked_mul` is the product of two integers of the range, and in the range.
pub checked_mul-eq_ok :
    (v w : Value) {n : ℕ}
    → checked_mul v w ≡ ok n
    → (l r : ℕ) × (v ≡ nat l) × (w ≡ nat r) × (n ≡ l * r) × (n ≤ max_serialized_uint)
unfolding checked_mul
checked_mul-eq_ok v w h =
    let (l, el, h') = >>=-eq-ok (checked_uint v) _ h in
    let (r, er, h'') = >>=-eq-ok (checked_uint w) _ h' in
    let (ev, _) = checked_uint-eq_ok v el in
    let (ew, _) = checked_uint-eq_ok w er in
    (l, r, ev, ew, ground arith, ground (arith, mul_fits l r max_serialized_uint))

pub checked_add-eq_ok :
    (v w : Value) {n : ℕ}
    → checked_add v w ≡ ok n
    → (l : ℕ) × (r : ℕ) × (v ≡ nat l) × (w ≡ nat r) × (n ≡ l + r) × (n ≤ max_serialized_uint)
unfolding checked_add
checked_add-eq_ok v w h =
    let (l, el, h') = >>=-eq-ok (checked_uint v) _ h in
    let (r, er, h'') = >>=-eq-ok (checked_uint w) _ h' in
    let (ev, _) = checked_uint-eq_ok v el in
    let (ew, ew') = checked_uint-eq_ok w er in (l, r, ev, ew, ground arith, ground arith)

pub checked_add-nat :
    (l r : ℕ) → l + r ≤ max_serialized_uint → checked_add (nat l) (nat r) ≡ ok (l + r)
unfolding checked_add
checked_add-nat l r h = ground arith

pub checked_positive-nat :
    (n : ℕ) → 0 < n → n ≤ max_serialized_uint → checked_positive (nat n) ≡ ok n
unfolding checked_positive
checked_positive-nat n p h = ground arith

pub checked_positive-eq_ok :
    (v : Value) {n : ℕ}
    → checked_positive v ≡ ok n
    → (v ≡ nat n) × (0 < n) × (n ≤ max_serialized_uint)
unfolding checked_positive
checked_positive-eq_ok v h =
    let (m, e, h') = >>=-eq-ok (checked_uint v) _ h in
    let (ev, le) = checked_uint-eq_ok v e in (ground (arith, ev), ground arith, ground arith)

checked_range_end-eq_ok :
    (offset length : Value) {end : ℕ}
    → checked_range_end offset length ≡ ok end
    → (o : ℕ) × (l : ℕ) × (offset ≡ nat o)
      × (length ≡ nat l)
      × (0 < l)
      × (end ≡ o + l)
      × (end ≤ max_serialized_uint)
unfolding checked_range_end
checked_range_end-eq_ok offset length h =
    let (_, _, h') = >>=-eq-ok (checked_uint offset) _ h in
    let (l, el, h'') = >>=-eq-ok (checked_positive length) _ h' in
    let (pl, pos_l, _) = checked_positive-eq_ok length el in
    let (o, l', eo, el', e, le) = checked_add-eq_ok offset length h'' in
    (o, l', eo, el', ground arith, e, le)

pub checked_range_end-nat :
    (o l : ℕ) → 0 < l → o + l ≤ max_serialized_uint → checked_range_end (nat o) (nat l) ≡ ok (o + l)
unfolding checked_range_end
checked_range_end-nat o l p h = ground arith

-- The product of the integers of a list, with no bound.
abbrev pub product : List ℕ → ℕ
product [] = 1
product (n ∷ ns) = n * product ns

-- A product that is returned is that of the integers given, and in the range.
checked_product_from-eq_ok :
    (acc : ℕ) (values : List Value) {p : ℕ}
    → acc ≤ max_serialized_uint
    → checked_product_from acc values ≡ ok p
    → (ns : List ℕ) × (values ≡ map nat ns) × (p ≡ acc * product ns) × (p ≤ max_serialized_uint)
unfolding checked_product_from
checked_product_from-eq_ok acc [] le h = ([], refl, ground arith, ground arith)
checked_product_from-eq_ok acc (v ∷ vs) le h =
    let (m, em, h') = >>=-eq-ok (checked_mul (nat acc) v) _ h in
    let (l, r, el, er, e, le') = checked_mul-eq_ok (nat acc) v em in
    let (ns, ens, ep, lp) = checked_product_from-eq_ok m vs le' h' in
    (r ∷ ns, cc, cc (mul_assoc l r (product ns)), lp)

product_pos : (ns : List ℕ) → All (λ n. 0 < n) ns → 0 < product ns
product_pos [] h = omega arith
product_pos (n ∷ ns) h = let q = product_pos ns h.1 in grind arith

le_mul_pos : (a b : ℕ) → 0 < b → a ≤ a * b
le_mul_pos a b h = grind arith

checked_product_from-nat :
    (acc : ℕ) (ns : List ℕ)
    → 0 < acc
    → All (λ n. 0 < n) ns
    → acc * product ns ≤ max_serialized_uint
    → checked_product_from acc (map nat ns) ≡ ok (acc * product ns)
unfolding checked_product_from
checked_product_from-nat acc [] p h le = ground arith
checked_product_from-nat acc (n ∷ ns) p h le =
    let q = mul_assoc acc n (product ns) in
    let pn = product_pos ns h.1 in
    let fits = le_mul_pos (acc * n) (product ns) pn in
    let pan : 0 < acc * n = grind arith in
    let room_n : n ≤ acc * n = grind arith in
    let room_acc = le_mul_pos acc n h.0 in
    rw (checked_mul-nat acc n (omega arith) (omega arith) (omega arith))
      (checked_product_from-nat (acc * n) ns pan h.1 (omega arith) ∙ ap ok q)

-- `checked_product` returns p on a list only where the list holds integers whose product is p, and p
-- is at most 2^63 - 1; on positive integers whose product is in range it returns the product.
checked_product_exact :
    ((values : List Value) (p : ℕ)
      → checked_product values ≡ ok p
      → (ns : List ℕ) × (values ≡ map nat ns) × (p ≡ product ns) × (p ≤ max_serialized_uint))
    × ((ns : List ℕ)
        → All (λ n. 0 < n) ns
        → product ns ≤ max_serialized_uint
        → checked_product (map nat ns) ≡ ok (product ns))
unfolding checked_product
checked_product_exact = (
  λ values p h.
      let (ns, e, ep, le) = checked_product_from-eq_ok 1 values (omega arith) h in
      (ns, e, omega arith, le),
  λ ns h le. checked_product_from-nat 1 ns (omega arith) h (omega arith) ∙ ap ok (omega arith),
)

-- `checked_range_end` returns e exactly on a nonnegative integer offset and a positive integer length
-- whose sum is e and at most 2^63 - 1.
pub checked_range_end_iff :
    (offset length : Value) (end : ℕ)
    → (checked_range_end offset length ≡ ok end) ↔ (
        (o : ℕ) × (l : ℕ) × (offset ≡ nat o)
        × (length ≡ nat l)
        × (0 < l)
        × (end ≡ o + l)
        × (end ≤ max_serialized_uint))
checked_range_end_iff offset length end = (
  checked_range_end-eq_ok offset length,
  λ (o, l, eo, el, p, e, le). rw (eo, el, e) (checked_range_end-nat o l p (rw (← e) le)),
)

-- The same of operands that are numbers already.
pub checked_positive-nat-eq_ok :
    (n : ℕ) {m : ℕ}
    → checked_positive (nat n) ≡ ok m
    → (m ≡ n) × (0 < n) × (n ≤ max_serialized_uint)
checked_positive-nat-eq_ok n e =
    let (ev, p, le) = checked_positive-eq_ok (nat n) e in (ground arith, ground arith, ground arith)

pub checked_add-nat-eq_ok :
    (l r : ℕ) {n : ℕ} → checked_add (nat l) (nat r) ≡ ok n → (n ≡ l + r) × (n ≤ max_serialized_uint)
checked_add-nat-eq_ok l r e =
    let (a, b, ea, eb, en, le) = checked_add-eq_ok (nat l) (nat r) e in (ground arith, ground arith)

pub checked_mul-nat-eq_ok :
    (l r : ℕ) {n : ℕ} → checked_mul (nat l) (nat r) ≡ ok n → (n ≡ l * r) × (n ≤ max_serialized_uint)
checked_mul-nat-eq_ok l r e =
    let (a, b, ea, eb, en, le) = checked_mul-eq_ok (nat l) (nat r) e in
    let el : l ≡ a = ground arith in let er : r ≡ b = ground arith in (rw (el, er) en, ground arith)
