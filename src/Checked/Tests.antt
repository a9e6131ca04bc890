-- ===== src/Checked/Tests.antt =====
-- Runs of the checked arithmetic at its bounds.
use accumulative_matrix_swee.Prelude.{ℕ, ◌+◌, ◌≤◌, ◌<◌, ◌^◌, ◌≡◌, ◌↔◌, refl, true, false, [], ◌∷◌}
use accumulative_matrix_swee.Errors.{ok, is_ok}
use accumulative_matrix_swee.Checked.{
  max_serialized_uint, bool, nat, checked_uint, checked_add, checked_mul, checked_product,
  checked_product_from, checked_range_end,
}
use accumulative_matrix_swee.Checked.Laws.{checked_range_end_iff}

-- `True` is an `int` of Python, but no number of a package.
bool_refused : is_ok (checked_uint (bool true)) ≡ false
unfolding checked_uint
bool_refused = refl

largest_product : checked_product (nat (2 ^ 62) ∷ nat 1 ∷ []) ≡ ok (2 ^ 62)
unfolding checked_product checked_product_from checked_mul checked_uint
largest_product = refl

product_refused : is_ok (checked_product (nat (2 ^ 62) ∷ nat 2 ∷ [])) ≡ false
unfolding checked_product checked_product_from checked_mul checked_uint
product_refused = refl

sum_refused : is_ok (checked_add (nat max_serialized_uint) (nat 1)) ≡ false
unfolding checked_add checked_uint
sum_refused = refl

checked_range_end_iff_example : (checked_range_end (nat 4) (nat 3) ≡ ok 7) ↔ (
    (o : ℕ) × (l : ℕ) × (nat 4 ≡ nat o)
    × (nat 3 ≡ nat l)
    × (0 < l)
    × (7 ≡ o + l)
    × (7 ≤ max_serialized_uint))
checked_range_end_iff_example = checked_range_end_iff (nat 4) (nat 3) 7
