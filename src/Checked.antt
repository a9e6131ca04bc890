-- ===== src/Checked.antt =====
-- src/ams/checked.py: integers in [0, 2^63 - 1] and sums, products and ranges of such.
pub mod Laws
mod Tests
use accumulative_matrix_swee.Prelude.{
  ℕ, ◌+◌, ◌-◌, ◌*◌, ◌/◌, ◌^◌, Bool, not, ◌&&◌, List, [], ◌∷◌, String, ltb, ◌==◌, if◌then◌else◌,
}
use accumulative_matrix_swee.Prelude.Int.{ℤ, pos, negsuc}
use accumulative_matrix_swee.Errors.{Result, ok, raise, invalid_package, ◌>>=◌, ◌>>◌}

-- A value of Python where the code asks for its type: `bool` is a subclass of `int` there.
pub data Value : Type 0 where
  int : ℤ → Value
  bool : Bool → Value
  str : String → Value
  other : Value

abbrev pub nat : ℕ → Value
nat n = int (pos n)

abbrev pub max_serialized_uint : ℕ
max_serialized_uint = 2 ^ 63 - 1

unfoldable pub checked_uint : Value → Result ℕ
checked_uint (int (pos n)) = if ltb max_serialized_uint n then raise invalid_package else ok n
checked_uint (int (negsuc n)) = raise invalid_package
checked_uint (bool b) = raise invalid_package
checked_uint (str s) = raise invalid_package
checked_uint other = raise invalid_package

unfoldable pub checked_positive : Value → Result ℕ
unfolding checked_uint
checked_positive value = do n ← checked_uint value; if n == 0 then raise invalid_package else ok n

unfoldable pub checked_add : Value → Value → Result ℕ
unfolding checked_uint
checked_add left right = do
  l ← checked_uint left
  r ← checked_uint right
  if ltb (max_serialized_uint - r) l then raise invalid_package else ok (l + r)

unfoldable pub checked_mul : Value → Value → Result ℕ
unfolding checked_uint
checked_mul left right = do
  l ← checked_uint left
  r ← checked_uint right
  if not (l == 0) && ltb (max_serialized_uint / l) r then raise invalid_package else ok (l * r)

-- The loop of `checked_product` from a result so far.
unfoldable pub checked_product_from : ℕ → List Value → Result ℕ
unfolding checked_mul
checked_product_from result [] = ok result
checked_product_from result (value ∷ values) = do
  next ← checked_mul (nat result) value
  checked_product_from next values

unfoldable pub checked_product : List Value → Result ℕ
unfolding checked_product_from
checked_product values = checked_product_from 1 values

unfoldable pub checked_range_end : Value → Value → Result ℕ
unfolding checked_uint checked_positive checked_add
checked_range_end offset length = do
  checked_uint offset
  checked_positive length
  checked_add offset length
