-- ===== src/Codecs/Integers.antt =====
-- A number type for runs of src/ams/codecs that has only integers, packed into four bytes.
use accumulative_matrix_swee.Prelude.{
  ℕ, zero, suc, ◌+◌, ◌*◌, ◌/◌, ◌%◌, refl, true, Option, none, some, List, [], ◌∷◌, arith, ltb,
  if◌then◌else◌,
}
use accumulative_matrix_swee.Prelude.Int.{ℤ, pos, negsuc, ltb_ℤ}
use accumulative_matrix_swee.Codecs.Floats.{Floats, IsIeee}
use accumulative_matrix_swee.Codecs.Int4.{negate}
use accumulative_matrix_swee.Codecs.Int4.RoundTrip.{}
use accumulative_matrix_swee.Codecs.Int4.Nibbles.{}
use accumulative_matrix_swee.Codecs.Int4.Tensor.{}

unfoldable pub magnitude : ℤ → ℕ
magnitude (pos n) = n
magnitude (negsuc n) = suc n

abbrev quotient : ℕ → ℕ → ℕ
quotient a zero = 0
quotient a (suc b) = a / suc b

unfoldable pub scaled : ℤ → ℤ → ℤ
unfolding magnitude
scaled (pos a) (pos b) = pos (a * b)
scaled (pos a) (negsuc b) = negate (a * suc b)
scaled (negsuc a) (pos b) = negate (suc a * b)
scaled (negsuc a) (negsuc b) = pos (suc a * suc b)

unfoldable pub bytes_of : ℤ → Option (List ℕ)
bytes_of (pos n) = if ltb n 65_536 then some (n % 256 ∷ n / 256 ∷ 0 ∷ 0 ∷ []) else none
bytes_of (negsuc n) = none

unfoldable pub of_bytes : List ℕ → ℤ
of_bytes (a ∷ b ∷ _) = pos (a + 256 * b)
of_bytes _ = pos 0

abbrev pub integers : Floats
integers = record {
  F = ℤ;
  zero = pos 0;
  less = ltb_ℤ;
  is_finite = λ x. true;
  abs = λ x. pos (magnitude x);
  add = λ x y. pos (magnitude x + magnitude y);
  div = λ x y. pos (quotient (magnitude x) (magnitude y));
  div_int = λ x n. pos (quotient (magnitude x) n);
  mul_int = scaled;
  floor_half = magnitude;
  pack = bytes_of;
  unpack = of_bytes;
  unpack_half = of_bytes;
  neg = λ x. scaled (negsuc 0) x;
}

pub integers-IsIeee : IsIeee integers
unfolding bytes_of of_bytes magnitude
integers-IsIeee = record {
  length-pack = λ x bs h. ground arith;
  pack-unpack = λ x bs h. ground arith;
  finite-pack = λ x bs h k. refl;
  nonneg-pack = λ x bs h k. ground arith;
  finite-zero = refl;
  unpack-pack_zero = λ bs h. ground arith;
  nonneg-zero = refl;
  finite-abs = λ x h. refl;
  nonneg-abs = λ x h. ground arith;
  finite-div_int = λ x n h. refl;
  nonneg-div_int = λ x n h. ground arith;
  nonneg-add = λ x y h k. ground arith;
}
