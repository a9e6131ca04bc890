-- ===== src/Codecs/Tests.antt =====
-- Runs of the INT4 codec, and its theorems, over a number type that has only integers.
use accumulative_matrix_swee.Prelude.{
  ℕ, ◌+◌, ◌/◌, ◌<◌, ◌≤◌, ◌≡◌, refl, false, List, [], ◌∷◌, ◌++◌, map, arith, length, take, All,
}
use accumulative_matrix_swee.Prelude.Int.{ℤ, pos, negsuc}
use accumulative_matrix_swee.Errors.{ok, is_ok}
use accumulative_matrix_swee.Checked.{
  max_serialized_uint, checked_uint, checked_positive, checked_add, checked_mul,
}
use accumulative_matrix_swee.Descriptors.Storage.{float32}
use accumulative_matrix_swee.Codecs.Groups.{records}
use accumulative_matrix_swee.Codecs.Grouped.{decode_groups}
use accumulative_matrix_swee.Codecs.Int4.{
  Int4CodecConfig, stored_scale, maximum, quantize, negate, low_nibble, pack_nibbles, encode_group,
  encode_int4_group_reference, signed_nibble, decode_nibble, decode_packed,
  decode_int4_group_reference, decode_int4_reference, group_record_size, encoded_size,
}
use accumulative_matrix_swee.Codecs.Int4.RoundTrip.{
  largest, decode_group-encode_group, decode_group_canonical,
}
use accumulative_matrix_swee.Codecs.Int4.Nibbles.{IsNibble}
use accumulative_matrix_swee.Codecs.Int4.Tensor.{
  record_bytes, encoded_size-records, decode_reference-returns,
}
use accumulative_matrix_swee.Codecs.Integers.{
  integers, integers-IsIeee, magnitude, scaled, bytes_of, of_bytes,
}

abbrev config : Int4CodecConfig
config = record {
  group_size = 3;
  scale_dtype = float32;
  packing = "signed-nibble-low-first";
  version = "1.0.0";
}

abbrev values : List ℤ
values = pos 14 ∷ negsuc 6 ∷ pos 5 ∷ []

abbrev payload : List ℕ
payload = 2 ∷ 0 ∷ 0 ∷ 0 ∷ 215 ∷ 2 ∷ []

encoded : encode_int4_group_reference integers values config ≡ ok payload
unfolding encode_int4_group_reference encode_group stored_scale maximum quantize negate pack_nibbles
    low_nibble checked_positive checked_uint bytes_of of_bytes magnitude
encoded = refl

decoded : decode_int4_group_reference integers payload 3 ≡ ok (pos 14 ∷ negsuc 5 ∷ pos 4 ∷ [])
unfolding decode_int4_group_reference decode_packed decode_nibble signed_nibble scaled negate
    checked_positive checked_uint of_bytes magnitude
decoded = refl

-- The nibble in the padding must be zero, and -8 is no value.
padding_refused :
    is_ok (decode_int4_group_reference integers (2 ∷ 0 ∷ 0 ∷ 0 ∷ 215 ∷ 18 ∷ []) 3) ≡ false
unfolding decode_int4_group_reference decode_packed decode_nibble signed_nibble scaled negate
    checked_positive checked_uint of_bytes magnitude
padding_refused = refl

minus_eight_refused :
    is_ok (decode_int4_group_reference integers (2 ∷ 0 ∷ 0 ∷ 0 ∷ 215 ∷ 8 ∷ []) 3) ≡ false
unfolding decode_int4_group_reference decode_packed decode_nibble signed_nibble scaled negate
    checked_positive checked_uint of_bytes magnitude
minus_eight_refused = refl

decode_group-encode_group_example :
    (scale : ℤ) × (stored_scale integers (largest integers integers-IsIeee values) ≡ ok scale)
    × (decode_int4_group_reference integers payload 3
        ≡ ok (map (scaled scale) (map (λ x. quantize integers x scale) values)))
    × All IsNibble (map (λ x. quantize integers x scale) values)
    × (length payload ≡ 4 + (3 + 1) / 2)
    × (group_record_size config 3 ≡ ok (length payload))
decode_group-encode_group_example =
    decode_group-encode_group integers integers-IsIeee values config payload encoded

decode_group_canonical_example :
    (qs : List ℤ) × All IsNibble qs
    × (length qs ≡ 3)
    × ((pos 14 ∷ negsuc 5 ∷ pos 4 ∷ []) ≡ map (scaled (of_bytes (take 4 payload))) qs)
    × (payload ≡ take 4 payload ++ pack_nibbles qs)
decode_group_canonical_example =
    decode_group_canonical integers payload 3 (pos 14 ∷ negsuc 5 ∷ pos 4 ∷ []) (omega arith) decoded

-- Five values in groups of three are records of 6 and of 5 bytes.
size_five : encoded_size config 5 ≡ ok 11
unfolding encoded_size group_record_size checked_positive checked_uint checked_add checked_mul
size_five = refl

encoded_size-records_example :
    (11 ≡ records record_bytes 3 5 5) × (0 < 5) × (0 < 3) × (5 ≤ max_serialized_uint)
encoded_size-records_example = encoded_size-records config 5 size_five

abbrev two_groups : List ℕ
two_groups = payload ++ (3 ∷ 0 ∷ 0 ∷ 0 ∷ 25 ∷ [])

groups_decoded :
    decode_groups 3
      (group_record_size config)
      (decode_int4_group_reference integers)
      two_groups
      5
      0
      5
    ≡ ok (pos 14 ∷ negsuc 5 ∷ pos 4 ∷ negsuc 20 ∷ pos 3 ∷ [], 11)
unfolding decode_groups group_record_size decode_int4_group_reference decode_packed decode_nibble
    signed_nibble scaled negate checked_positive checked_uint of_bytes magnitude
groups_decoded = refl

decode_reference-returns_example :
    (decode_int4_reference integers two_groups 5 config
      ≡ ok (pos 14 ∷ negsuc 5 ∷ pos 4 ∷ negsuc 20 ∷ pos 3 ∷ []))
    × (length {A = ℤ} (pos 14 ∷ negsuc 5 ∷ pos 4 ∷ negsuc 20 ∷ pos 3 ∷ []) ≡ 5)
decode_reference-returns_example =
    decode_reference-returns integers two_groups 5 config size_five refl groups_decoded
