-- ===== src/Codecs/TernaryTests.antt =====
-- Runs of the ternary codec, over a number type that has only integers.
use accumulative_matrix_swee.Prelude.{
  ℕ, ◌+◌, ◌/◌, ◌≡◌, refl, false, List, [], ◌∷◌, ◌++◌, map, length, take, All,
}
use accumulative_matrix_swee.Prelude.Int.{ℤ, pos, negsuc}
use accumulative_matrix_swee.Errors.{ok, is_ok}
use accumulative_matrix_swee.Checked.{checked_uint, checked_positive}
use accumulative_matrix_swee.Descriptors.Storage.{float32}
use accumulative_matrix_swee.Codecs.Integers.{
  integers, integers-IsIeee, magnitude, scaled, bytes_of, of_bytes,
}
use accumulative_matrix_swee.Codecs.Int4.{negate}
use accumulative_matrix_swee.Codecs.Ternary.{
  TernaryCodecConfig, pack_trits, absolute_total, threshold_of, selected, group_scale, digit_of,
  trit_value, encode_group, encode_ternary_group_reference, decode_trit, decode_byte, decode_trits,
  decode_ternary_group_reference,
}
use accumulative_matrix_swee.Codecs.Ternary.Trits.{IsTrit}
use accumulative_matrix_swee.Codecs.Ternary.RoundTrip.{
  decode_ternary-encode_ternary, decode_ternary_canonical,
}

abbrev config : TernaryCodecConfig
config = record {
  group_size = 4;
  threshold_numerator = 7;
  threshold_denominator = 10;
  scale_dtype = float32;
  packing = "trit5";
  version = "1.0.0";
}

abbrev values : List ℤ
values = pos 10 ∷ negsuc 9 ∷ pos 1 ∷ []

abbrev payload : List ℕ
payload = 10 ∷ 0 ∷ 0 ∷ 0 ∷ 119 ∷ []

encoded : encode_ternary_group_reference integers values config ≡ ok payload
unfolding encode_ternary_group_reference encode_group threshold_of absolute_total group_scale
    selected digit_of pack_trits checked_positive checked_uint bytes_of magnitude scaled negate
encoded = refl

decoded : decode_ternary_group_reference integers payload 3 ≡ ok (pos 10 ∷ negsuc 9 ∷ pos 0 ∷ [])
unfolding decode_ternary_group_reference decode_trits decode_byte decode_trit trit_value
    checked_positive checked_uint of_bytes scaled negate
decoded = refl

-- 119 + 243 is no byte, and 119 - 27 has a zero digit where the padding is.
padding_refused :
    is_ok (decode_ternary_group_reference integers (10 ∷ 0 ∷ 0 ∷ 0 ∷ 92 ∷ []) 3) ≡ false
unfolding decode_ternary_group_reference decode_trits decode_byte decode_trit trit_value
    checked_positive checked_uint of_bytes scaled negate
padding_refused = refl

decode_ternary-encode_ternary_example :
    (decode_ternary_group_reference integers payload 3
      ≡ ok (
          map
            (trit_value integers (of_bytes (take 4 payload)))
            (map (digit_of integers (threshold_of integers values config)) values)))
    × (bytes_of (of_bytes (take 4 payload))
        ≡ bytes_of (group_scale integers (threshold_of integers values config) values))
    × (length payload ≡ 4 + (3 + 4) / 5)
decode_ternary-encode_ternary_example =
    decode_ternary-encode_ternary integers integers-IsIeee values config payload encoded refl

decode_ternary_canonical_example :
    (ds : List ℕ) × All IsTrit ds
    × (length ds ≡ 3)
    × ((pos 10 ∷ negsuc 9 ∷ pos 0 ∷ []) ≡ map (trit_value integers (of_bytes (take 4 payload))) ds)
    × (payload ≡ take 4 payload ++ pack_trits ds)
decode_ternary_canonical_example =
    decode_ternary_canonical integers payload 3 (pos 10 ∷ negsuc 9 ∷ pos 0 ∷ []) decoded
