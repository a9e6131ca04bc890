-- ===== src/Codecs/Ternary.antt =====
-- src/ams/codecs/ternary.py: grouped ternary records, one FP32 scale and five base-3 digits a byte.
pub mod Trits
pub mod RoundTrip
use accumulative_matrix_swee.Prelude.{
  ℕ, zero, suc, ◌+◌, ◌-◌, ◌*◌, ◌/◌, ◌%◌, Bool, true, false, not, ◌&&◌, ◌||◌, Option, none, some,
  List, [], ◌∷◌, ◌++◌, map, max, ltb, leb, ◌==◌, length, take, drop, all, if◌then◌else◌, String,
}
use accumulative_matrix_swee.Prelude.Text.{str_eq}
use accumulative_matrix_swee.Prelude.Int.{pos}
use accumulative_matrix_swee.Errors.{
  Exception, Result, ok, err, raise, raise_if, invalid_package, plan_invalid, capability_mismatch,
  numeric_failure, internal_invariant, ◌>>=◌, ◌>>◌,
}
use accumulative_matrix_swee.Checked.{Value, nat, checked_positive, checked_add, checked_mul}
use accumulative_matrix_swee.Descriptors.Storage.{DType, float32, ByteRange}
use accumulative_matrix_swee.Codecs.Floats.{Floats}
use accumulative_matrix_swee.Codecs.Sink.{Sink}
use accumulative_matrix_swee.Codecs.Stream.{Reader, Hashes, EncodingResult, encode_stream}
use accumulative_matrix_swee.Codecs.Grouped.{decode_groups}
use accumulative_matrix_swee.Codecs.Int4.{is_float32, pack_result}

pub record TernaryCodecConfig : Type 0 where
  pub group_size : ℕ
  pub threshold_numerator : ℕ
  pub threshold_denominator : ℕ
  pub scale_dtype : DType
  pub packing : String
  pub version : String

-- The constructor with its `__post_init__`.
unfoldable pub ternary_codec_config :
    Value → Value → Value → DType → String → String → Result TernaryCodecConfig
unfolding is_float32
ternary_codec_config group_size numerator denominator scale_dtype packing version = do
  g ← checked_positive group_size
  raise_if (ltb 65_536 g) plan_invalid
  n ← checked_positive numerator
  d ← checked_positive denominator
  raise_if (ltb d n) plan_invalid
  raise_if (not (is_float32 scale_dtype)) capability_mismatch
  raise_if (not (str_eq packing "trit5") || not (str_eq version "1.0.0")) capability_mismatch
  ok (record {
    group_size = g;
    threshold_numerator = n;
    threshold_denominator = d;
    scale_dtype = scale_dtype;
    packing = packing;
    version = version;
  })

unfoldable pub group_record_size : TernaryCodecConfig → ℕ → Result ℕ
group_record_size config element_count = do
  checked_positive (nat element_count)
  raise_if (ltb config.group_size element_count) plan_invalid
  ok (4 + (element_count + 5 - 1) / 5)

unfoldable pub encoded_size : TernaryCodecConfig → ℕ → Result ℕ
unfolding group_record_size
encoded_size config element_count = do
  checked_positive (nat element_count)
  let groups = (element_count - 1) / config.group_size + 1
  full_record ← group_record_size config config.group_size
  let tail = if groups == 1 then element_count else element_count - (groups - 1) * config.group_size
  full_records ← checked_mul (nat (max (groups - 1) 0)) (nat full_record)
  tail_record ← group_record_size config tail
  checked_add (nat full_records) (nat tail_record)

-- The loop of `_encode_group` that packs five digits into a byte; a missing digit is 1.
unfoldable pub pack_trits : List ℕ → List ℕ
pack_trits [] = []
pack_trits (a ∷ []) = (a + 1 * 3 + 1 * 9 + 1 * 27 + 1 * 81) ∷ []
pack_trits (a ∷ b ∷ []) = (a + b * 3 + 1 * 9 + 1 * 27 + 1 * 81) ∷ []
pack_trits (a ∷ b ∷ c ∷ []) = (a + b * 3 + c * 9 + 1 * 27 + 1 * 81) ∷ []
pack_trits (a ∷ b ∷ c ∷ d ∷ []) = (a + b * 3 + c * 9 + d * 27 + 1 * 81) ∷ []
pack_trits (a ∷ b ∷ c ∷ d ∷ e ∷ rest) = (a + b * 3 + c * 9 + d * 27 + e * 81) ∷ pack_trits rest

module _ (f : Floats) where
  -- The sum of the magnitudes from a total so far, in the order of the source.
  unfoldable pub absolute_total : f.F → List f.F → f.F
  absolute_total total [] = total
  absolute_total total (v ∷ vs) = absolute_total (f.add total (f.abs v)) vs

  unfoldable pub threshold_of : List f.F → TernaryCodecConfig → f.F
  unfolding absolute_total
  threshold_of values config =
      f.div_int
        (f.mul_int (f.div_int (absolute_total f.zero values) (length values))
          (pos config.threshold_numerator))
        config.threshold_denominator

  -- The sum and the number of the magnitudes above the threshold, from those so far.
  unfoldable pub selected : f.F → f.F → ℕ → List f.F → f.F × ℕ
  selected threshold total count [] = (total, count)
  selected threshold total count (v ∷ vs) =
      selected threshold (if f.less threshold (f.abs v) then f.add total (f.abs v) else total)
        (if f.less threshold (f.abs v) then count + 1 else count) vs

  unfoldable pub group_scale : f.F → List f.F → f.F
  unfolding selected
  group_scale threshold values =
      let (total, count) = selected threshold f.zero 0 values in
      if count == 0 then f.zero else f.div_int total count

  unfoldable pub digit_of : f.F → f.F → ℕ
  digit_of threshold value =
      if f.less value (f.neg threshold) then 0 else if f.less threshold value then 2 else 1

  -- `_encode_group`, of a list that is not empty.
  unfoldable pub encode_group : List f.F → TernaryCodecConfig → Result (List ℕ)
  unfolding threshold_of group_scale digit_of pack_trits
  encode_group values config = do
    let threshold = threshold_of values config
    header ← pack_result f (f.pack (group_scale threshold values))
    ok (header ++ pack_trits (map (digit_of threshold) values))

  unfoldable pub encode_ternary_group_reference : List f.F → TernaryCodecConfig → Result (List ℕ)
  unfolding encode_group
  encode_ternary_group_reference values config = do
    checked_positive (nat (length values))
    raise_if (ltb config.group_size (length values)) plan_invalid
    raise_if (not (all f.is_finite values)) numeric_failure
    encode_group values config

  -- `-scale if digit == 0 else 0.0 if digit == 1 else scale`
  unfoldable pub trit_value : f.F → ℕ → f.F
  trit_value scale digit = if digit == 0 then f.neg scale else if digit == 1 then f.zero else scale

  -- One turn of the inner loop: nothing in the tail, else one value.
  unfoldable pub decode_trit : f.F → ℕ → ℕ → ℕ → Result (List f.F)
  unfolding trit_value
  decode_trit scale element_count element_index digit =
      if leb element_count element_index
      then if not (digit == 1) then raise invalid_package else ok []
      else ok (trit_value scale digit ∷ [])

  -- `for slot in range(5)`, of one byte.
  unfoldable pub decode_byte : f.F → ℕ → ℕ → ℕ → Result (List f.F)
  unfolding decode_trit
  decode_byte scale element_count packed_index packed = do
    raise_if (ltb 242 packed) invalid_package
    a ← decode_trit scale element_count (packed_index * 5) (packed / 1 % 3)
    b ← decode_trit scale element_count (packed_index * 5 + 1) (packed / 3 % 3)
    c ← decode_trit scale element_count (packed_index * 5 + 2) (packed / 9 % 3)
    d ← decode_trit scale element_count (packed_index * 5 + 3) (packed / 27 % 3)
    e ← decode_trit scale element_count (packed_index * 5 + 4) (packed / 81 % 3)
    ok (a ++ b ++ c ++ d ++ e)

  unfoldable pub decode_trits : f.F → ℕ → ℕ → List ℕ → Result (List f.F)
  unfolding decode_byte
  decode_trits scale element_count packed_index [] = ok []
  decode_trits scale element_count packed_index (packed ∷ rest) = do
    here ← decode_byte scale element_count packed_index packed
    values ← decode_trits scale element_count (packed_index + 1) rest
    ok (here ++ values)

  unfoldable pub decode_ternary_group_reference : List ℕ → ℕ → Result (List f.F)
  unfolding decode_trits
  decode_ternary_group_reference payload element_count = do
    checked_positive (nat element_count)
    raise_if (not (length payload == 4 + (element_count + 5 - 1) / 5)) invalid_package
    let scale = f.unpack (take 4 payload)
    raise_if (not (f.is_finite scale) || f.less scale f.zero) numeric_failure
    decode_trits scale element_count 0 (drop 4 payload)

  unfoldable pub decode_ternary_reference : List ℕ → ℕ → TernaryCodecConfig → Result (List f.F)
  decode_ternary_reference payload element_count config = do
    size ← encoded_size config element_count
    raise_if (not (length payload == size)) invalid_package
    (output, cursor) ←
        decode_groups config.group_size (group_record_size config) decode_ternary_group_reference
          payload element_count 0 element_count
    raise_if (not (cursor == length payload) || not (length output == element_count))
        internal_invariant
    ok output

  unfoldable pub encode_ternary_stream :
      (k : Sink)
      → Hashes
      → Reader
      → ByteRange
      → List Value
      → DType
      → TernaryCodecConfig
      → k.S
      → Result EncodingResult × k.S
  encode_ternary_stream k h reader source shape source_dtype config s =
      encode_stream f k h reader config.group_size (encoded_size config)
        (λ values. encode_ternary_group_reference values config) source shape source_dtype s
