-- ===== src/Codecs/Int4.antt =====
-- src/ams/codecs/int4.py: grouped symmetric INT4 records, one FP32 scale and two signed nibbles a byte.
pub mod Nibbles
pub mod RoundTrip
pub mod Tensor
pub mod Whole
use Prim.Native.Nat.{bit_or}
use accumulative_matrix_swee.Prelude.{
  ℕ, zero, suc, ◌+◌, ◌-◌, ◌*◌, ◌/◌, ◌%◌, ◌^◌, ◌≡◌, Bool, true, false, not, ◌&&◌, ◌||◌, Option, none,
  some, List, [], ◌∷◌, ◌++◌, map, min, max, ltb, leb, ◌==◌, length, take, drop, all, if◌then◌else◌,
  String,
}
use accumulative_matrix_swee.Prelude.Text.{str_eq}
use accumulative_matrix_swee.Prelude.Int.{ℤ, pos, negsuc}
use accumulative_matrix_swee.Errors.{
  Exception, Result, ok, err, raise, raise_if, overflow_error, invalid_package, plan_invalid,
  capability_mismatch, numeric_failure, internal_invariant, ◌>>=◌, ◌>>◌,
}
use accumulative_matrix_swee.Checked.{Value, nat, checked_positive, checked_add, checked_mul}
use accumulative_matrix_swee.Descriptors.Storage.{DType, float32, ByteRange}
use accumulative_matrix_swee.Codecs.Floats.{Floats}
use accumulative_matrix_swee.Codecs.Sink.{Sink}
use accumulative_matrix_swee.Codecs.Stream.{Reader, Hashes, EncodingResult, encode_stream}
use accumulative_matrix_swee.Codecs.Grouped.{decode_groups}

pub record Int4CodecConfig : Type 0 where
  pub group_size : ℕ
  pub scale_dtype : DType
  pub packing : String
  pub version : String

unfoldable pub is_float32 : DType → Bool
is_float32 float32 = true
is_float32 _ = false

unfoldable pub int4_codec_config : Value → DType → String → String → Result Int4CodecConfig
unfolding is_float32
int4_codec_config group_size scale_dtype packing version = do
  g ← checked_positive group_size
  raise_if (ltb 65_536 g) plan_invalid
  raise_if (not (is_float32 scale_dtype)) capability_mismatch
  raise_if (not (str_eq packing "signed-nibble-low-first") || not (str_eq version "1.0.0"))
      capability_mismatch
  ok (record { group_size = g; scale_dtype = scale_dtype; packing = packing; version = version })

unfoldable pub group_record_size : Int4CodecConfig → ℕ → Result ℕ
group_record_size config element_count = do
  checked_positive (nat element_count)
  raise_if (ltb config.group_size element_count) plan_invalid
  ok (4 + (element_count + 2 - 1) / 2)

unfoldable pub encoded_size : Int4CodecConfig → ℕ → Result ℕ
unfolding group_record_size
encoded_size config element_count = do
  checked_positive (nat element_count)
  let groups = (element_count - 1) / config.group_size + 1
  full_record ← group_record_size config config.group_size
  let tail = if groups == 1 then element_count else element_count - (groups - 1) * config.group_size
  full_records ← checked_mul (nat (groups - 1)) (nat full_record)
  tail_record ← group_record_size config tail
  checked_add (nat full_records) (nat tail_record)

-- `q & 0xF` of a signed integer.
unfoldable pub low_nibble : ℤ → ℕ
low_nibble (pos n) = n % 16
low_nibble (negsuc n) = 15 - n % 16

-- `_signed_nibble`
unfoldable pub signed_nibble : ℕ → ℤ
signed_nibble value = if leb 8 value then negsuc (15 - value) else pos value

unfoldable pub negate : ℕ → ℤ
negate zero = pos 0
negate (suc n) = negsuc n

-- The loop of `_encode_group` that packs two quantized values into a byte.
unfoldable pub pack_nibbles : List ℤ → List ℕ
unfolding low_nibble
pack_nibbles [] = []
pack_nibbles (low ∷ []) = bit_or (low_nibble low) (0 * 16) ∷ []
pack_nibbles (low ∷ high ∷ rest) =
    bit_or (low_nibble low) (low_nibble high * 16) ∷ pack_nibbles rest

module _ (f : Floats) where
  -- `_quantize`
  unfoldable pub quantize : f.F → f.F → ℤ
  unfolding negate
  quantize value scale =
      if not (f.less scale f.zero) && not (f.less f.zero scale)
      then pos 0
      else (let quantized = min 7 (f.floor_half (f.div (f.abs value) scale)) in
          if f.less value f.zero then negate quantized else pos quantized)

  -- `max(abs(value) for value in values)` from the largest so far.
  unfoldable pub maximum : f.F → List f.F → f.F
  maximum m [] = m
  maximum m (v ∷ vs) = maximum (if f.less m (f.abs v) then f.abs v else m) vs

  abbrev pub pack_result : Option (List ℕ) → Result (List ℕ)
  pack_result none = err overflow_error
  pack_result (some bs) = ok bs

  -- The stored scale: `struct.unpack("<f", struct.pack("<f", maximum / 7.0))[0] if maximum else 0.0`
  unfoldable pub stored_scale : f.F → Result f.F
  stored_scale m =
      if not (f.less m f.zero) && not (f.less f.zero m)
      then ok f.zero
      else (do bs ← pack_result (f.pack (f.div_int m 7)); ok (f.unpack bs))

  -- `_encode_group`, of a list that is not empty.
  unfoldable pub encode_group : List f.F → Result (List ℕ)
  unfolding stored_scale maximum quantize pack_nibbles
  encode_group [] = err Exception.value_error
  encode_group (v ∷ vs) = do
    scale ← stored_scale (maximum (f.abs v) vs)
    header ← pack_result (f.pack scale)
    ok (header ++ pack_nibbles (map (λ x. quantize x scale) (v ∷ vs)))

  unfoldable pub encode_int4_group_reference : List f.F → Int4CodecConfig → Result (List ℕ)
  encode_int4_group_reference values config = do
    checked_positive (nat (length values))
    raise_if (ltb config.group_size (length values)) plan_invalid
    raise_if (not (all f.is_finite values)) numeric_failure
    encode_group values

  -- One nibble of the inner loop: nothing in the tail, else one value.
  unfoldable pub decode_nibble : f.F → ℕ → ℕ → ℕ → Result (List f.F)
  unfolding signed_nibble
  decode_nibble scale element_count index nibble =
      if leb element_count index
      then if not (nibble == 0) then raise invalid_package else ok []
      else if nibble == 8
      then raise invalid_package
      else ok (f.mul_int scale (signed_nibble nibble) ∷ [])

  -- `for packed_index, packed in enumerate(…)`
  unfoldable pub decode_packed : f.F → ℕ → ℕ → List ℕ → Result (List f.F)
  unfolding decode_nibble
  decode_packed scale element_count packed_index [] = ok []
  decode_packed scale element_count packed_index (packed ∷ rest) = do
    low ← decode_nibble scale element_count (packed_index * 2) (packed % 16)
    high ← decode_nibble scale element_count (packed_index * 2 + 1) (packed / 16)
    values ← decode_packed scale element_count (packed_index + 1) rest
    ok (low ++ high ++ values)

  unfoldable pub decode_int4_group_reference : List ℕ → ℕ → Result (List f.F)
  decode_int4_group_reference payload element_count = do
    checked_positive (nat element_count)
    raise_if (not (length payload == 4 + (element_count + 1) / 2)) invalid_package
    let scale = f.unpack (take 4 payload)
    raise_if (not (f.is_finite scale) || f.less scale f.zero) numeric_failure
    decode_packed scale element_count 0 (drop 4 payload)

  unfoldable pub decode_int4_reference : List ℕ → ℕ → Int4CodecConfig → Result (List f.F)
  decode_int4_reference payload element_count config = do
    size ← encoded_size config element_count
    raise_if (not (length payload == size)) invalid_package
    (output, cursor) ←
        decode_groups config.group_size (group_record_size config) decode_int4_group_reference
          payload element_count 0 element_count
    raise_if (not (cursor == length payload) || not (length output == element_count))
        internal_invariant
    ok output

  -- `encode_int4_stream`
  unfoldable pub encode_int4_stream :
      (k : Sink)
      → Hashes
      → Reader
      → ByteRange
      → List Value
      → DType
      → Int4CodecConfig
      → k.S
      → Result EncodingResult × k.S
  encode_int4_stream k h reader source shape source_dtype config s =
      encode_stream f k h reader config.group_size (encoded_size config)
        (λ values. encode_int4_group_reference values config) source shape source_dtype s
