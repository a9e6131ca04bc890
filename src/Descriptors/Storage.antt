-- ===== src/Descriptors/Storage.antt =====
-- src/ams/descriptors.py: `DType`, `ByteRange`, `StorageObject`, `CodecDescriptor` and
-- `QuantizationSpec`. The function named like a class is its constructor with `__post_init__`; a
-- field that the code checks for its type is a `Value` until then.
use accumulative_matrix_swee.Prelude.{
  ℕ, Bool, true, false, not, ◌&&◌, String, ltb, leb, length, if◌then◌else◌,
}
use accumulative_matrix_swee.Prelude.Text.{codes}
use accumulative_matrix_swee.Errors.{Result, ok, raise, raise_if, invalid_package, ◌>>=◌, ◌>>◌}
use accumulative_matrix_swee.Checked.{
  Value, nat, int, str, other, checked_uint, checked_positive, checked_range_end,
}
use accumulative_matrix_swee.Descriptors.Syntax.{
  validate_identifier, validate_digest, validate_semver,
}

pub data DType : Type 0 where
  bool uint8 int8 uint16 int16 uint32 int32 uint64 int64 : DType
  float8_e4m3fn float8_e5m2 float16 bfloat16 float32 float64 complex64 complex128 : DType
  int2_grouped int3_grouped int4_grouped int8_grouped custom : DType

pub data QuantizationKind : Type 0 where
  ternary int2 int3 int4 int8 : QuantizationKind

pub record ByteRange : Type 0 where
  pub object_id : String
  pub offset : ℕ
  pub length : ℕ
  pub checksum : String

unfoldable pub byte_range : Value → Value → Value → Value → Result ByteRange
byte_range object_id offset length checksum = do
  i ← validate_identifier object_id
  checked_range_end offset length
  c ← validate_digest checksum
  o ← checked_uint offset
  l ← checked_positive length
  ok (record { object_id = i; offset = o; length = l; checksum = c })

-- `ByteRange.end`
unfoldable pub range_end : ByteRange → Result ℕ
range_end r = checked_range_end (nat r.offset) (nat r.length)

unfoldable pub validate_within : ByteRange → ℕ → Result (Unit {0})
unfolding range_end
validate_within r size_bytes = do
  checked_positive (nat size_bytes)
  end ← range_end r
  raise_if (ltb size_bytes end) invalid_package

pub record StorageObject : Type 0 where
  pub object_id : String
  pub uri : String
  pub size_bytes : ℕ
  pub alignment_bytes : ℕ
  pub content_hash : String
  pub immutable : Bool
  pub kind : String

-- `isinstance(uri, str) and 1 <= len(uri) <= 8192`
validate_uri : Value → Result String
validate_uri (str uri) =
    if leb 1 (length (codes uri)) && leb (length (codes uri)) 8192
    then ok uri
    else raise invalid_package
validate_uri (int _) = raise invalid_package
validate_uri (Value.bool _) = raise invalid_package
validate_uri other = raise invalid_package

unfoldable pub storage_object :
    Value → Value → Value → Value → Value → Bool → Value → Result StorageObject
unfolding validate_uri
storage_object object_id uri size_bytes alignment_bytes content_hash immutable kind = do
  i ← validate_identifier object_id
  u ← validate_uri uri
  s ← checked_positive size_bytes
  a ← checked_positive alignment_bytes
  h ← validate_digest content_hash
  k ← validate_identifier kind
  ok (record {
    object_id = i;
    uri = u;
    size_bytes = s;
    alignment_bytes = a;
    content_hash = h;
    immutable = immutable;
    kind = k;
  })

pub record CodecDescriptor : Type 0 where
  pub name : String
  pub version : String
  pub lossless : Bool
  pub max_decoded_bytes : ℕ

unfoldable pub codec_descriptor : Value → Value → Bool → Value → Result CodecDescriptor
codec_descriptor name version lossless max_decoded_bytes = do
  n ← validate_identifier name
  v ← validate_semver version
  m ← checked_positive max_decoded_bytes
  ok (record { name = n; version = v; lossless = lossless; max_decoded_bytes = m })

pub record QuantizationSpec : Type 0 where
  pub kind : QuantizationKind
  pub group_size : ℕ
  pub axis : ℕ
  pub scale_dtype : DType
  pub zero_point : Bool

-- `scale_dtype in {FLOAT16, FLOAT32}`
is_scale_dtype : DType → Bool
is_scale_dtype float16 = true
is_scale_dtype float32 = true
is_scale_dtype _ = false

is_ternary : QuantizationKind → Bool
is_ternary ternary = true
is_ternary _ = false

unfoldable pub quantization_spec :
    QuantizationKind → Value → Value → DType → Bool → Result QuantizationSpec
unfolding is_scale_dtype is_ternary
quantization_spec kind group_size axis scale_dtype zero_point = do
  g ← checked_positive group_size
  a ← checked_uint axis
  raise_if (not (is_scale_dtype scale_dtype)) invalid_package
  raise_if (is_ternary kind && zero_point) invalid_package
  ok (record {
    kind = kind;
    group_size = g;
    axis = a;
    scale_dtype = scale_dtype;
    zero_point = zero_point;
  })
