-- ===== src/Safetensors.antt =====
-- src/ams/integrations/safetensors.py: the header of a safetensors file, normalised and checked.
-- `json.JSONDecoder.raw_decode` with the hook that refuses duplicate keys is a parameter.
pub mod Coverage
pub mod Header
pub mod Parsed
mod Tests
use accumulative_matrix_swee.Prelude.{
  ℕ, zero, suc, ◌+◌, ◌-◌, ◌*◌, Bool, true, false, not, ◌&&◌, ◌||◌, Option, none, some, List, [],
  ◌∷◌, ◌++◌, map, String, ltb, leb, ◌==◌, all, length, take, drop, if◌then◌else◌,
}
use accumulative_matrix_swee.Prelude.Text.{codes, str_eq, str_lt}
use accumulative_matrix_swee.Prelude.Dict.{Dict, lookup, contains, string_eq}
use accumulative_matrix_swee.Prelude.Int.{pos, negsuc}
use accumulative_matrix_swee.Errors.{
  Result, ok, err, raise, raise_if, key_error, invalid_package, plan_invalid, capability_mismatch,
  ◌>>=◌, ◌>>◌,
}
use accumulative_matrix_swee.Checked.{
  Value, int, bool, str, other, nat, checked_uint, checked_add, checked_mul, checked_product,
}
use accumulative_matrix_swee.Descriptors.Storage.{
  DType, bool, uint8, int8, uint16, int16, uint32, int32, uint64, int64, float8_e4m3fn, float8_e5m2,
  float16, bfloat16, float32, float64,
}
use accumulative_matrix_swee.Codecs.Stream.{Reader}

pub record SafetensorsLimits : Type 0 where
  pub max_header_bytes : ℕ
  pub max_tensors : ℕ
  pub max_rank : ℕ
  pub max_name_bytes : ℕ
  pub max_metadata_entries : ℕ
  pub max_metadata_value_bytes : ℕ

pub record SafetensorsTensor : Type 0 where
  pub source_name : String
  pub dtype : DType
  pub source_dtype : String
  pub shape : List ℕ
  pub data_offset : ℕ
  pub data_length : ℕ
  pub absolute_offset : ℕ

pub record SafetensorsHeader : Type 0 where
  pub header_bytes : ℕ
  pub data_offset : ℕ
  pub data_bytes : ℕ
  pub tensors : List SafetensorsTensor
  pub metadata : List (String × String)

-- A value of the header, as far as the code looks into it: a field of an entry is an array or another
-- value, and an entry is null, an object or another value. A number that is no integer is `other`.
pub data Field : Type 0 where
  scalar : Value → Field
  array : List Value → Field

pub data Entry : Type 0 where
  null : Entry
  object : Dict String Field → Entry
  no_object : Entry

-- `isinstance(value, bool) or not isinstance(value, int) or value <= 0`
positive_limit : Value → Result ℕ
positive_limit (int (pos n)) = if n == 0 then raise plan_invalid else ok n
positive_limit _ = raise plan_invalid

-- `SafetensorsLimits.__post_init__`
unfoldable pub safetensors_limits :
    Value → Value → Value → Value → Value → Value → Result SafetensorsLimits
unfolding positive_limit
safetensors_limits header_bytes tensors rank name_bytes metadata_entries metadata_value_bytes = do
  h ← positive_limit header_bytes
  t ← positive_limit tensors
  r ← positive_limit rank
  n ← positive_limit name_bytes
  m ← positive_limit metadata_entries
  v ← positive_limit metadata_value_bytes
  ok (record {
    max_header_bytes = h;
    max_tensors = t;
    max_rank = r;
    max_name_bytes = n;
    max_metadata_entries = m;
    max_metadata_value_bytes = v;
  })

-- `_DTYPES`
unfoldable pub dtypes : String → Option (DType × ℕ)
dtypes s =
    if str_eq s "BOOL"
    then some (DType.bool, 1)
    else if str_eq s "U8"
    then some (uint8, 1)
    else if str_eq s "I8"
    then some (int8, 1)
    else if str_eq s "U16"
    then some (uint16, 2)
    else if str_eq s "I16"
    then some (int16, 2)
    else if str_eq s "U32"
    then some (uint32, 4)
    else if str_eq s "I32"
    then some (int32, 4)
    else if str_eq s "U64"
    then some (uint64, 8)
    else if str_eq s "I64"
    then some (int64, 8)
    else if str_eq s "F8_E4M3"
    then some (float8_e4m3fn, 1)
    else if str_eq s "F8_E5M2"
    then some (float8_e5m2, 1)
    else if str_eq s "F16"
    then some (float16, 2)
    else if str_eq s "BF16"
    then some (bfloat16, 2)
    else if str_eq s "F32"
    then some (float32, 4)
    else if str_eq s "F64"
    then some (float64, 8)
    else none

-- `len(text.encode("utf-8"))`
unfoldable pub utf8_length : List ℕ → ℕ
utf8_length [] = 0
utf8_length (c ∷ cs) =
    (if ltb c 0x80 then 1 else if ltb c 0x800 then 2 else if ltb c 0x10000 then 3 else 4)
    + utf8_length cs

-- `sorted(…)` with an order: each element is inserted before those that are not smaller, so the sort is stable.
unfoldable pub insert_sorted {ℓ} : {A : Type ℓ} → (A → A → Bool) → A → List A → List A
insert_sorted less x [] = x ∷ []
insert_sorted less x (y ∷ ys) =
    let rest = insert_sorted less x ys in if less y x then y ∷ rest else x ∷ y ∷ ys

unfoldable pub sorted {ℓ} : {A : Type ℓ} → (A → A → Bool) → List A → List A
unfolding insert_sorted
sorted less [] = []
sorted less (x ∷ xs) = insert_sorted less x (sorted less xs)

-- The loop of `_normalize_metadata`.
unfoldable pub metadata_items :
    SafetensorsLimits → Dict String Field → Result (List (String × String))
unfolding utf8_length
metadata_items limits [] = ok []
metadata_items limits ((key, scalar (str item)) ∷ rest) = do
  raise_if (ltb limits.max_name_bytes (utf8_length (codes key))) invalid_package
  raise_if (ltb limits.max_metadata_value_bytes (utf8_length (codes item))) invalid_package
  items ← metadata_items limits rest
  ok ((key, item) ∷ items)
metadata_items limits ((key, scalar (int _)) ∷ rest) = raise invalid_package
metadata_items limits ((key, scalar (Value.bool _)) ∷ rest) = raise invalid_package
metadata_items limits ((key, scalar other) ∷ rest) = raise invalid_package
metadata_items limits ((key, array _) ∷ rest) = raise invalid_package

-- The order of pairs of strings.
unfoldable pub pair_less : String × String → String × String → Bool
pair_less (k, v) (l, w) = str_lt k l || str_eq k l && str_lt v w

unfoldable pub normalize_metadata : Entry → SafetensorsLimits → Result (List (String × String))
unfolding metadata_items sorted pair_less
normalize_metadata null limits = ok []
normalize_metadata no_object limits = raise invalid_package
normalize_metadata (object value) limits = do
  raise_if (ltb limits.max_metadata_entries (length value)) invalid_package
  items ← metadata_items limits value
  ok (sorted pair_less items)

-- `[checked_uint(dimension) for dimension in raw_shape]`
unfoldable pub checked_shape : List Value → Result (List ℕ)
unfolding checked_uint
checked_shape [] = ok []
checked_shape (d ∷ ds) = do n ← checked_uint d; rest ← checked_shape ds; ok (n ∷ rest)

-- `set(value) != {"dtype", "shape", "data_offsets"}`, negated.
unfoldable pub has_fields : Dict String Field → Bool
has_fields value =
    contains "dtype" value
    && contains "shape" value
    && contains "data_offsets" value
    && all
        (λ (entry : String × Field).
          str_eq entry.0 "dtype" || str_eq entry.0 "shape" || str_eq entry.0 "data_offsets")
        value

unfoldable pub field : String → Dict String Field → Result Field
field key value = elim (lookup key value) [ none ↦ err key_error | some f ↦ ok f ]

unfoldable pub source_dtype_of : Field → Result String
source_dtype_of (scalar (str s)) = ok s
source_dtype_of _ = raise invalid_package

unfoldable pub dtype_of : String → Result (DType × ℕ)
unfolding dtypes
dtype_of s = elim (dtypes s) [ none ↦ raise capability_mismatch | some d ↦ ok d ]

unfoldable pub shape_of : SafetensorsLimits → Field → Result (List Value)
shape_of limits (array dims) =
    if ltb limits.max_rank (length dims) then raise invalid_package else ok dims
shape_of limits (scalar _) = raise invalid_package

unfoldable pub offsets_of : Field → Result (Value × Value)
offsets_of (array (b ∷ e ∷ [])) = ok (b, e)
offsets_of _ = raise invalid_package

-- The last part of `_normalize_tensor`: the range of bytes against the shape and the type.
unfoldable pub normalize_range :
    String → String → DType × ℕ → List ℕ → ℕ → ℕ → ℕ → Result SafetensorsTensor
normalize_range name source_dtype (dtype, item_bytes) shape begin end data_offset = do
  raise_if (ltb end begin) invalid_package
  element_count ← checked_product (map nat shape)
  expected_length ← checked_mul (nat element_count) (nat item_bytes)
  raise_if (not (end - begin == expected_length)) invalid_package
  absolute_offset ← checked_add (nat data_offset) (nat begin)
  ok (record {
    source_name = name;
    dtype = dtype;
    source_dtype = source_dtype;
    shape = shape;
    data_offset = begin;
    data_length = end - begin;
    absolute_offset = absolute_offset;
  })

-- `data_offsets` as two integers.
unfoldable pub checked_offsets : Field → Result (ℕ × ℕ)
unfolding offsets_of
checked_offsets value = do
  (first, last) ← offsets_of value
  begin ← checked_uint first
  end ← checked_uint last
  ok (begin, end)

-- `_normalize_tensor` once the keys are known to be the three.
unfoldable pub normalize_fields :
    String → Dict String Field → ℕ → SafetensorsLimits → Result SafetensorsTensor
unfolding field source_dtype_of dtype_of shape_of checked_offsets checked_shape normalize_range
normalize_fields name value data_offset limits = do
  dtype_field ← field "dtype" value
  source_dtype ← source_dtype_of dtype_field
  dtype ← dtype_of source_dtype
  shape_field ← field "shape" value
  raw_shape ← shape_of limits shape_field
  shape ← checked_shape raw_shape
  offsets_field ← field "data_offsets" value
  (begin, end) ← checked_offsets offsets_field
  normalize_range name source_dtype dtype shape begin end data_offset

-- The test of the keys.
unfoldable pub normalize_entry : String → Entry → ℕ → SafetensorsLimits → Result SafetensorsTensor
unfolding has_fields normalize_fields
normalize_entry name null data_offset limits = raise invalid_package
normalize_entry name no_object data_offset limits = raise invalid_package
normalize_entry name (object value) data_offset limits =
    if has_fields value
    then normalize_fields name value data_offset limits
    else raise invalid_package

-- `_normalize_tensor`
unfoldable pub normalize_tensor : String → Entry → ℕ → SafetensorsLimits → Result SafetensorsTensor
unfolding normalize_entry utf8_length
normalize_tensor name entry data_offset limits = do
  raise_if (str_eq name "" || ltb limits.max_name_bytes (utf8_length (codes name))) invalid_package
  normalize_entry name entry data_offset limits
