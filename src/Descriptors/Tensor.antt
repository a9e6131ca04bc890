-- ===== src/Descriptors/Tensor.antt =====
-- src/ams/descriptors.py: `ChunkDescriptor`, `TensorLayout` and `TensorDescriptor`.
use accumulative_matrix_swee.Prelude.{
  ℕ, Bool, false, not, ◌||◌, Option, String, List, [], ◌∷◌, map, ltb, ◌==◌, length, any,
}
use accumulative_matrix_swee.Prelude.Text.{str_eq}
use accumulative_matrix_swee.Errors.{
  Result, ok, err, raise_if, invalid_package, value_error, ◌>>=◌, ◌>>◌,
}
use accumulative_matrix_swee.Checked.{Value, nat, checked_uint, checked_positive, checked_add}
use accumulative_matrix_swee.Descriptors.Syntax.{validate_identifier, validate_semver}
use accumulative_matrix_swee.Descriptors.Storage.{
  DType, ByteRange, CodecDescriptor, QuantizationSpec,
}

-- The loop that checks every item of a tuple.
checked_all : (Value → Result ℕ) → List Value → Result (List ℕ)
checked_all check [] = ok []
checked_all check (v ∷ vs) = do n ← check v; ns ← checked_all check vs; ok (n ∷ ns)

-- `len(set(ids)) != len(ids)`
unfoldable pub has_duplicates : List String → Bool
has_duplicates [] = false
has_duplicates (x ∷ xs) = any (str_eq x) xs || has_duplicates xs

pub record ChunkDescriptor : Type 0 where
  pub chunk_id : String
  pub byte_range : ByteRange
  pub logical_origin : List ℕ
  pub logical_extent : List ℕ
  pub encoded_bytes : ℕ
  pub decoded_bytes : ℕ
  pub padding_bytes : ℕ

unfoldable pub chunk_descriptor :
    Value → ByteRange → List Value → List Value → Value → Value → Value → Result ChunkDescriptor
unfolding checked_all
chunk_descriptor chunk_id byte_range logical_origin logical_extent encoded decoded padding = do
  i ← validate_identifier chunk_id
  raise_if (not (length logical_origin == length logical_extent)) invalid_package
  raise_if (ltb 32 (length logical_origin)) invalid_package
  origin ← checked_all checked_uint logical_origin
  extent ← checked_all checked_positive logical_extent
  e ← checked_positive encoded
  d ← checked_positive decoded
  p ← checked_uint padding
  occupied ← checked_add (nat e) (nat p)
  raise_if (not (occupied == byte_range.length)) invalid_package
  ok (record {
    chunk_id = i;
    byte_range = byte_range;
    logical_origin = origin;
    logical_extent = extent;
    encoded_bytes = e;
    decoded_bytes = d;
    padding_bytes = p;
  })

pub record TensorLayout : Type 0 where
  pub layout_id : String
  pub layout_version : String
  pub complete : Bool
  pub tile_shape : List ℕ
  pub alignment_bytes : ℕ
  pub storage_dtype : DType
  pub chunks : List ChunkDescriptor
  pub codec : Option CodecDescriptor
  pub quantization : Option QuantizationSpec

unfoldable pub tensor_layout :
    Value
    → Value
    → Bool
    → List Value
    → Value
    → DType
    → List ChunkDescriptor
    → Option CodecDescriptor
    → Option QuantizationSpec
    → Result TensorLayout
unfolding checked_all has_duplicates
tensor_layout layout_id layout_version complete tile_shape alignment dtype chunks codec quant = do
  i ← validate_identifier layout_id
  v ← validate_semver layout_version
  a ← checked_positive alignment
  raise_if (ltb 32 (length tile_shape)) invalid_package
  tile ← checked_all checked_positive tile_shape
  raise_if (has_duplicates (map (λ c. c.chunk_id) chunks)) invalid_package
  ok (record {
    layout_id = i;
    layout_version = v;
    complete = complete;
    tile_shape = tile;
    alignment_bytes = a;
    storage_dtype = dtype;
    chunks = chunks;
    codec = codec;
    quantization = quant;
  })

pub record TensorDescriptor : Type 0 where
  pub tensor_id : String
  pub tensor_class : String
  pub shape : List ℕ
  pub logical_dtype : DType
  pub immutable : Bool
  pub layouts : List TensorLayout
  pub byte_order : String

is_byte_order : String → Bool
is_byte_order s = str_eq s "little" || str_eq s "big" || str_eq s "not_applicable"

-- `for axis, (origin, extent, size) in enumerate(zip(…, strict=True))`
unfoldable pub check_axes : List ℕ → List ℕ → List ℕ → Result (Unit {0})
check_axes (o ∷ os) (e ∷ es) (s ∷ ss) = do
  end ← checked_add (nat o) (nat e)
  raise_if (ltb s end) invalid_package
  check_axes os es ss
check_axes [] [] [] = ok tt
check_axes _ _ _ = err value_error

unfoldable pub check_chunks : List ℕ → List ChunkDescriptor → Result (Unit {0})
unfolding check_axes
check_chunks shape [] = ok tt
check_chunks shape (chunk ∷ chunks) = do
  raise_if (not (length chunk.logical_origin == length shape)) invalid_package
  check_axes chunk.logical_origin chunk.logical_extent shape
  check_chunks shape chunks

unfoldable pub check_layouts : List ℕ → List TensorLayout → Result (Unit {0})
unfolding check_chunks
check_layouts shape [] = ok tt
check_layouts shape (layout ∷ layouts) = do
  raise_if (not (length layout.tile_shape == length shape)) invalid_package
  check_chunks shape layout.chunks
  check_layouts shape layouts

unfoldable pub tensor_descriptor :
    Value → Value → List Value → DType → Bool → List TensorLayout → String → Result TensorDescriptor
unfolding is_byte_order checked_all has_duplicates check_layouts
tensor_descriptor tensor_id tensor_class shape dtype immutable layouts byte_order = do
  i ← validate_identifier tensor_id
  c ← validate_identifier tensor_class
  raise_if (not (is_byte_order byte_order)) invalid_package
  raise_if (ltb 32 (length shape)) invalid_package
  s ← checked_all checked_uint shape
  raise_if (length layouts == 0) invalid_package
  raise_if (has_duplicates (map (λ l. l.layout_id) layouts)) invalid_package
  check_layouts s layouts
  ok (record {
    tensor_id = i;
    tensor_class = c;
    shape = s;
    logical_dtype = dtype;
    immutable = immutable;
    layouts = layouts;
    byte_order = byte_order;
  })
