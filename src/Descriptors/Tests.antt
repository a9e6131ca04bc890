-- ===== src/Descriptors/Tests.antt =====
-- A tensor of two axes that is stored as one layout of two chunks.
use accumulative_matrix_swee.Prelude.{ℕ, ◌≡◌, ◌↔◌, refl, List, [], ◌∷◌, All, none, true, arith}
use accumulative_matrix_swee.Errors.{ok, raise, invalid_package}
use accumulative_matrix_swee.Checked.{checked_uint, checked_add}
use accumulative_matrix_swee.Descriptors.Storage.{ByteRange, int8}
use accumulative_matrix_swee.Descriptors.Tensor.{
  ChunkDescriptor, TensorLayout, check_axes, check_chunks, check_layouts,
}
use accumulative_matrix_swee.Descriptors.Bounds.{IsLayoutOf, check_layouts_iff}

abbrev stored : ByteRange
stored = record { object_id = "weights"; offset = 0; length = 6; checksum = "sha256:00" }

abbrev chunk_at : ℕ → ChunkDescriptor
chunk_at row = record {
  chunk_id = "rows";
  byte_range = stored;
  logical_origin = row ∷ 0 ∷ [];
  logical_extent = 2 ∷ 3 ∷ [];
  encoded_bytes = 6;
  decoded_bytes = 6;
  padding_bytes = 0;
}

abbrev layout_of : List ChunkDescriptor → TensorLayout
layout_of chunks = record {
  layout_id = "row_major";
  layout_version = "1.0.0";
  complete = true;
  tile_shape = 2 ∷ 3 ∷ [];
  alignment_bytes = 64;
  storage_dtype = int8;
  chunks = chunks;
  codec = none;
  quantization = none;
}

abbrev two_chunks : List TensorLayout
two_chunks = layout_of (chunk_at 0 ∷ chunk_at 2 ∷ []) ∷ []

two_chunks_fit : check_layouts (4 ∷ 3 ∷ []) two_chunks ≡ ok tt
unfolding check_layouts check_chunks check_axes checked_add checked_uint
two_chunks_fit = refl

-- A chunk that would end at row 5.
row_beyond : check_layouts (4 ∷ 3 ∷ []) (layout_of (chunk_at 3 ∷ []) ∷ []) ≡ raise invalid_package
unfolding check_layouts check_chunks check_axes checked_add checked_uint
row_beyond = refl

check_layouts_iff_example :
    (check_layouts (4 ∷ 3 ∷ []) two_chunks ≡ ok tt) ↔ All (IsLayoutOf (4 ∷ 3 ∷ [])) two_chunks
check_layouts_iff_example =
    check_layouts_iff (4 ∷ 3 ∷ []) two_chunks (omega arith, (omega arith, tt))
