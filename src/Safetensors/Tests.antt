-- ===== src/Safetensors/Tests.antt =====
-- A file of two tensors, and tilings that are refused.
use accumulative_matrix_swee.Prelude.{
  ℕ, ◌≡◌, ◌↔◌, refl, false, Option, some, List, [], ◌∷◌, String, arith, ltb, take, drop,
  if◌then◌else◌,
}
use accumulative_matrix_swee.Prelude.Dict.{Dict, lookup, contains}
use accumulative_matrix_swee.Errors.{ok, is_ok}
use accumulative_matrix_swee.Checked.{
  str, nat, checked_uint, checked_add, checked_mul, checked_product, checked_product_from,
}
use accumulative_matrix_swee.Descriptors.Storage.{uint8, float32}
use accumulative_matrix_swee.Codecs.Stream.{Reader}
use accumulative_matrix_swee.Safetensors.{
  SafetensorsLimits, SafetensorsTensor, SafetensorsHeader, scalar, array, Entry, object, dtypes,
  utf8_length, insert_sorted, sorted, metadata_items, normalize_metadata, pair_less, checked_shape,
  has_fields, field, source_dtype_of, dtype_of, shape_of, offsets_of, checked_offsets,
  normalize_range, normalize_fields, normalize_entry, normalize_tensor,
}
use accumulative_matrix_swee.Safetensors.Coverage.{
  nonempty, offset_less, cover, validate_complete_coverage, holders,
}
use accumulative_matrix_swee.Safetensors.Coverage.Exact.{validate_complete_coverage_iff}
use accumulative_matrix_swee.Safetensors.Header.{
  little_endian, without_metadata, normalize_tensors, check_ends, name_less, parse_json_header,
  normalize_header, parse_safetensors_header,
}
use accumulative_matrix_swee.Safetensors.Parsed.{IsParsed, parse_safetensors_header-eq_ok}

abbrev limits : SafetensorsLimits
limits = record {
  max_header_bytes = 100;
  max_tensors = 10;
  max_rank = 4;
  max_name_bytes = 20;
  max_metadata_entries = 4;
  max_metadata_value_bytes = 20;
}

abbrev entries : Dict String Entry
entries =
    ("__metadata__", object (("format", scalar (str "pt")) ∷ []))
    ∷ (
      "w",
      object (
          ("dtype", scalar (str "U8"))
          ∷ ("shape", array (nat 2 ∷ []))
          ∷ ("data_offsets", array (nat 4 ∷ nat 6 ∷ []))
          ∷ []),
    )
    ∷ (
      "b",
      object (
          ("dtype", scalar (str "F32"))
          ∷ ("shape", array [])
          ∷ ("data_offsets", array (nat 0 ∷ nat 4 ∷ []))
          ∷ []),
    )
    ∷ []

abbrev raw_decode : List ℕ → Option (Option (Dict String Entry) × List ℕ)
raw_decode payload = some (some entries, [])

abbrev file : List ℕ
file = 2 ∷ 0 ∷ 0 ∷ 0 ∷ 0 ∷ 0 ∷ 0 ∷ 0 ∷ 123 ∷ 125 ∷ 1 ∷ 2 ∷ 3 ∷ 4 ∷ 5 ∷ 6 ∷ []

abbrev reader : Reader
reader = record { size_bytes = 16; read_into = λ offset n. ok (take n (drop offset file)) }

abbrev w : SafetensorsTensor
w = record {
  source_name = "w";
  dtype = uint8;
  source_dtype = "U8";
  shape = 2 ∷ [];
  data_offset = 4;
  data_length = 2;
  absolute_offset = 14;
}

abbrev b : SafetensorsTensor
b = record {
  source_name = "b";
  dtype = float32;
  source_dtype = "F32";
  shape = [];
  data_offset = 0;
  data_length = 4;
  absolute_offset = 10;
}

abbrev header : SafetensorsHeader
header = record {
  header_bytes = 2;
  data_offset = 10;
  data_bytes = 6;
  tensors = b ∷ w ∷ [];
  metadata = ("format", "pt") ∷ [];
}

parsed : parse_safetensors_header raw_decode reader limits ≡ ok header
unfolding parse_safetensors_header little_endian parse_json_header normalize_header without_metadata
    normalize_tensors check_ends name_less normalize_metadata metadata_items sorted insert_sorted
    pair_less utf8_length normalize_tensor normalize_entry has_fields normalize_fields field
    source_dtype_of dtype_of dtypes shape_of offsets_of checked_offsets checked_shape
    normalize_range validate_complete_coverage nonempty offset_less cover lookup contains
    checked_uint checked_add checked_mul checked_product checked_product_from
parsed = refl

-- A byte that two tensors hold, and a byte that none holds.
overlap_refused : is_ok (validate_complete_coverage (w ∷ b ∷ b ∷ []) 6) ≡ false
unfolding validate_complete_coverage nonempty offset_less cover sorted insert_sorted checked_add
    checked_uint
overlap_refused = refl

gap_refused : is_ok (validate_complete_coverage (w ∷ []) 6) ≡ false
unfolding validate_complete_coverage nonempty offset_less cover sorted insert_sorted checked_add
    checked_uint
gap_refused = refl

validate_complete_coverage_iff_example :
    (validate_complete_coverage (w ∷ b ∷ []) 6 ≡ ok tt)
    ↔ ((p : ℕ) → holders p (w ∷ b ∷ []) ≡ (if ltb p 6 then 1 else 0))
validate_complete_coverage_iff_example = validate_complete_coverage_iff (w ∷ b ∷ []) 6 (omega arith)

parse_safetensors_header-eq_ok_example : IsParsed 16 header
parse_safetensors_header-eq_ok_example =
    parse_safetensors_header-eq_ok raw_decode reader limits header parsed
