-- ===== src/Safetensors/Parsed.antt =====
-- src/ams/integrations/safetensors.py: what a header that `parse_safetensors_header` returns says.
use accumulative_matrix_swee.Prelude.{
  ℕ, ◌+◌, ◌-◌, ◌*◌, ◌≤◌, ◌≡◌, refl, sym, ap, ◌∙◌, Bool-cases, not, ◌||◌, Option, some, List, [],
  ◌∷◌, map, String, arith, inl, inr, ltb, ◌==◌, length, if◌then◌else◌, All, Option-cases,
}
use mathlib.Core.Path.{subst}
use accumulative_matrix_swee.Prelude.Text.{codes, str_eq}
use accumulative_matrix_swee.Prelude.Dict.{Dict}
use accumulative_matrix_swee.Errors.{
  ok, raise, raise_if, capability_mismatch, invalid_package, >>=-eq-ok, ok-injective,
}
use accumulative_matrix_swee.Checked.{
  max_serialized_uint, nat, checked_uint, checked_add, checked_mul, checked_product,
}
use accumulative_matrix_swee.Checked.Laws.{
  checked_uint-eq_ok, checked_add-nat-eq_ok, checked_mul-nat-eq_ok,
}
use accumulative_matrix_swee.Descriptors.Storage.{DType}
use accumulative_matrix_swee.Codecs.Stream.{Reader}
use accumulative_matrix_swee.Safetensors.{
  SafetensorsLimits, SafetensorsTensor, SafetensorsHeader, Field, Entry, null, object, no_object,
  dtypes, field, source_dtype_of, dtype_of, shape_of, checked_offsets, checked_shape,
  normalize_range, normalize_metadata, has_fields, utf8_length, normalize_fields, normalize_entry,
  normalize_tensor,
}
use accumulative_matrix_swee.Safetensors.Coverage.{
  validate_complete_coverage, holders, holders-sorted,
}
use accumulative_matrix_swee.Safetensors.Coverage.Exact.{validate_complete_coverage_iff, All-sorted}
use accumulative_matrix_swee.Safetensors.Header.{
  metadata_of, without_metadata, normalize_tensors, check_ends, name_less, normalize_header,
  little_endian, parse_json_header, parse_safetensors_header,
}

-- A tensor whose size is that of its shape and type, and whose place in the file is its own offset behind
-- the start of the data section.
abbrev pub IsNormalized : ℕ → SafetensorsTensor → Type 0
IsNormalized data_offset t =
    (item_bytes : ℕ) × (elements : ℕ) × (dtypes t.source_dtype ≡ some (t.dtype, item_bytes))
    × (checked_product (map nat t.shape) ≡ ok elements)
    × (t.data_length ≡ elements * item_bytes)
    × (t.absolute_offset ≡ data_offset + t.data_offset)

dtype_of-eq_ok : (s : String) {d : DType × ℕ} → dtype_of s ≡ ok d → dtypes s ≡ some d
unfolding dtype_of
dtype_of-eq_ok s {d} e = elim (Option-cases (dtypes s)) [
  | inl n ↦
      let refused : dtype_of s ≡ raise capability_mismatch = rw (dtype_of, n) refl in absurd (cc)
  | inr (found, n) ↦
      let taken : dtype_of s ≡ ok found = rw (dtype_of, n) refl in
      n ∙ ap (λ d. some d) (ok-injective (sym taken ∙ e))
]

-- A check `if a != b: raise` that passed.
passed : (a b : ℕ) → raise_if (not (a == b)) invalid_package ≡ ok tt → a ≡ b
passed a b e = ground arith

normalize_range-eq_ok :
    (name source_dtype : String) (dtype : DType) (item_bytes : ℕ) (shape : List ℕ)
    (begin end data_offset : ℕ) {t : SafetensorsTensor}
    → dtypes source_dtype ≡ some (dtype, item_bytes)
    → normalize_range name source_dtype (dtype, item_bytes) shape begin end data_offset ≡ ok t
    → IsNormalized data_offset t
unfolding normalize_range
normalize_range-eq_ok name source_dtype dtype item_bytes shape begin end data_offset {t} ed e =
    let (_, _, e1) = >>=-eq-ok (raise_if (ltb end begin) invalid_package) _ e in
    let (elements, ep, e2) = >>=-eq-ok (checked_product (map nat shape)) _ e1 in
    let (expected, em, e3) = >>=-eq-ok (checked_mul (nat elements) (nat item_bytes)) _ e2 in
    let (_, el, e4) = >>=-eq-ok (raise_if (not (end - begin == expected)) invalid_package) _ e3 in
    let (absolute, ea, e5) = >>=-eq-ok (checked_add (nat data_offset) (nat begin)) _ e4 in
    let (mul, _) = checked_mul-nat-eq_ok elements item_bytes em in
    let (add, _) = checked_add-nat-eq_ok data_offset begin ea in
    subst (IsNormalized data_offset) (ok-injective e5)
      (item_bytes, elements, ed, ep, passed (end - begin) expected el ∙ mul, add)

normalize_fields-eq_ok :
    (name : String) (value : Dict String Field) (data_offset : ℕ) (limits : SafetensorsLimits)
    {t : SafetensorsTensor}
    → normalize_fields name value data_offset limits ≡ ok t
    → IsNormalized data_offset t
unfolding normalize_fields
normalize_fields-eq_ok name value data_offset limits {t} e =
    let (f1, _, e1) = >>=-eq-ok (field "dtype" value) _ e in
    let (source_dtype, _, e2) = >>=-eq-ok (source_dtype_of f1) _ e1 in
    let ((dtype, item_bytes), ed, e3) = >>=-eq-ok (dtype_of source_dtype) _ e2 in
    let (f2, _, e4) = >>=-eq-ok (field "shape" value) _ e3 in
    let (raw, _, e5) = >>=-eq-ok (shape_of limits f2) _ e4 in
    let (shape, _, e6) = >>=-eq-ok (checked_shape raw) _ e5 in
    let (f3, _, e7) = >>=-eq-ok (field "data_offsets" value) _ e6 in
    let ((begin, end), _, e8) = >>=-eq-ok (checked_offsets f3) _ e7 in
    normalize_range-eq_ok name source_dtype dtype item_bytes shape begin end data_offset {t = t}
      (dtype_of-eq_ok source_dtype ed) e8

normalize_entry-eq_ok :
    (name : String) (entry : Entry) (data_offset : ℕ) (limits : SafetensorsLimits)
    {t : SafetensorsTensor}
    → normalize_entry name entry data_offset limits ≡ ok t
    → IsNormalized data_offset t
unfolding normalize_entry
normalize_entry-eq_ok name null data_offset limits e = absurd (cc)
normalize_entry-eq_ok name no_object data_offset limits e = absurd (cc)
normalize_entry-eq_ok name (object value) data_offset limits {t} e =
    elim (Bool-cases (has_fields value)) [
      | inr h ↦ absurd (ground arith)
      | inl h ↦ normalize_fields-eq_ok name value data_offset limits {t = t} (ground arith)
    ]

normalize_tensor-eq_ok :
    (name : String) (entry : Entry) (data_offset : ℕ) (limits : SafetensorsLimits)
    {t : SafetensorsTensor}
    → normalize_tensor name entry data_offset limits ≡ ok t
    → IsNormalized data_offset t
unfolding normalize_tensor
normalize_tensor-eq_ok name entry data_offset limits e =
    let (_, _, e1) =
      >>=-eq-ok
        (raise_if (str_eq name "" || ltb limits.max_name_bytes (utf8_length (codes name)))
          invalid_package)
        _ e in
    normalize_entry-eq_ok name entry data_offset limits e1

normalize_tensors-eq_ok :
    (header : Dict String Entry) (data_offset : ℕ) (limits : SafetensorsLimits)
    {ts : List SafetensorsTensor}
    → normalize_tensors header data_offset limits ≡ ok ts
    → All (IsNormalized data_offset) ts
unfolding normalize_tensors
normalize_tensors-eq_ok [] data_offset limits e =
    subst (All (IsNormalized data_offset)) (ok-injective e) tt
normalize_tensors-eq_ok ((name, value) ∷ header) data_offset limits e =
    let (t, et, e1) = >>=-eq-ok (normalize_tensor name value data_offset limits) _ e in
    let (ts, es, e2) = >>=-eq-ok (normalize_tensors header data_offset limits) _ e1 in
    subst (All (IsNormalized data_offset)) (ok-injective e2) (
      normalize_tensor-eq_ok name value data_offset limits et,
      normalize_tensors-eq_ok header data_offset limits es,
    )

abbrev Fits : ℕ → SafetensorsTensor → Type 0
Fits data_bytes t = t.data_offset + t.data_length ≤ data_bytes

check_ends-eq_ok :
    (ts : List SafetensorsTensor) (data_bytes : ℕ)
    → check_ends ts data_bytes ≡ ok tt
    → All (Fits data_bytes) ts
unfolding check_ends
check_ends-eq_ok [] data_bytes e = tt
check_ends-eq_ok (t ∷ ts) data_bytes e =
    let (end, ee, e1) = >>=-eq-ok (checked_add (nat t.data_offset) (nat t.data_length)) _ e in
    let (_, el, e2) = >>=-eq-ok (raise_if (ltb data_bytes end) invalid_package) _ e1 in
    let (sum, _) = checked_add-nat-eq_ok t.data_offset t.data_length ee in
    (ground arith, check_ends-eq_ok ts data_bytes e2)

-- A header of a file: the three sizes add up, and each tensor has the size of its shape and type and lies
-- in the data section, which the tensors tile.
pub record IsParsed (size_bytes : ℕ) (h : SafetensorsHeader) : Type 0 where
  pub data_start : h.data_offset ≡ 8 + h.header_bytes
  pub data_end : h.data_offset + h.data_bytes ≡ size_bytes
  pub normalized : All (IsNormalized h.data_offset) h.tensors
  pub fit : All (Fits h.data_bytes) h.tensors
  pub tiled : (p : ℕ) → holders p h.tensors ≡ (if ltb p h.data_bytes then 1 else 0)

normalize_header-eq_ok :
    (header : Dict String Entry) (header_bytes data_offset file_size : ℕ)
    (limits : SafetensorsLimits) {h : SafetensorsHeader}
    → data_offset ≡ 8 + header_bytes
    → data_offset ≤ file_size
    → file_size ≤ max_serialized_uint
    → normalize_header header header_bytes data_offset file_size limits ≡ ok h
    → IsParsed file_size h
unfolding normalize_header
normalize_header-eq_ok header header_bytes data_offset file_size limits start within bound e =
    let (metadata, _, e1) = >>=-eq-ok (normalize_metadata (metadata_of header) limits) _ e in
    let (_, _, e2) =
      >>=-eq-ok
        (raise_if (ltb limits.max_tensors (length (without_metadata header))) invalid_package) _
        e1 in
    let (ts, et, e3) =
      >>=-eq-ok (normalize_tensors (without_metadata header) data_offset limits) _ e2 in
    let (_, ec, e4) = >>=-eq-ok (check_ends ts (file_size - data_offset)) _ e3 in
    let (_, ev, e5) = >>=-eq-ok (validate_complete_coverage ts (file_size - data_offset)) _ e4 in
    let tiles = (validate_complete_coverage_iff ts (file_size - data_offset) (omega arith)).0 ev in
    subst (IsParsed file_size) (ok-injective e5) (record {
      data_start = start;
      data_end = omega arith;
      normalized =
          All-sorted (IsNormalized data_offset) name_less ts
            (normalize_tensors-eq_ok (without_metadata header) data_offset limits et);
      fit =
          All-sorted (Fits (file_size - data_offset)) name_less ts
            (check_ends-eq_ok ts (file_size - data_offset) ec);
      tiled = λ p. holders-sorted name_less p ts ∙ tiles p;
    })

-- If `parse_safetensors_header` returns a header, whatever the JSON decoder and the reader, then the data
-- section begins behind the header and ends with the file; each tensor has the size of its shape and type
-- and its absolute offset; and the tensors hold each byte of the data section once.
pub parse_safetensors_header-eq_ok :
    (raw_decode : List ℕ → Option (Option (Dict String Entry) × List ℕ)) (reader : Reader)
    (limits : SafetensorsLimits) (h : SafetensorsHeader)
    → parse_safetensors_header raw_decode reader limits ≡ ok h
    → IsParsed reader.size_bytes h
unfolding parse_safetensors_header
parse_safetensors_header-eq_ok raw_decode reader limits h e =
    let (file_size, ef, e1) = >>=-eq-ok (checked_uint (nat reader.size_bytes)) _ e in
    let (same, bound) = checked_uint-eq_ok (nat reader.size_bytes) ef in
    let (_, _, e2) = >>=-eq-ok (raise_if (ltb file_size 8) invalid_package) _ e1 in
    let (prefix, _, e3) = >>=-eq-ok (reader.read_into 0 8) _ e2 in
    let (_, _, e4) =
      >>=-eq-ok
        (raise_if (little_endian prefix == 0 || ltb limits.max_header_bytes (little_endian prefix))
          invalid_package)
        _ e3 in
    let (data_offset, ea, e5) = >>=-eq-ok (checked_add (nat 8) (nat (little_endian prefix))) _ e4 in
    let (sum, _) = checked_add-nat-eq_ok 8 (little_endian prefix) ea in
    let (_, ew, e6) = >>=-eq-ok (raise_if (ltb file_size data_offset) invalid_package) _ e5 in
    let (payload, _, e7) = >>=-eq-ok (reader.read_into 8 (little_endian prefix)) _ e6 in
    let (header, _, e8) = >>=-eq-ok (parse_json_header raw_decode payload) _ e7 in
    finish file_size (little_endian prefix) data_offset header (ground arith) sum bound ew e8
  where
    finish :
        (file_size header_bytes data_offset : ℕ) (header : Dict String Entry)
        → file_size ≡ reader.size_bytes
        → data_offset ≡ 8 + header_bytes
        → file_size ≤ max_serialized_uint
        → raise_if (ltb file_size data_offset) invalid_package ≡ ok tt
        → normalize_header header header_bytes data_offset file_size limits ≡ ok h
        → IsParsed reader.size_bytes h
    finish file_size header_bytes data_offset header same sum bound ew e =
        subst (λ n. IsParsed n h) same
          (normalize_header-eq_ok header header_bytes data_offset file_size limits {h = h} sum
            (ground arith) bound e)
