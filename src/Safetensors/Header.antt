-- ===== src/Safetensors/Header.antt =====
-- src/ams/integrations/safetensors.py: `parse_safetensors_header`, and what a header that it returns says.
use accumulative_matrix_swee.Prelude.{
  ℕ, ◌+◌, ◌-◌, ◌*◌, Bool, not, ◌||◌, Option, none, some, List, [], ◌∷◌, String, ltb, ◌==◌, all,
  length, if◌then◌else◌,
}
use accumulative_matrix_swee.Prelude.Text.{str_eq, str_lt}
use accumulative_matrix_swee.Prelude.Dict.{Dict, lookup, string_eq}
use accumulative_matrix_swee.Errors.{Result, ok, raise, raise_if, invalid_package, ◌>>=◌, ◌>>◌}
use accumulative_matrix_swee.Checked.{nat, checked_uint, checked_add}
use accumulative_matrix_swee.Codecs.Stream.{Reader}
use accumulative_matrix_swee.Safetensors.{
  SafetensorsLimits, SafetensorsTensor, SafetensorsHeader, Entry, null, sorted, normalize_metadata,
  normalize_tensor,
}
use accumulative_matrix_swee.Safetensors.Coverage.{validate_complete_coverage}

-- `struct.unpack("<Q", …)`
unfoldable pub little_endian : List ℕ → ℕ
little_endian [] = 0
little_endian (b ∷ bs) = b + 256 * little_endian bs

-- `header.pop("__metadata__", None)`: what it returns, and what it leaves.
abbrev pub metadata_of : Dict String Entry → Entry
metadata_of header = elim (lookup "__metadata__" header) [ none ↦ null | some e ↦ e ]

unfoldable pub without_metadata : Dict String Entry → Dict String Entry
without_metadata [] = []
without_metadata ((key, e) ∷ header) =
    let rest = without_metadata header in
    if str_eq key "__metadata__" then rest else (key, e) ∷ rest

unfoldable pub normalize_tensors :
    Dict String Entry → ℕ → SafetensorsLimits → Result (List SafetensorsTensor)
unfolding normalize_tensor
normalize_tensors [] data_offset limits = ok []
normalize_tensors ((name, value) ∷ header) data_offset limits = do
  t ← normalize_tensor name value data_offset limits
  ts ← normalize_tensors header data_offset limits
  ok (t ∷ ts)

-- `for tensor in tensors: …`: each ends within the data section.
unfoldable pub check_ends : List SafetensorsTensor → ℕ → Result (Unit {0})
check_ends [] data_bytes = ok tt
check_ends (t ∷ ts) data_bytes = do
  end ← checked_add (nat t.data_offset) (nat t.data_length)
  raise_if (ltb data_bytes end) invalid_package
  check_ends ts data_bytes

unfoldable pub name_less : SafetensorsTensor → SafetensorsTensor → Bool
name_less t u = str_lt t.source_name u.source_name

-- What follows the two reads: the entries are normalised and checked against the data section.
unfoldable pub normalize_header :
    Dict String Entry → ℕ → ℕ → ℕ → SafetensorsLimits → Result SafetensorsHeader
unfolding normalize_tensors check_ends without_metadata name_less
normalize_header header header_bytes data_offset file_size limits = do
  metadata ← normalize_metadata (metadata_of header) limits
  raise_if (ltb limits.max_tensors (length (without_metadata header))) invalid_package
  tensors ← normalize_tensors (without_metadata header) data_offset limits
  check_ends tensors (file_size - data_offset)
  validate_complete_coverage tensors (file_size - data_offset)
  ok (record {
    header_bytes = header_bytes;
    data_offset = data_offset;
    data_bytes = file_size - data_offset;
    tensors = sorted name_less tensors;
    metadata = metadata;
  })

-- `raw_decode` on the UTF-8 text of the payload: `none` if the text is no JSON or has a key twice, else
-- the object, if it is one, and the text after it.
module _ (raw_decode : List ℕ → Option (Option (Dict String Entry) × List ℕ)) where
  -- `_parse_json_header`
  unfoldable pub parse_json_header : List ℕ → Result (Dict String Entry)
  parse_json_header [] = raise invalid_package
  parse_json_header (b ∷ payload) =
      if not (b == b'{') then raise invalid_package else elim (raw_decode (b ∷ payload)) [
        | none ↦ raise invalid_package
        | some (value, rest) ↦
            if not (all (λ c. c == b' ') rest)
            then raise invalid_package
            else elim value [ none ↦ raise invalid_package | some header ↦ ok header ]
      ]

  unfoldable pub parse_safetensors_header : Reader → SafetensorsLimits → Result SafetensorsHeader
  unfolding little_endian parse_json_header normalize_header
  parse_safetensors_header reader limits = do
    file_size ← checked_uint (nat reader.size_bytes)
    raise_if (ltb file_size 8) invalid_package
    prefix ← reader.read_into 0 8
    let header_bytes = little_endian prefix
    raise_if (header_bytes == 0 || ltb limits.max_header_bytes header_bytes) invalid_package
    data_offset ← checked_add (nat 8) (nat header_bytes)
    raise_if (ltb file_size data_offset) invalid_package
    payload ← reader.read_into 8 header_bytes
    header ← parse_json_header payload
    normalize_header header header_bytes data_offset file_size limits
