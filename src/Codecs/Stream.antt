-- ===== src/Codecs/Stream.antt =====
-- src/ams/codecs/int4.py and ternary.py: the streaming encoders, which differ in the codec only.
-- The reader is a file of bytes behind `read_into`; hashes are a parameter, on texts as code points.
pub mod Cuts
pub mod Loop
pub mod Returned
pub mod Bounded
use accumulative_matrix_swee.Prelude.{
  ℕ, zero, suc, ◌+◌, ◌-◌, ◌*◌, ◌/◌, ◌≡◌, Bool, true, false, not, ◌&&◌, ◌||◌, Option, none, some,
  List, [], ◌∷◌, ◌++◌, map, min, max, leb, ltb, ◌==◌, all, length, take, drop, if◌then◌else◌,
  String,
}
use accumulative_matrix_swee.Prelude.Text.{codes}
use accumulative_matrix_swee.Errors.{
  Exception, Result, ok, err, raise, raise_if, value_error, capability_mismatch, plan_invalid,
  numeric_failure, integrity_failure, internal_invariant, ◌>>=◌, ◌>>◌,
}
use accumulative_matrix_swee.Checked.{
  Value, nat, checked_positive, checked_add, checked_mul, checked_product,
}
use accumulative_matrix_swee.Descriptors.Syntax.{split_colon, list_eq}
use accumulative_matrix_swee.Descriptors.Storage.{
  DType, float16, bfloat16, float32, ByteRange, validate_within,
}
use accumulative_matrix_swee.Codecs.Floats.{Floats}
use accumulative_matrix_swee.Codecs.Sink.{Sink, write_exact}

-- `RangeReader`: `read_into(offset, destination)` fills the destination, of a given length.
pub record Reader : Type 0 where
  pub size_bytes : ℕ
  pub read_into : ℕ → ℕ → Result (List ℕ)

-- What a reader reads is that part of its file.
pub record IsReader (r : Reader) (file : List ℕ) : Type 0 where
  pub reads :
      (offset length : ℕ) (bytes : List ℕ)
      → r.read_into offset length ≡ ok bytes
      → bytes ≡ take length (drop offset file)

-- `hashlib`: whether an algorithm is available, and the hexadecimal digest.
pub record Hashes : Type 0 where
  pub available : List ℕ → Bool
  pub hexdigest : List ℕ → List ℕ → List ℕ

-- `Int4EncodingResult`, `TernaryEncodingResult`
pub record EncodingResult : Type 0 where
  pub content_hash : List ℕ
  pub source_checksum : String
  pub element_count : ℕ
  pub group_count : ℕ
  pub encoded_bytes : ℕ
  pub decoded_bytes : ℕ
  pub maximum_source_read_bytes : ℕ

-- `_SOURCE_ITEM_BYTES`
unfoldable pub item_bytes : DType → Option ℕ
item_bytes float16 = some 2
item_bytes bfloat16 = some 2
item_bytes float32 = some 4
item_bytes _ = none

-- The bytes of the elements, from the first on.
unfoldable pub words : ℕ → ℕ → List ℕ → List (List ℕ)
words size zero bytes = []
words size (suc n) bytes = take size bytes ∷ words size n (drop size bytes)

-- The state of the loop: the bytes that went into the two digests, the count and the largest read.
pub record Progress : Type 0 where
  pub source : List ℕ
  pub output : List ℕ
  pub encoded_bytes : ℕ
  pub maximum_read : ℕ

-- `checksum.split(":", 1)`, whose two parts are assigned, and the test of the algorithm.
unfoldable pub checksum_parts : Hashes → String → Result (List ℕ × List ℕ)
unfolding split_colon
checksum_parts h checksum = elim (split_colon (codes checksum)) [
  | none ↦ err value_error
  | some (algorithm, expected) ↦
      if not (h.available algorithm) || list_eq algorithm (codes "blake3")
      then raise capability_mismatch
      else ok (algorithm, expected)
]

module _ (f : Floats) where
  -- One element of `_decode_source_group`.
  unfoldable pub source_value : DType → List ℕ → f.F
  source_value float16 word = f.unpack_half word
  source_value bfloat16 word = f.unpack (0 ∷ 0 ∷ word)
  source_value _ word = f.unpack word

  -- `_decode_source_group`
  unfoldable pub decode_source_group : List ℕ → ℕ → DType → Result (List f.F)
  unfolding item_bytes words source_value
  decode_source_group payload count dtype = elim (item_bytes dtype) [
    | none ↦ raise capability_mismatch
    | some size ↦ do
      let values = map (source_value dtype) (words size count payload)
      raise_if (not (all f.is_finite values)) numeric_failure
      ok values
  ]

  module _ (k : Sink) (h : Hashes) (reader : Reader) (group : ℕ) (encoded_size : ℕ → Result ℕ)
      (encode : List f.F → Result (List ℕ)) (source : ByteRange) (dtype : DType)
      (size element_count : ℕ) where
    -- One turn of the loop up to the write: the window that was read, and its record.
    unfoldable pub read_group : ℕ → Result (List ℕ × List ℕ)
    unfolding decode_source_group
    read_group completed = do
      let count = min group (element_count - completed)
      progress ← checked_mul (nat completed) (nat size)
      offset ← checked_add (nat source.offset) (nat progress)
      window ← reader.read_into offset (count * size)
      values ← decode_source_group window count dtype
      record_bytes ← encode values
      ok (window, record_bytes)

    -- `while completed < element_count`, with what is not completed for fuel.
    unfoldable pub encode_loop : ℕ → ℕ → Progress → k.S → Result Progress × k.S
    unfolding read_group write_exact
    encode_loop zero completed p s = (ok p, s)
    encode_loop (suc fuel) completed p s = elim (leb element_count completed) [
      | true ↦ (ok p, s)
      | false ↦ elim (read_group completed) [
        | err e ↦ (err e, s)
        | ok (window, record_bytes) ↦ elim (write_exact k record_bytes s).0 [
          | err e ↦ (err e, (write_exact k record_bytes s).1)
          | ok written ↦
              encode_loop fuel (completed + min group (element_count - completed))
                (record {
                  source = p.source ++ window;
                  output = p.output ++ record_bytes;
                  encoded_bytes = p.encoded_bytes + written;
                  maximum_read = max p.maximum_read (min group (element_count - completed) * size);
                })
                (write_exact k record_bytes s).1
        ]
      ]
    ]

    -- What follows the loop.
    unfoldable pub conclude : List ℕ → List ℕ → ℕ → Progress → Result EncodingResult
    conclude algorithm expected decoded_bytes p = do
      raise_if (not (list_eq (h.hexdigest algorithm p.source) expected)) integrity_failure
      expected_encoded ← encoded_size element_count
      raise_if (not (p.encoded_bytes == expected_encoded)) internal_invariant
      ok (record {
        content_hash = codes "sha256:" ++ h.hexdigest (codes "sha256") p.output;
        source_checksum = source.checksum;
        element_count = element_count;
        group_count = (element_count + group - 1) / group;
        encoded_bytes = p.encoded_bytes;
        decoded_bytes = decoded_bytes;
        maximum_source_read_bytes = p.maximum_read;
      })

abbrev pub start : Progress
start = record { source = []; output = []; encoded_bytes = 0; maximum_read = 0 }

-- What precedes the loop, once the size of an element is known: that size, the number of elements, the
-- size of the source and the two parts of its checksum.
unfoldable pub prepare_sized :
    Hashes → Reader → ByteRange → List Value → ℕ → Result (ℕ × ℕ × ℕ × List ℕ × List ℕ)
unfolding checksum_parts
prepare_sized h reader source shape size = do
  element_count ← checked_product shape
  checked_positive (nat element_count)
  decoded_bytes ← checked_mul (nat element_count) (nat size)
  raise_if (not (source.length == decoded_bytes)) plan_invalid
  validate_within source reader.size_bytes
  (algorithm, expected) ← checksum_parts h source.checksum
  ok (size, element_count, decoded_bytes, algorithm, expected)

unfoldable pub prepare :
    Hashes → Reader → ByteRange → List Value → DType → Result (ℕ × ℕ × ℕ × List ℕ × List ℕ)
unfolding item_bytes prepare_sized
prepare h reader source shape dtype = elim (item_bytes dtype) [
  | none ↦ raise capability_mismatch
  | some size ↦ prepare_sized h reader source shape size
]

-- `encode_int4_stream` and `encode_ternary_stream`, of the record sizes and the encoder of a group.
unfoldable pub encode_stream :
    (f : Floats) (k : Sink)
    → Hashes
    → Reader
    → ℕ
    → (ℕ → Result ℕ)
    → (List f.F → Result (List ℕ))
    → ByteRange
    → List Value
    → DType
    → k.S
    → Result EncodingResult × k.S
unfolding prepare encode_loop conclude
encode_stream f k h reader group encoded_size encode source shape dtype s =
    elim (prepare h reader source shape dtype) [
      | err e ↦ (err e, s)
      | ok (size, element_count, decoded_bytes, algorithm, expected) ↦
          let (r, s') =
            encode_loop f k h reader group encoded_size encode source dtype size element_count
              element_count 0 start s in
          elim r [
            | err e ↦ (err e, s')
            | ok p ↦ (
              conclude f k h reader group encoded_size encode source dtype size element_count
                  algorithm expected decoded_bytes p,
              s',
            )
          ]
    ]
