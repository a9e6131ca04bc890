-- ===== src/Codecs/StreamTests.antt =====
-- A run of the INT4 stream into a sink that takes at most three bytes of each write.
use accumulative_matrix_swee.Prelude.{
  ℕ, ◌+◌, ◌*◌, ◌%◌, ◌<◌, ◌≡◌, refl, ap, true, Option, some, List, [], ◌∷◌, ◌++◌, min, arith, length,
  take, drop, ◌≤◌, ◌≢◌, ◌-◌,
}
use accumulative_matrix_swee.Descriptors.Syntax.{split_colon, list_eq}
use accumulative_matrix_swee.Errors.{Result, ok, err, diverged}
use accumulative_matrix_swee.Checked.{
  checked_uint, checked_positive, checked_add, checked_mul, checked_product, checked_product_from,
  checked_range_end, nat,
}
use accumulative_matrix_swee.Descriptors.Storage.{validate_within, range_end, ByteRange, float32}
use accumulative_matrix_swee.Codecs.Sink.{
  write_loop, Sink, IsSink, write_exact, write_exact-eq_ok, write_exact-returns, write_exact-ends,
}
use accumulative_matrix_swee.Codecs.Stream.{
  encode_stream, encode_loop, conclude, prepare, prepare_sized, checksum_parts, read_group,
  decode_source_group, source_value, words, item_bytes, Reader, IsReader, Hashes, EncodingResult,
}
use accumulative_matrix_swee.Codecs.Stream.Bounded.{bounded}
use accumulative_matrix_swee.Codecs.Integers.{
  magnitude, bytes_of, of_bytes, integers, integers-IsIeee,
}
use accumulative_matrix_swee.Codecs.Int4.{
  encode_int4_group_reference, encode_group, stored_scale, maximum, quantize, negate, pack_nibbles,
  low_nibble, encoded_size, group_record_size, Int4CodecConfig, encode_int4_stream,
}
use accumulative_matrix_swee.Codecs.Int4.Whole.{IsStored, decode-encode_int4_stream}

abbrev pub narrow : Sink
narrow = record {
  S = List ℕ;
  write = λ bytes s. (ok (some (min 3 (length bytes))), s ++ take (min 3 (length bytes)) bytes);
  content = λ s. s;
}

same :
    (bytes : List ℕ) (n : ℕ)
    → ◌≡◌ {A = Result (Option ℕ)} (ok (some (min 3 (length bytes)))) (ok (some n))
    → min 3 (length bytes) ≡ n
same bytes n e = cc

pub narrow-IsSink : IsSink narrow
narrow-IsSink = record {
  taken = λ bytes s n e. (ground arith, ap (λ m. s ++ take m bytes) (same bytes n e));
}

abbrev pub file : List ℕ
file =
    9 ∷ 9 ∷ 14 ∷ 0 ∷ 0 ∷ 0 ∷ 7 ∷ 0 ∷ 0 ∷ 0 ∷ 5 ∷ 0 ∷ 0 ∷ 0 ∷ 21 ∷ 0 ∷ 0 ∷ 0 ∷ 3 ∷ 0 ∷ 0 ∷ 0 ∷ 9 ∷ []

abbrev pub reader : Reader
reader = record { size_bytes = 23; read_into = λ offset n. ok (take n (drop offset file)) }

pub reader-IsReader : IsReader reader file
reader-IsReader = record { reads = λ offset n bytes e. cc }

abbrev pub hashes : Hashes
hashes = record { available = λ a. true; hexdigest = λ a bytes. (48 + length bytes % 10) ∷ [] }

abbrev pub source : ByteRange
source = record { object_id = "weights"; offset = 2; length = 20; checksum = "sha256:0" }

abbrev config : Int4CodecConfig
config = record {
  group_size = 3;
  scale_dtype = float32;
  packing = "signed-nibble-low-first";
  version = "1.0.0";
}

abbrev result : EncodingResult
result = record {
  content_hash = 115 ∷ 104 ∷ 97 ∷ 50 ∷ 53 ∷ 54 ∷ 58 ∷ 49 ∷ [];
  source_checksum = "sha256:0";
  element_count = 5;
  group_count = 2;
  encoded_bytes = 11;
  decoded_bytes = 20;
  maximum_source_read_bytes = 12;
}

run :
    (encode_int4_stream integers narrow hashes reader source (nat 5 ∷ []) float32 config []).0
    ≡ ok result
unfolding encode_stream encode_loop conclude prepare prepare_sized checksum_parts read_group
    decode_source_group source_value words item_bytes write_exact write_loop checked_uint
    checked_positive checked_add checked_mul checked_product checked_product_from checked_range_end
    validate_within range_end split_colon list_eq encode_int4_stream encode_int4_group_reference
    encode_group stored_scale maximum quantize negate pack_nibbles low_nibble encoded_size
    group_record_size magnitude bytes_of of_bytes
run = refl

decode-encode_int4_stream_example :
    IsStored integers integers-IsIeee config file source
      (nat 5 ∷ [])
      float32
      []
      (encode_int4_stream integers narrow hashes reader source (nat 5 ∷ []) float32 config []).1
      result
    × (size : ℕ) × (item_bytes float32 ≡ some size)
    × (encode_int4_stream integers narrow hashes
          (bounded (3 * size) reader)
          source
          (nat 5 ∷ [])
          float32
          config
          []
        ≡ encode_int4_stream integers narrow hashes reader source (nat 5 ∷ []) float32 config [])
decode-encode_int4_stream_example =
    decode-encode_int4_stream integers integers-IsIeee config narrow hashes reader file
      narrow-IsSink reader-IsReader source (nat 5 ∷ []) float32 [] result run

write_exact-eq_ok_example :
    (5 ≡ length {A = ℕ} (1 ∷ 2 ∷ 3 ∷ 4 ∷ 5 ∷ []))
    × ((write_exact narrow (1 ∷ 2 ∷ 3 ∷ 4 ∷ 5 ∷ []) (9 ∷ [])).1
        ≡ (9 ∷ []) ++ (1 ∷ 2 ∷ 3 ∷ 4 ∷ 5 ∷ []))
write_exact-eq_ok_example =
    write_exact-eq_ok narrow narrow-IsSink (1 ∷ 2 ∷ 3 ∷ 4 ∷ 5 ∷ []) (9 ∷ []) written
  where
    written : (write_exact narrow (1 ∷ 2 ∷ 3 ∷ 4 ∷ 5 ∷ []) (9 ∷ [])).0 ≡ ok 5
    written = unfold write_exact write_loop in refl

eager :
    (b : ℕ) (rest : List ℕ) (s : List ℕ)
    → (n : ℕ) × ((narrow.write (b ∷ rest) s).0 ≡ ok (some n)) × (0 < n)
eager b rest s = (min 3 (length (b ∷ rest)), refl, omega arith)

write_exact-returns_example :
    (n : ℕ) × ((write_exact narrow (1 ∷ 2 ∷ 3 ∷ 4 ∷ 5 ∷ []) []).0 ≡ ok n)
    × (length {A = ℕ} (1 ∷ 2 ∷ 3 ∷ 4 ∷ 5 ∷ []) ≤ n)
write_exact-returns_example = write_exact-returns narrow eager (1 ∷ 2 ∷ 3 ∷ 4 ∷ 5 ∷ []) []

-- A sink that takes two bytes and then nothing.
abbrev full : Sink
full = record {
  S = List ℕ;
  write = λ bytes s.
      let room = min (length bytes) (2 - length s) in (ok (some room), s ++ take room bytes);
  content = λ s. s;
}

full-ends : (bytes : List ℕ) (s : List ℕ) → (full.write bytes s).0 ≢ err diverged
full-ends bytes s e = cc

write_exact-ends_example : (write_exact full (1 ∷ 2 ∷ 3 ∷ []) []).0 ≢ err diverged
write_exact-ends_example = write_exact-ends full full-ends (1 ∷ 2 ∷ 3 ∷ []) []
