-- ===== src/Storage/CopyTests.antt =====
-- A range copied in windows of three bytes to a sink that takes at most two of each write.
use accumulative_matrix_swee.Prelude.{
  ℕ, ◌+◌, ◌%◌, ◌≡◌, refl, ap, true, Option, none, some, List, [], ◌∷◌, ◌++◌, min, arith, length,
  take, drop,
}
use accumulative_matrix_swee.Prelude.Text.{codes}
use accumulative_matrix_swee.Errors.{Exception, Result, ok, err}
use accumulative_matrix_swee.Checked.{
  str, nat, checked_uint, checked_positive, checked_add, checked_range_end,
}
use accumulative_matrix_swee.Descriptors.Syntax.{validate_identifier, split_colon, list_eq}
use accumulative_matrix_swee.Descriptors.Storage.{ByteRange, range_end, validate_within}
use accumulative_matrix_swee.Codecs.Sink.{Sink, IsSink, write_loop}
use accumulative_matrix_swee.Codecs.Stream.{Reader, IsReader, Hashes, checksum_parts}
use accumulative_matrix_swee.Storage.{checked_buffer}
use accumulative_matrix_swee.Storage.Copy.{
  Published, FileSystem, read_chunk, copy_loop, stage, prepare_copy, copy_range_atomic,
}
use accumulative_matrix_swee.Storage.Atomic.{IsFileSystem, IsPublished, copy_range_atomic_lem}

abbrev pub narrow : Sink
narrow = record {
  S = List ℕ;
  write = λ bytes s. (ok (some (min 2 (length bytes))), s ++ take (min 2 (length bytes)) bytes);
  content = λ s. s;
}

same :
    (bytes : List ℕ) (n : ℕ)
    → ◌≡◌ {A = Result (Option ℕ)} (ok (some (min 2 (length bytes)))) (ok (some n))
    → min 2 (length bytes) ≡ n
same bytes n e = cc

pub narrow-IsSink : IsSink narrow
narrow-IsSink = record {
  taken = λ bytes s n e. (ground arith, ap (λ m. s ++ take m bytes) (same bytes n e));
}

abbrev pub bytes : List ℕ
bytes = 10 ∷ 11 ∷ 12 ∷ 13 ∷ 14 ∷ 15 ∷ []

abbrev pub reader : Reader
reader = record { size_bytes = 6; read_into = λ offset n. ok (take n (drop offset bytes)) }

pub reader-IsReader : IsReader reader bytes
reader-IsReader = record { reads = λ offset n part e. cc }

abbrev pub disk : FileSystem narrow
disk = record {
  make_directories = ok tt;
  open_staging = ok [];
  sync = λ s. ok tt;
  replace = ok tt;
  read_file = λ p. ok p.bytes;
}

pub disk-IsFileSystem : IsFileSystem narrow disk
disk-IsFileSystem = record { fresh = λ s e. cc; reads = λ p content e. cc }

abbrev hashes : Hashes
hashes = record { available = λ a. true; hexdigest = λ a content. (48 + length content % 10) ∷ [] }

abbrev source : ByteRange
source = record { object_id = "weights"; offset = 1; length = 4; checksum = "sha256:4" }

abbrev chunk : Published
chunk = record { regular = true; bytes = 11 ∷ 12 ∷ 13 ∷ 14 ∷ [] }

copied :
    copy_range_atomic narrow disk hashes reader source (str "shard") (nat 3) none
    ≡ (ok (codes "sha256-4.bin"), some chunk)
unfolding copy_range_atomic prepare_copy stage copy_loop read_chunk write_loop checked_buffer
    checksum_parts split_colon list_eq validate_identifier validate_within range_end
    checked_range_end checked_positive checked_add checked_uint
copied = refl

copy_range_atomic_lem_example :
    ((x : Exception)
      → (copy_range_atomic narrow disk hashes reader source (str "shard") (nat 3) none).0 ≡ err x
      → (copy_range_atomic narrow disk hashes reader source (str "shard") (nat 3) none).1 ≡ none)
    × ((name : List ℕ)
        → (copy_range_atomic narrow disk hashes reader source (str "shard") (nat 3) none).0
          ≡ ok name
        → IsPublished narrow disk hashes reader bytes narrow-IsSink disk-IsFileSystem
            reader-IsReader source none
            (copy_range_atomic narrow disk hashes reader source (str "shard") (nat 3) none).1
            name)
copy_range_atomic_lem_example =
    copy_range_atomic_lem narrow disk hashes reader bytes narrow-IsSink disk-IsFileSystem
      reader-IsReader source (str "shard") (nat 3) none
