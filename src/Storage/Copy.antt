-- ===== src/Storage/Copy.antt =====
-- src/ams/storage/copy.py: `copy_range_atomic`, the publication of a range under its content hash.
-- The file system is a parameter: what its calls return, and the staging file as a sink.
use accumulative_matrix_swee.Prelude.{
  ℕ, zero, suc, ◌+◌, ◌-◌, not, Option, none, some, List, [], ◌++◌, min, ◌==◌, length,
}
use accumulative_matrix_swee.Prelude.Text.{codes}
use accumulative_matrix_swee.Errors.{
  Result, ok, err, diverged, raise_if, translate_os_error, io_failure, integrity_failure, ◌>>=◌,
  ◌>>◌,
}
use accumulative_matrix_swee.Checked.{Value, nat, checked_add}
use accumulative_matrix_swee.Descriptors.Syntax.{validate_identifier, list_eq}
use accumulative_matrix_swee.Descriptors.Storage.{ByteRange, validate_within}
use accumulative_matrix_swee.Codecs.Sink.{Sink, write_loop}
use accumulative_matrix_swee.Codecs.Stream.{Reader, Hashes, checksum_parts}
use accumulative_matrix_swee.Storage.{checked_buffer}
pub use accumulative_matrix_swee.Storage.Files.{Published, FileSystem}
use accumulative_matrix_swee.Storage.Files.{
  before, Step, bind, call, on_staging, open_file, sync_file, replace_file,
}

-- One read of the loop, at what is completed.
unfoldable pub read_chunk : Reader → ℕ → ℕ → ℕ → Result (List ℕ)
read_chunk reader offset completed count = do
  source_offset ← checked_add (nat offset) (nat completed)
  reader.read_into source_offset count

module _ (k : Sink) (fs : FileSystem k) (h : Hashes) where
  -- `_hash_file`
  unfoldable pub hash_file : Published → ℕ → List ℕ → Result (List ℕ)
  hash_file p expected_size algorithm = translate_os_error io_failure (do
    raise_if (not p.regular) integrity_failure
    raise_if (not (length p.bytes == expected_size)) integrity_failure
    content ← fs.read_file p
    ok (h.hexdigest algorithm content))

  -- A chunk that is published already is verified, not copied.
  unfoldable pub check_published : Published → ℕ → List ℕ → List ℕ → Result (Unit {0})
  unfolding hash_file
  check_published p expected_size algorithm expected = do
    actual ← hash_file p expected_size algorithm
    raise_if (not (list_eq actual expected)) integrity_failure

  -- `while completed < source.length`: the bytes that went into the digest, and the staging file.
  unfoldable pub copy_loop : Reader → ℕ → ℕ → ℕ → ℕ → ℕ → k.S → Result (List ℕ) × k.S
  unfolding write_loop read_chunk
  copy_loop reader offset buffer zero completed zero s = (ok [], s)
  copy_loop reader offset buffer zero completed (suc missing) s = (err diverged, s)
  copy_loop reader offset buffer (suc fuel) completed zero s = (ok [], s)
  copy_loop reader offset buffer (suc fuel) completed (suc missing) s =
      elim (read_chunk reader offset completed (min buffer (suc missing))) [
        | err e ↦ (err e, s)
        | ok window ↦ elim (write_loop k (length window) 0 window s).0 [
          | err e ↦ (err e, (write_loop k (length window) 0 window s).1)
          | ok _ ↦
              let (r, s') =
                copy_loop reader offset buffer fuel (completed + min buffer (suc missing))
                  (suc missing - min buffer (suc missing))
                  (write_loop k (length window) 0 window s).1 in
              (r >>= λ rest. ok (window ++ rest), s')
        ]
      ]

  -- The block that stages the range and puts it at the final path.
  unfoldable pub stage : Reader → ByteRange → ℕ → List ℕ → List ℕ → Step k (Unit {0})
  unfolding copy_loop
  stage reader source buffer algorithm expected = bind k (open_file k fs) (λ _.
      bind k
        (on_staging k
          (copy_loop reader source.offset (min buffer source.length) source.length 0 source.length))
        (λ content. bind k (sync_file k fs) (λ _.
          bind k
            (call k
              (raise_if (not (list_eq (h.hexdigest algorithm content) expected)) integrity_failure))
            (λ _. replace_file k fs))))

  -- What precedes the look at the final path.
  unfoldable pub prepare_copy : Reader → ByteRange → Value → Value → Result (ℕ × List ℕ × List ℕ)
  unfolding checked_buffer checksum_parts
  prepare_copy reader source publication_key buffer_bytes = do
    validate_identifier publication_key
    buffer ← checked_buffer buffer_bytes
    validate_within source reader.size_bytes
    (algorithm, expected) ← checksum_parts h source.checksum
    translate_os_error io_failure fs.make_directories
    ok (buffer, algorithm, expected)

  -- The name of the final path.
  abbrev pub final_name : List ℕ → List ℕ → List ℕ
  final_name algorithm expected = algorithm ++ codes "-" ++ expected ++ codes ".bin"

  -- `copy_range_atomic`, of what stands at the final path; it returns the name, and what stands there then.
  unfoldable pub copy_range_atomic :
      Reader → ByteRange → Value → Value → Option Published → Result (List ℕ) × Option Published
  unfolding prepare_copy check_published stage
  copy_range_atomic reader source publication_key buffer_bytes published =
      elim (prepare_copy reader source publication_key buffer_bytes) [
        | err e ↦ (err e, published)
        | ok (buffer, algorithm, expected) ↦ elim published [
          | some p ↦ (
            check_published p source.length algorithm expected >>= λ _.
                ok (final_name algorithm expected),
            some p,
          )
          | none ↦
              let (r, files) = stage reader source buffer algorithm expected (before k none) in
              (
                translate_os_error io_failure r >>= λ _. ok (final_name algorithm expected),
                files.final_path,
              )
        ]
      ]
