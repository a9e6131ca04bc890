-- ===== src/Storage.antt =====
-- src/ams/storage: range reads of an immutable file, and the hash of a range.
pub mod Returned
pub mod Files
pub mod Copy
pub mod Atomic
mod Tests
pub mod CopyTests
use accumulative_matrix_swee.Prelude.{
  ℕ, zero, suc, ◌+◌, ◌-◌, ◌≤◌, ◌≡◌, Bool, true, false, not, ◌||◌, Option, none, some, List, [], ◌∷◌,
  ◌++◌, min, max, String, ltb, ◌==◌, length, take, drop, if◌then◌else◌,
}
use accumulative_matrix_swee.Prelude.Text.{codes}
use accumulative_matrix_swee.Prelude.Int.{pos, negsuc}
use accumulative_matrix_swee.Errors.{
  Result, ok, err, raise, raise_retriable, raise_if, translate_os_error, value_error, io_failure,
  invalid_package, plan_invalid, capability_mismatch, integrity_failure, ◌>>=◌, ◌>>◌,
}
use accumulative_matrix_swee.Checked.{
  Value, int, bool, str, other, nat, checked_uint, checked_add, checked_range_end,
}
use accumulative_matrix_swee.Descriptors.Syntax.{split_colon, list_eq}
use accumulative_matrix_swee.Descriptors.Storage.{StorageObject}
use accumulative_matrix_swee.Codecs.Stream.{Reader, Hashes}

-- A binary file that is open without a buffer: `seek` after `open`, and `readinto` into a view of a given
-- length, which reads what it reads of the bytes at the position. `position` is for the laws only.
pub record File : Type 1 where
  pub H : Type 0
  pub size : ℕ
  pub open_at : ℕ → Result H
  pub readinto : ℕ → H → Result (Option (List ℕ)) × H
  pub position : H → ℕ

pub record IsFile (f : File) (bytes : List ℕ) : Type 0 where
  pub opened : (offset : ℕ) (h : f.H) → f.open_at offset ≡ ok h → f.position h ≡ offset
  pub reads :
      (n : ℕ) (h : f.H) (part : List ℕ)
      → (f.readinto n h).0 ≡ ok (some part)
      → part ≡ take (length part) (drop (f.position h) bytes)
  pub advances :
      (n : ℕ) (h : f.H) (part : List ℕ)
      → (f.readinto n h).0 ≡ ok (some part)
      → f.position (f.readinto n h).1 ≡ f.position h + length part
  pub fits :
      (n : ℕ) (h : f.H) (part : List ℕ) → (f.readinto n h).0 ≡ ok (some part) → length part ≤ n

-- `FileRangeStore.__init__`: the size on disk is the declared one.
unfoldable pub file_range_store : File → StorageObject → Result ℕ
file_range_store file descriptor =
    if not (file.size == descriptor.size_bytes)
    then raise invalid_package
    else ok descriptor.size_bytes

module _ (file : File) where
  -- `while completed < length`, on what is not completed, which is the fuel too.
  unfoldable pub read_loop : ℕ → ℕ → file.H → Result (List ℕ)
  read_loop zero missing h = ok []
  read_loop (suc fuel) zero h = ok []
  read_loop (suc fuel) (suc missing) h = do
    count ← (file.readinto (suc missing) h).0
    elim count [
      | none ↦ raise_retriable io_failure
      | some [] ↦ raise_retriable io_failure
      | some (b ∷ part) ↦ do
        rest ← read_loop fuel (suc missing - length (b ∷ part)) (file.readinto (suc missing) h).1
        ok (b ∷ part ++ rest)
    ]

  -- A read of at least a byte.
  unfoldable pub read_range : ℕ → Value → ℕ → Result (List ℕ)
  unfolding read_loop
  read_range size_bytes offset length = do
    end ← checked_range_end offset (nat length)
    raise_if (ltb size_bytes end) io_failure
    o ← checked_uint offset
    h ← file.open_at o
    read_loop length length h

  -- An empty read.
  unfoldable pub read_nothing : ℕ → Value → Result (List ℕ)
  read_nothing size_bytes offset = do
    o ← checked_uint offset
    raise_if (ltb size_bytes o) io_failure
    ok []

  -- `FileRangeStore.read_into`, of the offset, the length of the view and whether it is read-only.
  unfoldable pub read_into : ℕ → Value → ℕ → Bool → Result (List ℕ)
  unfolding read_range read_nothing
  read_into size_bytes offset length readonly = translate_os_error io_failure (
      if readonly
      then raise io_failure
      else if length == 0
      then read_nothing size_bytes offset
      else read_range size_bytes offset length)

  -- The store as the reader that the codecs take.
  abbrev pub store_reader : ℕ → Reader
  store_reader size_bytes = record {
    size_bytes = size_bytes;
    read_into = λ offset length. read_into size_bytes (nat offset) length false;
  }

-- `isinstance(buffer_bytes, bool) or not isinstance(buffer_bytes, int) or buffer_bytes <= 0`
unfoldable pub checked_buffer : Value → Result ℕ
checked_buffer (int (pos n)) = if n == 0 then raise plan_invalid else ok n
checked_buffer (int (negsuc _)) = raise plan_invalid
checked_buffer (bool _) = raise plan_invalid
checked_buffer (str _) = raise plan_invalid
checked_buffer other = raise plan_invalid

-- `while completed < length` of `hash_reader_range`: the bytes that go into the digest.
unfoldable pub hash_loop : Reader → ℕ → ℕ → ℕ → ℕ → ℕ → Result (List ℕ)
hash_loop reader offset buffer zero completed missing = ok []
hash_loop reader offset buffer (suc fuel) completed zero = ok []
hash_loop reader offset buffer (suc fuel) completed (suc missing) = do
  let count = min buffer (suc missing)
  read_offset ← checked_add (nat offset) (nat completed)
  window ← reader.read_into read_offset count
  rest ← hash_loop reader offset buffer fuel (completed + count) (suc missing - count)
  ok (window ++ rest)

unfoldable pub hash_reader_range :
    Hashes → Reader → Value → Value → Value → String → Result (List ℕ)
unfolding checked_buffer hash_loop
hash_reader_range hashes reader offset length buffer_bytes algorithm = do
  o ← checked_uint offset
  l ← checked_uint length
  end ← checked_add (nat o) (nat l)
  raise_if (ltb reader.size_bytes end) io_failure
  b ← checked_buffer buffer_bytes
  raise_if (not (hashes.available (codes algorithm)) || list_eq (codes algorithm) (codes "blake3"))
      capability_mismatch
  content ← hash_loop reader o (min b (max l 1)) l 0 l
  ok (codes algorithm ++ codes ":" ++ hashes.hexdigest (codes algorithm) content)
