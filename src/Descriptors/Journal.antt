-- ===== src/Descriptors/Journal.antt =====
-- src/ams/descriptors.py: `JournalEntryState`, `ConversionJournalEntry` and `ConversionJournal`.
use accumulative_matrix_swee.Prelude.{
  ℕ, Bool, true, false, not, ◌&&◌, Option, none, some, String, List, map,
}
use accumulative_matrix_swee.Errors.{Result, ok, raise_if, invalid_package, ◌>>=◌, ◌>>◌}
use accumulative_matrix_swee.Checked.{Value, checked_positive}
use accumulative_matrix_swee.Descriptors.Syntax.{
  validate_identifier, validate_digest, validate_semver,
}
use accumulative_matrix_swee.Descriptors.Storage.{ByteRange}
use accumulative_matrix_swee.Descriptors.Tensor.{has_duplicates}

pub data JournalEntryState : Type 0 where
  planned written verified published : JournalEntryState

pub record ConversionJournalEntry : Type 0 where
  pub source_range : ByteRange
  pub target_chunk_id : String
  pub state : JournalEntryState
  pub target_hash : Option String
  pub encoded_bytes : Option ℕ

-- `state is not JournalEntryState.PLANNED`
unfoldable pub is_completed : JournalEntryState → Bool
is_completed planned = false
is_completed _ = true

abbrev pub is_some {ℓ} : {A : Type ℓ} → Option A → Bool
is_some none = false
is_some (some _) = true

-- `if value is not None: check(value)`
unfoldable pub check_optional {ℓ} :
    {A : Type ℓ} → (Value → Result A) → Option Value → Result (Option A)
check_optional check none = ok none
check_optional check (some v) = do a ← check v; ok (some a)

unfoldable pub iff : Bool → Bool → Bool
iff true b = b
iff false b = not b

unfoldable pub conversion_journal_entry :
    ByteRange
    → Value
    → JournalEntryState
    → Option Value
    → Option Value
    → Result ConversionJournalEntry
unfolding is_completed check_optional iff
conversion_journal_entry source_range target_chunk_id state target_hash encoded_bytes = do
  i ← validate_identifier target_chunk_id
  raise_if (not (iff (is_completed state) (is_some target_hash && is_some encoded_bytes)))
      invalid_package
  h ← check_optional validate_digest target_hash
  n ← check_optional checked_positive encoded_bytes
  ok (record {
    source_range = source_range;
    target_chunk_id = i;
    state = state;
    target_hash = h;
    encoded_bytes = n;
  })

pub record ConversionJournal : Type 0 where
  pub journal_version : String
  pub source_root : String
  pub configuration_hash : String
  pub entries : List ConversionJournalEntry

unfoldable pub conversion_journal :
    Value → Value → Value → List ConversionJournalEntry → Result ConversionJournal
unfolding has_duplicates
conversion_journal journal_version source_root configuration_hash entries = do
  v ← validate_semver journal_version
  r ← validate_digest source_root
  c ← validate_digest configuration_hash
  raise_if (has_duplicates (map (λ e. e.target_chunk_id) entries)) invalid_package
  ok (record { journal_version = v; source_root = r; configuration_hash = c; entries = entries })
