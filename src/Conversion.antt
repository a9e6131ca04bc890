-- ===== src/Conversion.antt =====
-- src/ams/conversion.py: `ConversionItem`, `ConversionPlan` and the journal that a plan starts with.
pub mod Journals
pub mod Store
pub mod Execute
pub mod RoundTrip
pub mod Accepted
pub mod Written
pub mod Stored
pub mod Backed
pub mod Turn
pub mod Run
pub mod Restart
pub mod Ordered
pub mod Finished
pub mod Complete
pub mod Rerun
mod Tests
use accumulative_matrix_swee.Prelude.{none, List, [], ◌∷◌, map, String, if◌then◌else◌}
use accumulative_matrix_swee.Prelude.Text.{str_lt}
use accumulative_matrix_swee.Errors.{Result, ok, raise, raise_if, plan_invalid, ◌>>=◌, ◌>>◌}
use accumulative_matrix_swee.Checked.{Value, str}
use accumulative_matrix_swee.Descriptors.Syntax.{validate_identifier, validate_digest}
use accumulative_matrix_swee.Descriptors.Storage.{ByteRange}
use accumulative_matrix_swee.Descriptors.Tensor.{has_duplicates}
use accumulative_matrix_swee.Descriptors.Journal.{
  planned, ConversionJournalEntry, conversion_journal_entry, ConversionJournal, conversion_journal,
}

pub record ConversionItem : Type 0 where
  pub target_chunk_id : String
  pub source_range : ByteRange

unfoldable pub conversion_item : Value → ByteRange → Result ConversionItem
conversion_item target_chunk_id source_range = do
  i ← validate_identifier target_chunk_id
  ok (record { target_chunk_id = i; source_range = source_range })

pub record ConversionPlan : Type 0 where
  pub source_root : String
  pub configuration_hash : String
  pub items : List ConversionItem

insert_item : ConversionItem → List ConversionItem → List ConversionItem
insert_item item [] = item ∷ []
insert_item item (other ∷ items) =
    let later = insert_item item items in
    if str_lt other.target_chunk_id item.target_chunk_id
    then other ∷ later
    else item ∷ other ∷ items

-- `sorted(self.items, key=lambda item: item.target_chunk_id)`
sorted : List ConversionItem → List ConversionItem
unfolding insert_item
sorted [] = []
sorted (item ∷ items) = insert_item item (sorted items)

-- `if not items: raise …`, and else whether two identifiers are the same.
check_items : List ConversionItem → Result (Unit {0})
unfolding has_duplicates
check_items [] = raise plan_invalid
check_items (item ∷ items) =
    raise_if (has_duplicates (map (λ i. i.target_chunk_id) (item ∷ items))) plan_invalid

unfoldable pub conversion_plan : Value → Value → List ConversionItem → Result ConversionPlan
unfolding sorted check_items
conversion_plan source_root configuration_hash items = do
  r ← validate_digest source_root
  c ← validate_digest configuration_hash
  check_items (sorted items)
  ok (record { source_root = r; configuration_hash = c; items = sorted items })

-- The entries of `planned_journal`, one to an item.
unfoldable pub planned_entries : List ConversionItem → Result (List ConversionJournalEntry)
unfolding conversion_journal_entry
planned_entries [] = ok []
planned_entries (item ∷ items) = do
  e ← conversion_journal_entry item.source_range (str item.target_chunk_id) planned none none
  es ← planned_entries items
  ok (e ∷ es)

unfoldable pub planned_journal : ConversionPlan → Result ConversionJournal
unfolding planned_entries conversion_journal
planned_journal plan = do
  es ← planned_entries plan.items
  conversion_journal (str "1.0.0") (str plan.source_root) (str plan.configuration_hash) es
