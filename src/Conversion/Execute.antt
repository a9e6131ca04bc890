-- ===== src/Conversion/Execute.antt =====
-- src/ams/conversion.py: `execute_identity_conversion` and `execute_multi_source_identity_conversion`.
-- The first of the file systems is found by `load_or_create`, the one with number 2n by the copy of the n-th
-- item and the next one by the journal that is written after it.
use accumulative_matrix_swee.Prelude.{
  ℕ, suc, ◌+◌, ◌*◌, Bool, true, false, not, Option, none, some, List, [], ◌∷◌, String, any,
  if◌then◌else◌,
}
use accumulative_matrix_swee.Prelude.Text.{str_eq}
use accumulative_matrix_swee.Prelude.Dict.{Dict, lookup, insert, string_eq}
use accumulative_matrix_swee.Errors.{
  Result, ok, err, raise, capability_mismatch, plan_invalid, key_error, ◌>>=◌,
}
use accumulative_matrix_swee.Checked.{Value, str, nat}
use accumulative_matrix_swee.Canonical.{JsonText}
use accumulative_matrix_swee.Codecs.Sink.{Sink}
use accumulative_matrix_swee.Codecs.Stream.{Reader, Hashes, checksum_parts}
use accumulative_matrix_swee.Descriptors.Syntax.{list_eq}
use accumulative_matrix_swee.Descriptors.Journal.{
  JournalEntryState, published, ConversionJournalEntry, conversion_journal_entry, ConversionJournal,
  conversion_journal,
}
use accumulative_matrix_swee.Storage.Copy.{Published, FileSystem, final_name, copy_range_atomic}
use accumulative_matrix_swee.Conversion.{ConversionItem, ConversionPlan}
use accumulative_matrix_swee.Conversion.Store.{write, load_or_create}

-- What stands in the destination folder, by name.
abbrev pub Chunks : Type 0
Chunks = List ℕ → Option Published

unfoldable pub put_chunk : List ℕ → Option Published → Chunks → Chunks
unfolding list_eq
put_chunk name p chunks = λ other. if list_eq other name then p else chunks other

-- What a conversion changes.
pub record Disk : Type 0 where
  pub journal_file : Option Published
  pub chunks : Chunks

abbrev pub is_published : JournalEntryState → Bool
is_published published = true
is_published _ = false

-- `{entry.target_chunk_id: entry for entry in journal.entries}`, on what it has so far.
unfoldable pub entries_from :
    Dict String ConversionJournalEntry
    → List ConversionJournalEntry
    → Dict String ConversionJournalEntry
unfolding insert
entries_from d [] = d
entries_from d (entry ∷ entries) = entries_from (insert entry.target_chunk_id entry d) entries

-- `tuple(entries[planned.target_chunk_id] for planned in plan.items)`
unfoldable pub in_plan_order :
    Dict String ConversionJournalEntry → List ConversionItem → Result (List ConversionJournalEntry)
unfolding lookup
in_plan_order entries [] = ok []
in_plan_order entries (item ∷ items) = elim (lookup item.target_chunk_id entries) [
  | none ↦ err key_error
  | some entry ↦ do es ← in_plan_order entries items; ok (entry ∷ es)
]

-- The two calls of `replace`, where the entry is not published yet.
unfoldable pub record_published :
    ConversionPlan
    → ConversionItem
    → ConversionJournalEntry
    → Dict String ConversionJournalEntry
    → ConversionJournal
    → Result (Dict String ConversionJournalEntry × ConversionJournal)
unfolding in_plan_order conversion_journal_entry conversion_journal insert
record_published plan item entry entries journal = do
  e ←
      conversion_journal_entry entry.source_range (str entry.target_chunk_id) published
        (some (str item.source_range.checksum)) (some (nat item.source_range.length))
  let entries' = insert item.target_chunk_id e entries
  es ← in_plan_order entries' plan.items
  j ←
      conversion_journal (str journal.journal_version) (str journal.source_root)
        (str journal.configuration_hash) es
  ok (entries', j)

module _ (json : JsonText) (max_bytes : ℕ) (k : Sink) (world : ℕ → FileSystem k) (h : Hashes)
    (readers : Dict String Reader) (plan : ConversionPlan) (buffer_bytes : Value) where
  -- The final path of a range; without a checksum that can be checked there is none.
  abbrev pub name_of : ℕ → Result (List ℕ × List ℕ) → List ℕ
  name_of n (err _) = []
  name_of n (ok (algorithm, expected)) = final_name k (world n) h algorithm expected

  abbrev pub chunk_name : ℕ → String → List ℕ
  chunk_name n checksum = name_of n (checksum_parts h checksum)

  -- The reader of the item, and `copy_range_atomic`.
  unfoldable pub publish_item : ℕ → ConversionItem → Chunks → Result (List ℕ) × Chunks
  unfolding copy_range_atomic put_chunk lookup
  publish_item n item chunks = elim (lookup item.source_range.object_id readers) [
    | none ↦ (raise capability_mismatch, chunks)
    | some reader ↦
        let name = chunk_name n item.source_range.checksum in
        let (r, after) =
          copy_range_atomic k (world n) h reader item.source_range (str item.target_chunk_id)
            buffer_bytes (chunks name) in
        (r, put_chunk name after chunks)
  ]

  -- What follows the copy: nothing if the entry is published, and else the new journal is written.
  unfoldable pub journal_item :
      ℕ
      → ConversionItem
      → ConversionJournalEntry
      → Dict String ConversionJournalEntry
      → ConversionJournal
      → Option Published
      → Result (Dict String ConversionJournalEntry × ConversionJournal) × Option Published
  unfolding record_published write
  journal_item n item entry entries journal file = elim (is_published entry.state) [
    | true ↦ (ok (entries, journal), file)
    | false ↦ elim (record_published plan item entry entries journal) [
      | err e ↦ (err e, file)
      | ok (entries', journal') ↦
          let (r, file') = write json max_bytes k (world n) journal' file in
          (r >>= λ _. ok (entries', journal'), file')
    ]
  ]

  -- One turn of the loop.
  unfoldable pub convert_item :
      ℕ
      → ConversionItem
      → Dict String ConversionJournalEntry
      → ConversionJournal
      → Disk
      → Result (Dict String ConversionJournalEntry × ConversionJournal) × Disk
  unfolding publish_item journal_item lookup
  convert_item n item entries journal disk = elim (lookup item.target_chunk_id entries) [
    | none ↦ (err key_error, disk)
    | some entry ↦ elim (publish_item (2 * n) item disk.chunks).0 [
      | err e ↦ (
        err e,
        record {
          journal_file = disk.journal_file;
          chunks = (publish_item (2 * n) item disk.chunks).1;
        },
      )
      | ok _ ↦
          let (r, file') = journal_item (2 * n + 1) item entry entries journal disk.journal_file in
          (r, record { journal_file = file'; chunks = (publish_item (2 * n) item disk.chunks).1 })
    ]
  ]

  unfoldable pub convert_items :
      ℕ
      → List ConversionItem
      → Dict String ConversionJournalEntry
      → ConversionJournal
      → Disk
      → Result ConversionJournal × Disk
  unfolding convert_item
  convert_items n [] entries journal disk = (ok journal, disk)
  convert_items n (item ∷ items) entries journal disk =
      elim (convert_item n item entries journal disk).0 [
        | err e ↦ (err e, (convert_item n item entries journal disk).1)
        | ok (entries', journal') ↦
            convert_items (suc n) items entries' journal'
              (convert_item n item entries journal disk).1
      ]

  -- `execute_multi_source_identity_conversion`
  unfoldable pub execute_multi_source : Disk → Result ConversionJournal × Disk
  unfolding load_or_create convert_items entries_from
  execute_multi_source disk =
      elim (load_or_create json max_bytes k (world 0) plan disk.journal_file).0 [
        | err e ↦ (
          err e,
          record {
            journal_file = (load_or_create json max_bytes k (world 0) plan disk.journal_file).1;
            chunks = disk.chunks;
          },
        )
        | ok journal ↦
            convert_items 1 plan.items (entries_from [] journal.entries) journal (record {
              journal_file = (load_or_create json max_bytes k (world 0) plan disk.journal_file).1;
              chunks = disk.chunks;
            })
      ]

-- `len(object_ids) != 1`, on a list that is not empty.
references_multiple : List ConversionItem → Bool
references_multiple [] = true
references_multiple (item ∷ items) =
    any (λ i. not (str_eq i.source_range.object_id item.source_range.object_id)) items

-- `execute_identity_conversion`
unfoldable pub execute_identity :
    JsonText
    → ℕ
    → (k : Sink) (world : ℕ → FileSystem k) → Hashes
    → Reader
    → ConversionPlan
    → Value
    → Disk
    → Result ConversionJournal × Disk
unfolding execute_multi_source references_multiple
execute_identity json max_bytes k world h reader plan buffer_bytes disk = elim plan.items [
  | [] ↦ (raise plan_invalid, disk)
  | item ∷ _ ↦
      if references_multiple plan.items
      then (raise plan_invalid, disk)
      else execute_multi_source json max_bytes k world h
          ((item.source_range.object_id, reader) ∷ []) plan buffer_bytes disk
]
