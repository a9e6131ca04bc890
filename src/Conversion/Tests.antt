-- ===== src/Conversion/Tests.antt =====
-- A plan of one item, four bytes of a file, and a disk where nothing stands yet.
use mathlib.Core.Path.{subst}
use accumulative_matrix_swee.Prelude.{
  ◌≤◌, ◌+◌, ◌%◌, ◌≡◌, refl, sym, ap, ◌∙◌, true, Option, none, some, [], ◌∷◌, ◌++◌, All, String,
  arith, Bool-cases, inl, inr, length, replicate, if◌then◌else◌,
}
use accumulative_matrix_swee.Prelude.Text.{str_eq}
use accumulative_matrix_swee.Prelude.Dict.{lookup, insert, string_eq, Dict}
use accumulative_matrix_swee.Errors.{Exception, ok, err, ok-injective, value_error}
use accumulative_matrix_swee.Checked.{
  nat, checked_uint, checked_positive, checked_add, checked_range_end,
}
use accumulative_matrix_swee.Canonical.{
  Json, JsonText, normalize, insert_field, canonical_json_bytes,
}
use accumulative_matrix_swee.Codecs.Sink.{write_loop}
use accumulative_matrix_swee.Codecs.Stream.{Reader, IsReader, Hashes, checksum_parts}
use accumulative_matrix_swee.Descriptors.Syntax.{
  validate_identifier, validate_digest, validate_semver, split_colon, list_eq,
}
use accumulative_matrix_swee.Descriptors.Storage.{ByteRange, byte_range, range_end, validate_within}
use accumulative_matrix_swee.Descriptors.Tensor.{has_duplicates}
use accumulative_matrix_swee.Descriptors.Journal.{
  published, check_optional, iff, is_completed, conversion_journal_entry, ConversionJournal,
  conversion_journal,
}
use accumulative_matrix_swee.Storage.{checked_buffer}
use accumulative_matrix_swee.Storage.Copy.{
  Published, read_chunk, copy_loop, stage, prepare_copy, copy_range_atomic,
}
use accumulative_matrix_swee.Storage.CopyTests.{
  narrow, narrow-IsSink, reader, bytes, reader-IsReader, disk, disk-IsFileSystem,
}
use accumulative_matrix_swee.Conversion.{ConversionPlan, planned_entries, planned_journal}
use accumulative_matrix_swee.Conversion.Journals.{
  journal_to_dict, journal_from_dict, entries_to_list, entry_to_dict, range_to_dict, state_value,
}
use accumulative_matrix_swee.Conversion.Store.{
  malformed, decode_journal, read_journal, load_matching, same_conversion, same_entries, range_eq,
  journal_bytes, stage_journal, load, write, load_or_create,
}
use accumulative_matrix_swee.Conversion.Execute.{
  Disk, is_published, put_chunk, entries_from, in_plan_order, record_published, publish_item,
  journal_item, convert_item, convert_items, execute_multi_source,
}
use accumulative_matrix_swee.Conversion.Backed.{some-injective}
use accumulative_matrix_swee.Conversion.Accepted.{journal_from_dict-IsJournal}
use accumulative_matrix_swee.Conversion.Rerun.{IsUnchanged, execute_finished_lem}
use accumulative_matrix_swee.Conversion.RoundTrip.{IsJournal, journal_from_dict-journal_to_dict}
use accumulative_matrix_swee.Conversion.Written.{ReadsBack, load-write}
use accumulative_matrix_swee.Conversion.Restart.{IsConversion, execute_multi_source_lem}
use accumulative_matrix_swee.Conversion.Complete.{execute_multi_source_complete}

abbrev digest : String
digest = "sha256:0000000000000000000000000000000000000000000000000000000000000004"

abbrev source : ByteRange
source = record { object_id = "weights"; offset = 1; length = 4; checksum = digest }

abbrev plan : ConversionPlan
plan = record {
  source_root = digest;
  configuration_hash = digest;
  items = record { target_chunk_id = "shard"; source_range = source } ∷ [];
}

abbrev finished : ConversionJournal
finished = record {
  journal_version = "1.0.0";
  source_root = digest;
  configuration_hash = digest;
  entries =
      record {
        source_range = source;
        target_chunk_id = "shard";
        state = published;
        target_hash = some digest;
        encoded_bytes = some 4;
      }
      ∷ [];
}

-- The digest of a text ends in the last digit of its length.
abbrev hashes : Hashes
hashes = record {
  available = λ a. true;
  hexdigest = λ a content. replicate 63 48 ++ (48 + length content % 10) ∷ [];
}

finished-IsJournal : IsJournal finished
unfolding byte_range conversion_journal_entry conversion_journal check_optional iff is_completed
    has_duplicates validate_identifier validate_digest validate_semver checked_range_end
    checked_positive checked_add checked_uint
finished-IsJournal = record {
  entries = (record { range = refl; entry = refl }, tt);
  journal = refl;
}

journal_from_dict-journal_to_dict_example :
    (raw : Json) × (normalize (journal_to_dict finished) ≡ ok raw)
    × (journal_from_dict raw ≡ ok finished)
journal_from_dict-journal_to_dict_example =
    journal_from_dict-journal_to_dict finished finished-IsJournal (omega arith)

abbrev raw_finished : Json
raw_finished = (journal_from_dict-journal_to_dict finished finished-IsJournal (omega arith)).0

-- A text of one byte, which is read as the finished journal.
abbrev json : JsonText
json = record {
  dumps = λ raw. 1 ∷ [];
  loads = λ payload. elim payload [ [] ↦ err value_error | b ∷ bs ↦ ok raw_finished ];
}

json-ReadsBack : ReadsBack json 100 narrow disk narrow-IsSink disk-IsFileSystem finished
json-ReadsBack = record {
  back = λ raw e.
      ap (λ r. ok r)
        (ok-injective (
          sym (journal_from_dict-journal_to_dict finished finished-IsJournal (omega arith)).1 ∙ e));
  no_empty = refl;
}

load-write_example :
    ((x : Exception)
      → (write json 100 narrow disk finished none).0 ≡ err x
      → (write json 100 narrow disk finished none).1 ≡ none)
    × ((write json 100 narrow disk finished none).0 ≡ ok tt
        → load json 100 narrow disk (write json 100 narrow disk finished none).1 ≡ ok finished)
load-write_example =
    load-write json 100 narrow disk narrow-IsSink disk-IsFileSystem disk finished none
      finished-IsJournal (omega arith) json-ReadsBack (λ p. refl)

abbrev readers : Dict String Reader
readers = ("weights", reader) ∷ []

readers-IsReader : (o : String) (r : Reader) → lookup o readers ≡ some r → IsReader r bytes
unfolding lookup
readers-IsReader o r found = elim (Bool-cases (str_eq o "weights")) [
  | inl same ↦
      subst (λ r. IsReader r bytes)
        (some-injective (ap (λ b. if b then some reader else none) (sym same) ∙ found))
        reader-IsReader
  | inr differs ↦ absurd (absent (ap (λ b. if b then some reader else none) (sym differs) ∙ found))
]
  where
    absent : ◌≡◌ {A = Option Reader} none (some r) → ⊥
    absent e = cc

abbrev nothing_yet : Disk
nothing_yet = record { journal_file = none; chunks = λ name. none }

execute_multi_source_lem_example :
    IsConversion json 100 narrow
      (λ n. disk)
      hashes
      readers
      plan
      (nat 3)
      (λ o. bytes)
      narrow-IsSink
      (λ n. disk-IsFileSystem)
      readers-IsReader
      nothing_yet
      (execute_multi_source json 100 narrow (λ n. disk) hashes readers plan (nat 3) nothing_yet)
execute_multi_source_lem_example =
    execute_multi_source_lem json 100 narrow (λ n. disk) hashes readers plan (nat 3) (λ o. bytes)
      narrow-IsSink (λ n. disk-IsFileSystem) readers-IsReader nothing_yet (λ p j e d. absurd (cc))

ran :
    (execute_multi_source json 100 narrow (λ n. disk) hashes readers plan (nat 3) nothing_yet).0
    ≡ ok finished
unfolding execute_multi_source load_or_create planned_journal planned_entries write journal_bytes
    stage_journal write_loop canonical_json_bytes normalize insert_field journal_to_dict
    entries_to_list entry_to_dict range_to_dict state_value entries_from insert lookup convert_items
    convert_item publish_item put_chunk journal_item record_published in_plan_order
    copy_range_atomic prepare_copy stage copy_loop read_chunk checked_buffer checksum_parts
    split_colon list_eq validate_within range_end conversion_journal_entry conversion_journal
    check_optional iff is_completed has_duplicates validate_identifier validate_digest
    validate_semver checked_range_end checked_positive checked_add checked_uint
ran = refl

execute_multi_source_complete_example :
    (length finished.entries ≡ length plan.items)
    × All (λ e. is_published e.state ≡ true) finished.entries
execute_multi_source_complete_example =
    execute_multi_source_complete json 100 narrow (λ n. disk) hashes readers plan (nat 3)
      nothing_yet finished ran

-- The file that the run has left.
abbrev left_behind : Published
left_behind = record { regular = true; bytes = 1 ∷ [] }

loads_finished : load json 100 narrow disk (some left_behind) ≡ ok finished
unfolding load read_journal decode_journal
loads_finished =
    let back = (journal_from_dict-journal_to_dict finished finished-IsJournal (omega arith)).2 in
    ap malformed back

matches_finished : load_matching json 100 narrow disk plan left_behind ≡ ok finished
unfolding load_matching same_conversion same_entries range_eq planned_journal planned_entries
    conversion_journal_entry conversion_journal check_optional iff is_completed has_duplicates
    validate_identifier validate_digest validate_semver
matches_finished = rw (load_matching, loads_finished) refl

execute_finished_lem_example :
    IsUnchanged json 100 narrow
      (λ n. disk)
      hashes
      readers
      plan
      (nat 3)
      finished
      (some left_behind)
      (execute_multi_source json 100 narrow
        (λ n. disk)
        hashes
        readers
        plan
        (nat 3)
        (record { journal_file = some left_behind; chunks = λ name. none }))
execute_finished_lem_example =
    execute_finished_lem json 100 narrow (λ n. disk) hashes readers plan (nat 3) left_behind
      (λ name. none) finished matches_finished (refl, tt)

journal_from_dict-IsJournal_example :
    IsJournal finished
    × (length finished.entries ≤ 1000000)
    × (again : Json) × (normalize (journal_to_dict finished) ≡ ok again)
    × (journal_from_dict again ≡ ok finished)
journal_from_dict-IsJournal_example =
    journal_from_dict-IsJournal raw_finished finished
      (journal_from_dict-journal_to_dict finished finished-IsJournal (omega arith)).2
