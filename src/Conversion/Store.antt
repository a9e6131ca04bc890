-- ===== src/Conversion/Store.antt =====
-- src/ams/conversion.py: `ConversionJournalStore`. What stands at the path of the journal is a `Published` or
-- nothing, and a call of the file system may find another `FileSystem` each time.
use accumulative_matrix_swee.Prelude.{
  ℕ, not, ◌&&◌, ◌||◌, Bool, true, false, Option, none, some, List, [], ◌∷◌, ltb, ◌==◌, length,
}
use accumulative_matrix_swee.Prelude.Text.{str_eq}
use accumulative_matrix_swee.Errors.{
  Result, ok, err, raise, raise_if, translate_os_error, invalid_package, io_failure,
  transaction_failure, plan_invalid, ◌>>=◌, ◌>>◌, value_error, key_error,
}
use accumulative_matrix_swee.Canonical.{JsonText, canonical_json_bytes}
use accumulative_matrix_swee.Codecs.Sink.{Sink, write_loop}
use accumulative_matrix_swee.Descriptors.Storage.{ByteRange}
use accumulative_matrix_swee.Descriptors.Journal.{ConversionJournalEntry, ConversionJournal}
use accumulative_matrix_swee.Storage.Copy.{Published, FileSystem}
use accumulative_matrix_swee.Storage.Files.{
  Step, before, bind, call, on_staging, open_file, sync_file, replace_file,
}
use accumulative_matrix_swee.Conversion.{ConversionPlan, planned_journal}
use accumulative_matrix_swee.Conversion.Journals.{journal_to_dict, journal_from_dict}

-- `except AmsError: raise`, and the exceptions that are `INVALID_PACKAGE` then.
abbrev pub malformed : Result ConversionJournal → Result ConversionJournal
malformed (err value_error) = raise invalid_package
malformed (err key_error) = raise invalid_package
malformed r = r

unfoldable pub range_eq : ByteRange → ByteRange → Bool
range_eq a b =
    str_eq a.object_id b.object_id
    && a.offset == b.offset
    && a.length == b.length
    && str_eq a.checksum b.checksum

-- Whether two journals have the same pairs of `target_chunk_id` and `source_range`, in order.
unfoldable pub same_entries : List ConversionJournalEntry → List ConversionJournalEntry → Bool
unfolding range_eq
same_entries [] [] = true
same_entries (a ∷ as_) (b ∷ bs) =
    str_eq a.target_chunk_id b.target_chunk_id
    && range_eq a.source_range b.source_range
    && same_entries as_ bs
same_entries _ _ = false

unfoldable pub same_conversion : ConversionJournal → ConversionJournal → Bool
unfolding same_entries
same_conversion a b =
    str_eq a.journal_version b.journal_version
    && str_eq a.source_root b.source_root
    && str_eq a.configuration_hash b.configuration_hash
    && same_entries a.entries b.entries

module _ (json : JsonText) (max_bytes : ℕ) (k : Sink) where
  -- What follows the reading of the file: `json.loads` and `_journal_from_dict`.
  unfoldable pub decode_journal : List ℕ → Result ConversionJournal
  unfolding journal_from_dict
  decode_journal payload = malformed (json.loads payload >>= journal_from_dict)

  unfoldable pub read_journal : FileSystem k → Published → Result (List ℕ)
  read_journal fs p = translate_os_error io_failure (do
    raise_if (not p.regular) invalid_package
    raise_if (length p.bytes == 0 || ltb max_bytes (length p.bytes)) invalid_package
    fs.read_file p)

  -- `load`; a path where nothing stands is no file.
  unfoldable pub load : FileSystem k → Option Published → Result ConversionJournal
  unfolding read_journal decode_journal
  load fs none = raise invalid_package
  load fs (some p) = do payload ← read_journal fs p; decode_journal payload

  -- The block of `write` that follows the test of the size.
  unfoldable pub stage_journal : FileSystem k → List ℕ → Step k (Unit {0})
  unfolding write_loop
  stage_journal fs payload = bind k (call k fs.make_directories) (λ _. bind k (open_file k fs) (λ _.
      bind k (on_staging k (write_loop k (length payload) 0 payload))
        (λ _. bind k (sync_file k fs) (λ _. replace_file k fs))))

  -- The bytes that `write` writes.
  unfoldable pub journal_bytes : ConversionJournal → Result (List ℕ)
  unfolding canonical_json_bytes journal_to_dict
  journal_bytes journal = do
    payload ← canonical_json_bytes json (journal_to_dict journal)
    raise_if (ltb max_bytes (length payload)) transaction_failure
    ok payload

  -- `write`
  unfoldable pub write :
      FileSystem k → ConversionJournal → Option Published → Result (Unit {0}) × Option Published
  unfolding journal_bytes stage_journal
  write fs journal file = elim (journal_bytes journal) [
    | err e ↦ (err e, file)
    | ok payload ↦
        let (r, files) = stage_journal fs payload (before k file) in
        (translate_os_error transaction_failure r, files.final_path)
  ]

  -- The branch of `load_or_create` where the journal exists.
  unfoldable pub load_matching :
      FileSystem k → ConversionPlan → Published → Result ConversionJournal
  unfolding load planned_journal same_conversion
  load_matching fs plan p = do
    journal ← load fs (some p)
    expected ← planned_journal plan
    raise_if (not (same_conversion journal expected)) plan_invalid
    ok journal

  unfoldable pub load_or_create :
      FileSystem k → ConversionPlan → Option Published → Result ConversionJournal × Option Published
  unfolding load_matching write planned_journal
  load_or_create fs plan (some p) = (load_matching fs plan p, some p)
  load_or_create fs plan none = elim (planned_journal plan) [
    | err e ↦ (err e, none)
    | ok journal ↦ ((write fs journal none).0 >>= λ _. ok journal, (write fs journal none).1)
  ]
