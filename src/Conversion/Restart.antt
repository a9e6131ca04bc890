-- ===== src/Conversion/Restart.antt =====
-- src/ams/conversion.py: `execute_multi_source_identity_conversion` from any journal that it may find.
use mathlib.Core.Path.{subst}
use accumulative_matrix_swee.Prelude.{
  ℕ, ◌≡◌, refl, sym, ap, ◌∙◌, ◌⊎◌, inl, inr, not, true, Option, none, some, List, [], ◌∷◌, String,
  All, arith, ◌||◌, ◌==◌, length, ltb,
}
use accumulative_matrix_swee.Prelude.Dict.{Dict, lookup, string_eq}
use accumulative_matrix_swee.Errors.{
  Exception, Result, ok, err, raise_if, plan_invalid, ◌>>=◌, >>=-eq-ok, ok-injective, Result-cases,
  translate_os_error, io_failure, invalid_package,
}
use accumulative_matrix_swee.Checked.{Value, str}
use accumulative_matrix_swee.Canonical.{JsonText}
use accumulative_matrix_swee.Codecs.Sink.{Sink, IsSink}
use accumulative_matrix_swee.Codecs.Stream.{Reader, IsReader, Hashes}
use accumulative_matrix_swee.Descriptors.Journal.{
  planned, ConversionJournalEntry, conversion_journal_entry, ConversionJournal,
}
use accumulative_matrix_swee.Descriptors.Entries.{entry_fields, journal_entries}
use accumulative_matrix_swee.Storage.Copy.{Published, FileSystem}
use accumulative_matrix_swee.Storage.Atomic.{IsFileSystem}
use accumulative_matrix_swee.Conversion.{
  ConversionItem, ConversionPlan, planned_entries, planned_journal,
}
use accumulative_matrix_swee.Conversion.Store.{
  decode_journal, read_journal, load, journal_bytes, load_matching, load_or_create, write,
  same_conversion,
}
use accumulative_matrix_swee.Conversion.Written.{file_of, IsWritten, write-IsWritten}
use accumulative_matrix_swee.Conversion.Execute.{
  Disk, Chunks, is_published, entries_from, execute_multi_source,
}
use accumulative_matrix_swee.Conversion.Stored.{Grows}
use accumulative_matrix_swee.Conversion.Backed.{entries_from-Every}
use accumulative_matrix_swee.Conversion.Turn.{Backed, Here, Now}
use accumulative_matrix_swee.Conversion.Run.{IsRun, convert_items-IsRun}

caught : {A : Type 0} (r : Result A) {a : A} → translate_os_error io_failure r ≡ ok a → r ≡ ok a
caught (ok a) e = e
caught (err x) e = absurd (ground arith)

module _ (json : JsonText) (max_bytes : ℕ) (k : Sink) (world : ℕ → FileSystem k) (h : Hashes)
    (readers : Dict String Reader) (plan : ConversionPlan) (buffer_bytes : Value)
    (files : String → List ℕ) (is_sink : IsSink k) (is_fs : (n : ℕ) → IsFileSystem k (world n))
    (is_reader : (o : String) (r : Reader) → lookup o readers ≡ some r → IsReader r (files o)) where
  abbrev IsBacked : Chunks → List ConversionJournalEntry → Type 0
  IsBacked chunks = All (
      Backed json max_bytes k world h readers plan buffer_bytes files is_sink is_fs is_reader
        chunks)

  abbrev Stands : Option Published → Option Published → ConversionJournal → Type 0
  Stands = Now json max_bytes k world h readers plan buffer_bytes files is_sink is_fs is_reader

  -- The published entries of the journal that the disk has, if it can be read, are backed.
  abbrev IsSound : Disk → Type 0
  IsSound disk =
      (p : Published) (j : ConversionJournal)
      → disk.journal_file ≡ some p
      → decode_journal json max_bytes k p.bytes ≡ ok j
      → IsBacked disk.chunks j.entries

  read_journal-eq_ok :
      (n : ℕ) (p : Published) {payload : List ℕ}
      → read_journal json max_bytes k (world n) p ≡ ok payload
      → payload ≡ p.bytes
  unfolding read_journal
  read_journal-eq_ok n p {payload} e =
      let (_, _, e1) = >>=-eq-ok (raise_if (not p.regular) invalid_package) _ (caught _ e) in
      let (_, _, e2) =
        >>=-eq-ok (raise_if (length p.bytes == 0 || ltb max_bytes (length p.bytes)) invalid_package)
          _ e1 in
      (is_fs n).reads p payload e2

  pub load_matching-eq_ok :
      (n : ℕ) (p : Published) {j : ConversionJournal}
      → load_matching json max_bytes k (world n) plan p ≡ ok j
      → decode_journal json max_bytes k p.bytes ≡ ok j
  unfolding load_matching load read_journal
  load_matching-eq_ok n p {j} e =
      let (j', ej, e1) = >>=-eq-ok (load json max_bytes k (world n) (some p)) _ e in
      let (expected, _, e2) = >>=-eq-ok (planned_journal plan) _ e1 in
      let (_, _, e3) = >>=-eq-ok (raise_if (not (same_conversion j' expected)) plan_invalid) _ e2 in
      let (payload, ep, e4) = >>=-eq-ok (read_journal json max_bytes k (world n) p) _ ej in
      ap (decode_journal json max_bytes k) (sym (read_journal-eq_ok n p ep)) ∙ e4 ∙ e3

  not_planned : is_published planned ≡ true → ⊥
  not_planned e = cc

  planned_entries-IsBacked :
      (chunks : Chunks) (items : List ConversionItem) {es : List ConversionJournalEntry}
      → planned_entries items ≡ ok es
      → IsBacked chunks es
  unfolding planned_entries
  planned_entries-IsBacked chunks [] e = subst (IsBacked chunks) (ok-injective e) tt
  planned_entries-IsBacked chunks (item ∷ items) e =
      let (entry, ee, e1) =
        >>=-eq-ok
          (conversion_journal_entry item.source_range (str item.target_chunk_id) planned none none)
          _ e in
      let (es, et, e2) = >>=-eq-ok (planned_entries items) _ e1 in
      let (state, _) =
        entry_fields item.source_range (str item.target_chunk_id) planned none none ee in
      subst (IsBacked chunks) (ok-injective e2) (
        λ p. absurd (not_planned (ap is_published (sym state) ∙ p)),
        planned_entries-IsBacked chunks items et,
      )

  planned_journal-IsBacked :
      (chunks : Chunks) {j : ConversionJournal}
      → planned_journal plan ≡ ok j
      → IsBacked chunks j.entries
  unfolding planned_journal
  planned_journal-IsBacked chunks {j} e =
      let (es, ee, e1) = >>=-eq-ok (planned_entries plan.items) _ e in
      subst (IsBacked chunks)
        (sym (
          journal_entries (str "1.0.0") (str plan.source_root) (str plan.configuration_hash) es e1))
        (planned_entries-IsBacked chunks plan.items ee)

  created :
      {chunks : Chunks} (j : ConversionJournal) (l : Result (Unit {0}) × Option Published)
      → IsWritten json max_bytes k (world 0) is_sink (is_fs 0) j none l
      → IsBacked chunks j.entries
      → ((x : Exception) → (l.0 >>= λ _. ok j) ≡ err x → l.1 ≡ none)
        × ((j' : ConversionJournal)
            → (l.0 >>= λ _. ok j) ≡ ok j'
            → IsBacked chunks j'.entries × Stands none l.1 j')
  created j (err x, file) (kept, wrote) backed = (λ y e. kept x refl, λ j' e. absurd (cc))
  created {chunks} j (ok _, file) (kept, wrote) backed = (
    λ y e. absurd (cc),
    λ j' e.
        subst (λ (j : ConversionJournal). IsBacked chunks j.entries × Stands none file j)
          (ok-injective e) (backed, inr (wrote refl)),
  )

  load_or_create-start :
      (chunks : Chunks) (file : Option Published)
      → IsSound (record { journal_file = file; chunks = chunks })
      → ((x : Exception)
          → (load_or_create json max_bytes k (world 0) plan file).0 ≡ err x
          → (load_or_create json max_bytes k (world 0) plan file).1 ≡ file)
        × ((j : ConversionJournal)
            → (load_or_create json max_bytes k (world 0) plan file).0 ≡ ok j
            → IsBacked chunks j.entries
              × Stands file (load_or_create json max_bytes k (world 0) plan file).1 j)
  unfolding load_or_create
  load_or_create-start chunks (some p) sound =
      (λ x e. refl, λ j e. (sound p j refl (load_matching-eq_ok 0 p e), inl refl))
  load_or_create-start chunks none sound = elim (Result-cases (planned_journal plan)) [
    | inr (x, ep) ↦ rw (load_or_create, ep) (λ y e. refl, λ j e. absurd (cc))
    | inl (j, ep) ↦
        rw (load_or_create, ep)
          (created j (write json max_bytes k (world 0) j none)
            (write-IsWritten json max_bytes k (world 0) is_sink (is_fs 0) j none)
            (planned_journal-IsBacked chunks ep))
  ]

  -- What a call left: no chunk is taken away or changed; the file of the journal is as it was, or has the
  -- text of a journal whose published entries are backed; and if it returned, every item is stored.
  abbrev pub IsConversion : Disk → Result ConversionJournal × Disk → Type 0
  IsConversion disk l =
      Grows disk.chunks l.1.chunks
      × ((l.1.journal_file ≡ disk.journal_file)
          ⊎ ((j : ConversionJournal) × (payload : List ℕ) × IsBacked l.1.chunks j.entries
              × (journal_bytes json max_bytes k j ≡ ok payload)
              × (l.1.journal_file ≡ some (file_of payload))))
      × ((j : ConversionJournal)
          → l.0 ≡ ok j
          → All
              (λ i.
                Here json max_bytes k world h readers plan buffer_bytes files is_sink is_fs
                  is_reader l.1.chunks i.source_range.checksum)
              plan.items
            × IsBacked l.1.chunks j.entries
            × Stands disk.journal_file l.1.journal_file j)

  concluded :
      (disk : Disk) (file : Option Published) (l : Result ConversionJournal × Disk)
      → IsRun json max_bytes k world h readers plan buffer_bytes files is_sink is_fs is_reader
          disk.journal_file plan.items
          (record { journal_file = file; chunks = disk.chunks })
          l
      → IsConversion disk l
  concluded disk file l (grows, (j, backed, now), returned) = (
    grows,
    elim now [
      | inl same ↦ inl same
      | inr (payload, text, stands) ↦ inr (j, payload, backed, text, stands)
    ],
    returned,
  )

  nothing : (key : String) {e : ConversionJournalEntry} → lookup key [] ≡ some e → ⊥
  unfolding lookup
  nothing key found = cc

  -- From a disk whose journal, if it can be read, is sound, with readers that give the parts of their
  -- files and a sink and file systems as documented: wherever a call stops, no chunk is taken away or
  -- changed, and the file of the journal is as it was or has the text of a journal each of whose published
  -- entries names a chunk that stands and has its hash. If the call returns, a chunk with its checksum
  -- stands for every item of the plan, and the journal that it returns is sound and is the one in the
  -- file, unless the file is as it was.
  pub execute_multi_source_lem :
      (disk : Disk)
      → IsSound disk
      → IsConversion disk
          (execute_multi_source json max_bytes k world h readers plan buffer_bytes disk)
  unfolding execute_multi_source
  execute_multi_source_lem disk sound =
      let (failed, started) = load_or_create-start disk.chunks disk.journal_file sound in
      elim (Result-cases (load_or_create json max_bytes k (world 0) plan disk.journal_file).0) [
        | inr (x, e) ↦
            rw (execute_multi_source, e)
              (λ name p stands. stands, inl (failed x e), λ j e'. absurd (cc))
        | inl (j, e) ↦
            let (backed, now) = started j e in
            rw (execute_multi_source, e)
              (concluded disk (load_or_create json max_bytes k (world 0) plan disk.journal_file).1 _
                (convert_items-IsRun json max_bytes k world h readers plan buffer_bytes files
                  is_sink is_fs is_reader 1 disk.journal_file plan.items (entries_from [] j.entries)
                  j
                  (record {
                    journal_file =
                        (load_or_create json max_bytes k (world 0) plan disk.journal_file).1;
                    chunks = disk.chunks;
                  })
                  (
                    entries_from-Every _ [] j.entries (λ key x found. absurd (nothing key found))
                        backed,
                    backed,
                    now,
                  )))
      ]
