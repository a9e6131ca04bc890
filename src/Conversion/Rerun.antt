-- ===== src/Conversion/Rerun.antt =====
-- src/ams/conversion.py: a run that finds the journal of a conversion which is finished.
use mathlib.Core.Path.{subst}
use accumulative_matrix_swee.Prelude.{
  ℕ, suc, ◌*◌, ◌≡◌, refl, sym, ap, ◌∙◌, true, Option, some, List, [], ◌∷◌, String, All,
  Option-cases, inl, inr,
}
use accumulative_matrix_swee.Prelude.Dict.{Dict, lookup, string_eq}
use accumulative_matrix_swee.Errors.{Result, ok, ok-injective, Result-cases}
use accumulative_matrix_swee.Checked.{Value}
use accumulative_matrix_swee.Canonical.{JsonText}
use accumulative_matrix_swee.Codecs.Sink.{Sink}
use accumulative_matrix_swee.Codecs.Stream.{Reader, Hashes}
use accumulative_matrix_swee.Descriptors.Journal.{ConversionJournalEntry, ConversionJournal}
use accumulative_matrix_swee.Storage.Copy.{Published, FileSystem}
use accumulative_matrix_swee.Conversion.{ConversionItem, ConversionPlan}
use accumulative_matrix_swee.Conversion.Store.{load_matching, load_or_create}
use accumulative_matrix_swee.Conversion.Execute.{
  Disk, Chunks, is_published, entries_from, publish_item, journal_item, convert_item, convert_items,
  execute_multi_source,
}
use accumulative_matrix_swee.Conversion.Backed.{Every, entries_from-Every}

abbrev IsDone : ConversionJournalEntry → Type 0
IsDone e = is_published e.state ≡ true

module _ (json : JsonText) (max_bytes : ℕ) (k : Sink) (world : ℕ → FileSystem k) (h : Hashes)
    (readers : Dict String Reader) (plan : ConversionPlan) (buffer_bytes : Value) where
  abbrev IsKept :
      Dict String ConversionJournalEntry
      → ConversionJournal
      → Option Published
      → Result (Dict String ConversionJournalEntry × ConversionJournal) × Disk
      → Type 0
  IsKept d j file l =
      (l.1.journal_file ≡ file)
      × ((q : Dict String ConversionJournalEntry × ConversionJournal) → l.0 ≡ ok q → q ≡ (d, j))

  convert_item-IsKept :
      (n : ℕ) (item : ConversionItem) (d : Dict String ConversionJournalEntry)
      (j : ConversionJournal) (disk : Disk)
      → Every IsDone d
      → IsKept d j disk.journal_file
          (convert_item json max_bytes k world h readers plan buffer_bytes n item d j disk)
  unfolding convert_item journal_item
  convert_item-IsKept n item d j disk done = elim (Option-cases (lookup item.target_chunk_id d)) [
    | inl missing ↦ rw (convert_item, missing) (refl, λ q e. absurd (cc))
    | inr (entry, found) ↦
        let p = done item.target_chunk_id entry found in
        elim (Result-cases
          (publish_item json max_bytes k world h readers plan buffer_bytes (2 * n) item
            disk.chunks).0) [
              | inr (x, ep) ↦ rw (convert_item, found) (rw ep (refl, λ q e. absurd (cc)))
              | inl (name, ep) ↦
                  rw (convert_item, found)
                    (rw ep (rw (journal_item, p) (refl, λ q e. sym (ok-injective e))))
            ]
  ]

  -- The file of the journal is as it was, and what is returned, if anything, is the journal.
  abbrev pub IsUnchanged :
      ConversionJournal → Option Published → Result ConversionJournal × Disk → Type 0
  IsUnchanged j file l =
      (l.1.journal_file ≡ file) × ((j' : ConversionJournal) → l.0 ≡ ok j' → j' ≡ j)

  convert_items-IsUnchanged :
      (n : ℕ) (items : List ConversionItem) (d : Dict String ConversionJournalEntry)
      (j : ConversionJournal) (disk : Disk)
      → Every IsDone d
      → IsUnchanged j disk.journal_file
          (convert_items json max_bytes k world h readers plan buffer_bytes n items d j disk)
  unfolding convert_items
  convert_items-IsUnchanged n [] d j disk done = (refl, λ j' e. sym (ok-injective e))
  convert_items-IsUnchanged n (item ∷ items) d j disk done =
      let turn = convert_item json max_bytes k world h readers plan buffer_bytes n item d j disk in
      let (same, kept) = convert_item-IsKept n item d j disk done in
      elim (Result-cases turn.0) [
        | inr (x, e) ↦ rw (convert_items, e) (same, λ j' e'. absurd (cc))
        | inl ((d', j'), e) ↦
            let q : (d', j') ≡ (d, j) = kept (d', j') e in
            let (same', rest) =
              convert_items-IsUnchanged (suc n) items d' j' turn.1
                (subst (Every IsDone) (sym (ap (λ q. q.0) q)) done) in
            rw (convert_items, e) (same' ∙ same, λ j'' e'. rest j'' e' ∙ ap (λ q. q.1) q)
      ]

  -- If the journal that stands is loaded, matches the plan and has published entries only, then a call
  -- leaves the file of the journal as it is, and if it returns, it returns this journal.
  pub execute_finished_lem :
      (p : Published) (chunks : Chunks) (j : ConversionJournal)
      → load_matching json max_bytes k (world 0) plan p ≡ ok j
      → All IsDone j.entries
      → IsUnchanged j (some p) (
          execute_multi_source json max_bytes k world h readers plan buffer_bytes
            (record { journal_file = some p; chunks = chunks }))
  unfolding execute_multi_source load_or_create lookup
  execute_finished_lem p chunks j loaded done =
      rw (execute_multi_source, loaded)
        (convert_items-IsUnchanged 1 plan.items (entries_from [] j.entries) j
          (record { journal_file = some p; chunks = chunks })
          (entries_from-Every IsDone [] j.entries (λ key e found. absurd (nothing key found)) done))
    where
      nothing : (key : String) {e : ConversionJournalEntry} → lookup key [] ≡ some e → ⊥
      nothing key found = cc
