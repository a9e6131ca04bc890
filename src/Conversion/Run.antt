-- ===== src/Conversion/Run.antt =====
-- src/ams/conversion.py: a whole run over the items of a plan, whatever it finds and wherever it stops.
use mathlib.Core.Path.{subst}
use accumulative_matrix_swee.Prelude.{
  ℕ, suc, ◌≡◌, refl, sym, inl, inr, Option, some, List, [], ◌∷◌, String, All,
}
use accumulative_matrix_swee.Prelude.Dict.{Dict, lookup, string_eq}
use accumulative_matrix_swee.Errors.{Result, ok, ok-injective, Result-cases}
use accumulative_matrix_swee.Checked.{Value}
use accumulative_matrix_swee.Canonical.{JsonText}
use accumulative_matrix_swee.Codecs.Sink.{Sink, IsSink}
use accumulative_matrix_swee.Codecs.Stream.{Reader, IsReader, Hashes}
use accumulative_matrix_swee.Descriptors.Journal.{ConversionJournalEntry, ConversionJournal}
use accumulative_matrix_swee.Storage.Copy.{Published, FileSystem}
use accumulative_matrix_swee.Storage.Atomic.{IsFileSystem}
use accumulative_matrix_swee.Conversion.{ConversionItem, ConversionPlan}
use accumulative_matrix_swee.Conversion.Execute.{Disk, Chunks, convert_item, convert_items}
use accumulative_matrix_swee.Conversion.Stored.{Grows}
use accumulative_matrix_swee.Conversion.Turn.{
  Backed, Here, Now, Journaled, Inv, Here-Grows, convert_item-IsTurn,
}

module _ (json : JsonText) (max_bytes : ℕ) (k : Sink) (world : ℕ → FileSystem k) (h : Hashes)
    (readers : Dict String Reader) (plan : ConversionPlan) (buffer_bytes : Value)
    (files : String → List ℕ) (is_sink : IsSink k) (is_fs : (n : ℕ) → IsFileSystem k (world n))
    (is_reader : (o : String) (r : Reader) → lookup o readers ≡ some r → IsReader r (files o)) where
  abbrev Backed_ : Chunks → ConversionJournalEntry → Type 0
  Backed_ = Backed json max_bytes k world h readers plan buffer_bytes files is_sink is_fs is_reader

  abbrev Here_ : Chunks → String → Type 0
  Here_ = Here json max_bytes k world h readers plan buffer_bytes files is_sink is_fs is_reader

  abbrev Now_ : Option Published → Option Published → ConversionJournal → Type 0
  Now_ = Now json max_bytes k world h readers plan buffer_bytes files is_sink is_fs is_reader

  abbrev Journaled_ : Option Published → Disk → Type 0
  Journaled_ =
      Journaled json max_bytes k world h readers plan buffer_bytes files is_sink is_fs is_reader

  abbrev Inv_ :
      Option Published → Dict String ConversionJournalEntry → ConversionJournal → Disk → Type 0
  Inv_ = Inv json max_bytes k world h readers plan buffer_bytes files is_sink is_fs is_reader

  -- What a run over the items leaves.
  abbrev pub IsRun :
      Option Published → List ConversionItem → Disk → Result ConversionJournal × Disk → Type 0
  IsRun before items disk l =
      Grows disk.chunks l.1.chunks
      × Journaled_ before l.1
      × ((j : ConversionJournal)
          → l.0 ≡ ok j
          → All (λ i. Here_ l.1.chunks i.source_range.checksum) items
            × All (Backed_ l.1.chunks) j.entries
            × Now_ before l.1.journal_file j)

  convert_items_step :
      (n : ℕ) (item : ConversionItem) (items : List ConversionItem)
      (d : Dict String ConversionJournalEntry) (j : ConversionJournal) (disk : Disk)
      {d' : Dict String ConversionJournalEntry} {j' : ConversionJournal}
      → (convert_item json max_bytes k world h readers plan buffer_bytes n item d j disk).0
        ≡ ok (d', j')
      → convert_items json max_bytes k world h readers plan buffer_bytes n (item ∷ items) d j disk
        ≡ convert_items json max_bytes k world h readers plan buffer_bytes
            (suc n)
            items
            d'
            j'
            (convert_item json max_bytes k world h readers plan buffer_bytes n item d j disk).1
  unfolding convert_items
  convert_items_step n item items d j disk e = rw (convert_items, e) refl

  pub convert_items-IsRun :
      (n : ℕ) (before : Option Published) (items : List ConversionItem)
      (d : Dict String ConversionJournalEntry) (j : ConversionJournal) (disk : Disk)
      → Inv_ before d j disk
      → IsRun before items disk
          (convert_items json max_bytes k world h readers plan buffer_bytes n items d j disk)
  unfolding convert_items
  convert_items-IsRun n before [] d j disk (every, all_, now) = (
    λ name p stands. stands,
    (j, all_, now),
    λ j' e.
        let (all', now') =
          subst
            (λ (j : ConversionJournal).
              All (Backed_ disk.chunks) j.entries × Now_ before disk.journal_file j)
            (ok-injective e) (all_, now) in
        (tt, all', now'),
  )
  convert_items-IsRun n before (item ∷ items) d j disk inv =
      let (grows, journaled, next) =
        convert_item-IsTurn json max_bytes k world h readers plan buffer_bytes files is_sink is_fs
          is_reader n before item d j disk inv in
      let turn = convert_item json max_bytes k world h readers plan buffer_bytes n item d j disk in
      elim (Result-cases turn.0) [
        | inr (x, e) ↦ rw (convert_items, e) (grows, journaled, λ j' e'. absurd (cc))
        | inl ((d', j'), e) ↦
            let (inv', here) = next (d', j') e in
            let (grows', journaled', rest) =
              convert_items-IsRun (suc n) before items d' j' turn.1 inv' in
            subst (IsRun before (item ∷ items) disk)
              (sym (convert_items_step n item items d j disk e))
              (
                λ name p stands. grows' name p (grows name p stands),
                journaled',
                λ j'' e'.
                    let (stored, backed, now') = rest j'' e' in
                    (
                      (
                        Here-Grows json max_bytes k world h readers plan buffer_bytes files is_sink
                            is_fs is_reader _ _ item.source_range.checksum grows' here,
                        stored,
                      ),
                      backed,
                      now',
                    ),
              )
      ]
