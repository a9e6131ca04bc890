-- ===== src/Conversion/Finished.antt =====
-- src/ams/conversion.py: every entry of the journal that a run returns is published.
use mathlib.Core.Path.{subst}
use accumulative_matrix_swee.Prelude.{
  ℕ, suc, ◌+◌, ◌*◌, ◌≡◌, sym, ◌∙◌, inl, inr, true, Option, some, List, [], ◌∷◌, String, All,
  Bool-cases, Option-cases,
}
use accumulative_matrix_swee.Prelude.Dict.{Dict, lookup, string_eq}
use accumulative_matrix_swee.Errors.{ok, >>=-eq-ok, ok-injective, Result-cases}
use accumulative_matrix_swee.Checked.{Value}
use accumulative_matrix_swee.Canonical.{JsonText}
use accumulative_matrix_swee.Codecs.Sink.{Sink}
use accumulative_matrix_swee.Codecs.Stream.{Reader, Hashes}
use accumulative_matrix_swee.Descriptors.Journal.{ConversionJournalEntry, ConversionJournal}
use accumulative_matrix_swee.Storage.Copy.{Published, FileSystem}
use accumulative_matrix_swee.Conversion.{ConversionItem, ConversionPlan}
use accumulative_matrix_swee.Conversion.Store.{write}
use accumulative_matrix_swee.Conversion.Execute.{
  Disk, is_published, in_plan_order, record_published, publish_item, journal_item, convert_item,
  convert_items,
}
use accumulative_matrix_swee.Conversion.Backed.{some-injective}
use accumulative_matrix_swee.Conversion.Ordered.{IsDone, Keeps, record_published-Keeps}

module _ (json : JsonText) (max_bytes : ℕ) (k : Sink) (world : ℕ → FileSystem k) (h : Hashes)
    (readers : Dict String Reader) (plan : ConversionPlan) (buffer_bytes : Value) where
  abbrev State : Type 0
  State = Dict String ConversionJournalEntry × ConversionJournal

  -- The journal has the entries of the dict, in the order of the plan.
  abbrev IsOrdered : State → Type 0
  IsOrdered q = in_plan_order q.0 plan.items ≡ ok q.1.entries

  abbrev IsNext : ConversionItem → Dict String ConversionJournalEntry → State → Type 0
  IsNext item d q = Keeps d q.0 × IsDone q.0 item × IsOrdered q

  journal_item-IsNext :
      (n : ℕ) (item : ConversionItem) (entry : ConversionJournalEntry)
      (d : Dict String ConversionJournalEntry) (j : ConversionJournal) (file : Option Published)
      → lookup item.target_chunk_id d ≡ some entry
      → IsOrdered (d, j)
      → (q : State)
      → (journal_item json max_bytes k world h readers plan buffer_bytes n item entry d j file).0
        ≡ ok q
      → IsNext item d q
  unfolding journal_item
  journal_item-IsNext n item entry d j file found ordered =
      elim (Bool-cases (is_published entry.state)) [
        | inl p ↦
            rw (journal_item, p)
              (λ q e.
                subst (IsNext item d) (ok-injective e)
                  (λ key x at. inr at, λ x at. same x at p, ordered))
        | inr p ↦ elim (Result-cases (record_published plan item entry d j)) [
          | inr (x, er) ↦ rw (journal_item, p) (rw er (λ q e. absurd (cc)))
          | inl ((d', j'), er) ↦
              rw (journal_item, p)
                (rw er (λ q e.
                  let (_, _, e1) =
                    >>=-eq-ok (write json max_bytes k (world n) j' file).0 (λ _. ok (d', j')) e in
                  subst (IsNext item d) (ok-injective e1)
                    (record_published-Keeps plan item entry d j er)))
        ]
      ]
    where
      same :
          (x : ConversionJournalEntry)
          → lookup item.target_chunk_id d ≡ some x
          → is_published entry.state ≡ true
          → is_published x.state ≡ true
      same x at p =
          subst (λ (x : ConversionJournalEntry). is_published x.state ≡ true)
            (some-injective (sym found ∙ at)) p

  convert_item-IsNext :
      (n : ℕ) (item : ConversionItem) (d : Dict String ConversionJournalEntry)
      (j : ConversionJournal) (disk : Disk)
      → IsOrdered (d, j)
      → (q : State)
      → (convert_item json max_bytes k world h readers plan buffer_bytes n item d j disk).0 ≡ ok q
      → IsNext item d q
  unfolding convert_item
  convert_item-IsNext n item d j disk ordered =
      elim (Option-cases (lookup item.target_chunk_id d)) [
        | inl missing ↦ rw (convert_item, missing) (λ q e. absurd (cc))
        | inr (entry, found) ↦
            elim (Result-cases
              (publish_item json max_bytes k world h readers plan buffer_bytes (2 * n) item
                disk.chunks).0) [
                  | inr (x, ep) ↦ rw (convert_item, found) (rw ep (λ q e. absurd (cc)))
                  | inl (name, ep) ↦
                      rw (convert_item, found)
                        (rw ep (
                          journal_item-IsNext (2 * n + 1) item entry d j disk.journal_file found
                            ordered))
                ]
      ]

  IsDone-Keeps :
      (d d' : Dict String ConversionJournalEntry) (item : ConversionItem)
      → Keeps d d'
      → IsDone d item
      → IsDone d' item
  IsDone-Keeps d d' item keeps done e found = elim (keeps item.target_chunk_id e found) [
    | inl p ↦ p
    | inr there ↦ done e there
  ]

  pub convert_items-finished :
      (n : ℕ) (items : List ConversionItem) (d : Dict String ConversionJournalEntry)
      (j : ConversionJournal) (disk : Disk)
      → IsOrdered (d, j)
      → (result : ConversionJournal)
      → (convert_items json max_bytes k world h readers plan buffer_bytes n items d j disk).0
        ≡ ok result
      → (d' : Dict String ConversionJournalEntry) × Keeps d d'
        × All (IsDone d') items
        × IsOrdered (d', result)
  unfolding convert_items
  convert_items-finished n [] d j disk ordered = λ result e. (
    d,
    λ key x at. inr at,
    tt,
    subst (λ (j : ConversionJournal). IsOrdered (d, j)) (ok-injective e) ordered,
  )
  convert_items-finished n (item ∷ items) d j disk ordered =
      let turn = convert_item json max_bytes k world h readers plan buffer_bytes n item d j disk in
      elim (Result-cases turn.0) [
        | inr (x, e) ↦ rw (convert_items, e) (λ result e'. absurd (cc))
        | inl ((d1, j1), e) ↦
            let (keeps, done, ordered') = convert_item-IsNext n item d j disk ordered (d1, j1) e in
            rw (convert_items, e)
              (λ result e'.
                let (d2, keeps', all_, ordered'') =
                  convert_items-finished (suc n) items d1 j1 turn.1 ordered' result e' in
                (
                  d2,
                  λ key x at. elim (keeps' key x at) [ inl p ↦ inl p | inr at' ↦ keeps key x at' ],
                  (IsDone-Keeps d1 d2 item keeps' done, all_),
                  ordered'',
                ))
      ]
