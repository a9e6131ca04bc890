-- ===== src/Conversion/Ordered.antt =====
-- src/ams/conversion.py: the entries of a journal by identifier, and in the order of the plan.
use mathlib.Core.Path.{subst}
use accumulative_matrix_swee.Prelude.{
  ◌≡◌, refl, sym, ap, ◌∙◌, ◌⊎◌, inl, inr, true, false, List, [], ◌∷◌, map, String, All, some, any,
  length, suc, arith, eq_refl, Bool-cases, Option-cases, if◌then◌else◌,
}
use accumulative_matrix_swee.Prelude.Text.{str_eq}
use accumulative_matrix_swee.Prelude.Dict.{Dict, lookup, insert, lookup-insert, string_eq}
use accumulative_matrix_swee.Errors.{ok, ◌>>=◌, >>=-eq-ok, ok-injective}
use accumulative_matrix_swee.Checked.{str, nat}
use accumulative_matrix_swee.Descriptors.Tensor.{has_duplicates}
use accumulative_matrix_swee.Descriptors.Journal.{
  published, ConversionJournalEntry, conversion_journal_entry, ConversionJournal,
  conversion_journal,
}
use accumulative_matrix_swee.Descriptors.Entries.{entry_fields, journal_entries}
use accumulative_matrix_swee.Conversion.{ConversionItem, ConversionPlan}
use accumulative_matrix_swee.Conversion.Execute.{
  is_published, in_plan_order, entries_from, record_published,
}
use accumulative_matrix_swee.Conversion.Backed.{in_plan_order-cons, some-injective}

abbrev pub ids : List ConversionJournalEntry → List String
ids es = map (λ e. e.target_chunk_id) es

abbrev pub item_ids : List ConversionItem → List String
item_ids items = map (λ i. i.target_chunk_id) items

entries_from-fresh :
    (key : String) (d : Dict String ConversionJournalEntry) (es : List ConversionJournalEntry)
    → any (str_eq key) (ids es) ≡ false
    → lookup key (entries_from d es) ≡ lookup key d
unfolding entries_from
entries_from-fresh key d [] fresh = refl
entries_from-fresh key d (e ∷ es) fresh =
    let differs : str_eq key e.target_chunk_id ≡ false = ground arith in
    entries_from-fresh key (insert e.target_chunk_id e d) es (ground arith)
    ∙ lookup-insert e.target_chunk_id key e d
    ∙ ap (λ b. if b then some e else lookup key d) differs

-- A journal without duplicates, and with the identifiers of the items, is in the order of the items.
pub in_plan_order-entries_from :
    (d : Dict String ConversionJournalEntry) (es : List ConversionJournalEntry)
    (items : List ConversionItem)
    → has_duplicates (ids es) ≡ false
    → item_ids items ≡ ids es
    → in_plan_order (entries_from d es) items ≡ ok es
unfolding in_plan_order entries_from has_duplicates
in_plan_order-entries_from d [] [] distinct same = refl
in_plan_order-entries_from d [] (item ∷ items) distinct same = absurd (cc)
in_plan_order-entries_from d (e ∷ es) [] distinct same = absurd (cc)
in_plan_order-entries_from d (e ∷ es) (item ∷ items) distinct same =
    let fresh : any (str_eq e.target_chunk_id) (ids es) ≡ false = ground arith in
    let head : item.target_chunk_id ≡ e.target_chunk_id = cc in
    let found : lookup item.target_chunk_id (entries_from (insert e.target_chunk_id e d) es)
        ≡ some e =
      ap (λ key. lookup key (entries_from (insert e.target_chunk_id e d) es)) head
      ∙ entries_from-fresh e.target_chunk_id (insert e.target_chunk_id e d) es fresh
      ∙ lookup-insert e.target_chunk_id e.target_chunk_id e d
      ∙ ap (λ b. if b then some e else lookup e.target_chunk_id d) (eq_refl e.target_chunk_id) in
    let rest =
      in_plan_order-entries_from (insert e.target_chunk_id e d) es items (ground arith) (cc) in
    sym (in_plan_order-cons (entries_from (insert e.target_chunk_id e d) es) item items found refl)
    ∙ ap (λ r. r >>= λ es. ok (e ∷ es)) rest

-- Whatever entry the dict has under this key is published.
abbrev pub IsDone : Dict String ConversionJournalEntry → ConversionItem → Type 0
IsDone d item =
    (e : ConversionJournalEntry)
    → lookup item.target_chunk_id d ≡ some e
    → is_published e.state ≡ true

pub in_plan_order-published :
    (d : Dict String ConversionJournalEntry) (items : List ConversionItem)
    {es : List ConversionJournalEntry}
    → All (IsDone d) items
    → in_plan_order d items ≡ ok es
    → (length es ≡ length items) × All (λ e. is_published e.state ≡ true) es
unfolding in_plan_order
in_plan_order-published d [] done e =
    subst (λ es. (length es ≡ 0) × All (λ e. is_published e.state ≡ true) es) (ok-injective e)
      (refl, tt)
in_plan_order-published d (item ∷ items) done e =
    elim (Option-cases (lookup item.target_chunk_id d)) [
      | inl missing ↦ absurd (ground arith)
      | inr (entry, found) ↦
          let (es, et, e1) =
            >>=-eq-ok (in_plan_order d items) (λ es. ok (entry ∷ es))
              (in_plan_order-cons d item items found e) in
          let (len, all_) = in_plan_order-published d items done.1 et in
          subst
            (λ (es : List ConversionJournalEntry).
              (length es ≡ suc (length items)) × All (λ e. is_published e.state ≡ true) es)
            (ok-injective e1) (ap suc len, (done.0 entry found, all_))
    ]

-- An entry of the later dict is published, or was there.
abbrev pub Keeps : Dict String ConversionJournalEntry → Dict String ConversionJournalEntry → Type 0
Keeps d d' =
    (key : String) (e : ConversionJournalEntry)
    → lookup key d' ≡ some e
    → (is_published e.state ≡ true) ⊎ (lookup key d ≡ some e)

-- The entry that is recorded is published, and the journal is in the order of the plan again.
pub record_published-Keeps :
    (plan : ConversionPlan) (item : ConversionItem) (entry : ConversionJournalEntry)
    (d : Dict String ConversionJournalEntry) (j : ConversionJournal)
    {result : Dict String ConversionJournalEntry × ConversionJournal}
    → record_published plan item entry d j ≡ ok result
    → Keeps d result.0
      × IsDone result.0 item
      × (in_plan_order result.0 plan.items ≡ ok result.1.entries)
unfolding record_published
record_published-Keeps plan item entry d j {result} e =
    let (e', eb, e1) =
      >>=-eq-ok
        (conversion_journal_entry entry.source_range (str entry.target_chunk_id) published
          (some (str item.source_range.checksum)) (some (nat item.source_range.length)))
        _ e in
    let d' = insert item.target_chunk_id e' d in
    let (es, eo, e2) = >>=-eq-ok (in_plan_order d' plan.items) _ e1 in
    let (j', ej, e3) =
      >>=-eq-ok
        (conversion_journal (str j.journal_version) (str j.source_root) (str j.configuration_hash)
          es)
        _ e2 in
    let (state, _) =
      entry_fields entry.source_range (str entry.target_chunk_id) published
        (some (str item.source_range.checksum)) (some (nat item.source_range.length)) eb in
    let same =
      journal_entries (str j.journal_version) (str j.source_root) (str j.configuration_hash) es
        ej in
    subst
      (λ (q : Dict String ConversionJournalEntry × ConversionJournal).
        Keeps d q.0 × IsDone q.0 item × (in_plan_order q.0 plan.items ≡ ok q.1.entries))
      (ok-injective e3)
      (
        keeps e' (ap is_published state),
        done e' (ap is_published state),
        eo ∙ ap (λ es. ok es) (sym same),
      )
  where
    put :
        (e' x : ConversionJournalEntry) (key : String)
        → lookup key (insert item.target_chunk_id e' d) ≡ some x
        → (if str_eq key item.target_chunk_id then some e' else lookup key d) ≡ some x
    put e' x key found = sym (lookup-insert item.target_chunk_id key e' d) ∙ found

    keeps :
        (e' : ConversionJournalEntry)
        → is_published e'.state ≡ true
        → Keeps d (insert item.target_chunk_id e' d)
    keeps e' p key x found = elim (Bool-cases (str_eq key item.target_chunk_id)) [
      | inl same ↦ inl (
          subst (λ (x : ConversionJournalEntry). is_published x.state ≡ true)
            (some-injective
              (ap (λ b. if b then some e' else lookup key d) (sym same) ∙ put e' x key found))
            p)
      | inr differs ↦
          inr (ap (λ b. if b then some e' else lookup key d) (sym differs) ∙ put e' x key found)
    ]

    done :
        (e' : ConversionJournalEntry)
        → is_published e'.state ≡ true
        → IsDone (insert item.target_chunk_id e' d) item
    done e' p x found =
        subst (λ (x : ConversionJournalEntry). is_published x.state ≡ true)
          (some-injective (
            ap (λ b. if b then some e' else lookup item.target_chunk_id d)
              (sym (eq_refl item.target_chunk_id))
            ∙ put e' x item.target_chunk_id found))
          p
