-- ===== src/Conversion/Complete.antt =====
-- src/ams/conversion.py: what a call that returns has done, from a journal that matches the plan.
use mathlib.Core.Path.{subst}
use accumulative_matrix_swee.Prelude.{
  ℕ, ◌≡◌, refl, sym, ap, ◌∙◌, not, true, false, Option, none, some, List, [], ◌∷◌, String, All,
  arith, inl, inr, length, eq_iff,
}
use accumulative_matrix_swee.Prelude.Dict.{Dict, string_eq}
use accumulative_matrix_swee.Errors.{
  ok, err, raise_if, plan_invalid, invalid_package, >>=-eq-ok, ok-injective, Result-cases, Result,
  ◌>>=◌,
}
use accumulative_matrix_swee.Checked.{Value, str}
use accumulative_matrix_swee.Canonical.{Json, JsonText, object}
use accumulative_matrix_swee.Codecs.Sink.{Sink}
use accumulative_matrix_swee.Codecs.Stream.{Reader, Hashes}
use accumulative_matrix_swee.Descriptors.Syntax.{validate_digest, validate_semver}
use accumulative_matrix_swee.Descriptors.Tensor.{has_duplicates}
use accumulative_matrix_swee.Descriptors.Journal.{
  planned, ConversionJournalEntry, conversion_journal_entry, ConversionJournal, conversion_journal,
}
use accumulative_matrix_swee.Descriptors.Entries.{entry_target, journal_entries}
use accumulative_matrix_swee.Storage.Copy.{Published, FileSystem}
use accumulative_matrix_swee.Conversion.{
  ConversionItem, ConversionPlan, planned_entries, planned_journal,
}
use accumulative_matrix_swee.Conversion.Journals.{
  require_exact_fields, journal_fields, item, raw_entries, entries_from_list, as_value,
  journal_from_dict,
}
use accumulative_matrix_swee.Conversion.Store.{
  malformed, decode_journal, read_journal, load, load_matching, load_or_create, write, same_entries,
  same_conversion,
}
use accumulative_matrix_swee.Conversion.Execute.{
  Disk, is_published, entries_from, execute_multi_source,
}
use accumulative_matrix_swee.Conversion.Ordered.{
  ids, item_ids, in_plan_order-entries_from, in_plan_order-published,
}
use accumulative_matrix_swee.Conversion.Finished.{convert_items-finished}

abbrev IsDistinct : ConversionJournal → Type 0
IsDistinct j = has_duplicates (ids j.entries) ≡ false

conversion_journal-IsDistinct :
    (version root hash : Value) (es : List ConversionJournalEntry) {j : ConversionJournal}
    → conversion_journal version root hash es ≡ ok j
    → IsDistinct j
unfolding conversion_journal
conversion_journal-IsDistinct version root hash es {j} built =
    let (_, _, e1) = >>=-eq-ok (validate_semver version) _ built in
    let (_, _, e2) = >>=-eq-ok (validate_digest root) _ e1 in
    let (_, _, e3) = >>=-eq-ok (validate_digest hash) _ e2 in
    let (_, ed, _) = >>=-eq-ok (raise_if (has_duplicates (ids es)) invalid_package) _ e3 in
    let distinct : has_duplicates (ids es) ≡ false = ground arith in
    ap (λ es. has_duplicates (ids es)) (journal_entries version root hash es built) ∙ distinct

journal_from_dict-IsDistinct :
    (raw : Json) {j : ConversionJournal} → journal_from_dict raw ≡ ok j → IsDistinct j
unfolding journal_from_dict
journal_from_dict-IsDistinct (object fields) {j} e =
    let (_, _, e1) = >>=-eq-ok (require_exact_fields fields journal_fields journal_fields) _ e in
    let (raw, _, e2) = >>=-eq-ok (item "entries" fields) _ e1 in
    let (items, _, e3) = >>=-eq-ok (raw_entries raw) _ e2 in
    let (es, _, e4) = >>=-eq-ok (entries_from_list items) _ e3 in
    let (v, _, e5) = >>=-eq-ok (item "journal_version" fields) _ e4 in
    let (r, _, e6) = >>=-eq-ok (item "source_root" fields) _ e5 in
    let (c, _, e7) = >>=-eq-ok (item "configuration_hash" fields) _ e6 in
    conversion_journal-IsDistinct (as_value v) (as_value r) (as_value c) es e7
journal_from_dict-IsDistinct _ e = absurd (cc)

malformed-eq_ok :
    (r : Result ConversionJournal) {j : ConversionJournal} → malformed r ≡ ok j → r ≡ ok j
malformed-eq_ok (ok j) e = e
malformed-eq_ok (err x) e = absurd (ground arith)

same_entries-ids :
    (as_ bs : List ConversionJournalEntry) → same_entries as_ bs ≡ true → ids as_ ≡ ids bs
unfolding same_entries
same_entries-ids [] [] same = refl
same_entries-ids [] (b ∷ bs) same = absurd (cc)
same_entries-ids (a ∷ as_) [] same = absurd (cc)
same_entries-ids (a ∷ as_) (b ∷ bs) same =
    let head : a.target_chunk_id ≡ b.target_chunk_id =
      (eq_iff a.target_chunk_id b.target_chunk_id).0 (ground arith) in
    let rest = same_entries-ids as_ bs (ground arith) in cc

planned_entries-ids :
    (items : List ConversionItem) {es : List ConversionJournalEntry}
    → planned_entries items ≡ ok es
    → item_ids items ≡ ids es
unfolding planned_entries
planned_entries-ids [] e = ap ids (ok-injective e)
planned_entries-ids (item ∷ items) e =
    let (entry, ee, e1) =
      >>=-eq-ok
        (conversion_journal_entry item.source_range (str item.target_chunk_id) planned none none) _
        e in
    let (es, et, e2) = >>=-eq-ok (planned_entries items) _ e1 in
    let rest = planned_entries-ids items et in
    let head : entry.target_chunk_id ≡ item.target_chunk_id =
      entry_target item.source_range item.target_chunk_id planned none none ee in
    ap (λ i. i ∷ item_ids items) (sym head)
    ∙ ap (λ r. entry.target_chunk_id ∷ r) rest
    ∙ ap ids (ok-injective e2)

planned_journal-ids :
    (plan : ConversionPlan) {j : ConversionJournal}
    → planned_journal plan ≡ ok j
    → IsDistinct j × (item_ids plan.items ≡ ids j.entries)
unfolding planned_journal
planned_journal-ids plan {j} e =
    let (es, ee, e1) = >>=-eq-ok (planned_entries plan.items) _ e in
    (
      conversion_journal-IsDistinct _ _ _ es e1,
      planned_entries-ids plan.items ee ∙ ap ids (sym (journal_entries _ _ _ es e1)),
    )

module _ (json : JsonText) (max_bytes : ℕ) (k : Sink) (world : ℕ → FileSystem k) (h : Hashes)
    (readers : Dict String Reader) (plan : ConversionPlan) (buffer_bytes : Value) where
  abbrev IsMatched : ConversionJournal → Type 0
  IsMatched j = IsDistinct j × (item_ids plan.items ≡ ids j.entries)

  decode_journal-IsDistinct :
      (payload : List ℕ) {j : ConversionJournal}
      → decode_journal json max_bytes k payload ≡ ok j
      → IsDistinct j
  unfolding decode_journal
  decode_journal-IsDistinct payload {j} e =
      let (raw, _, ej) =
        >>=-eq-ok (json.loads payload) journal_from_dict
          (malformed-eq_ok (json.loads payload >>= journal_from_dict) e) in
      journal_from_dict-IsDistinct raw ej

  load_matching-IsMatched :
      (n : ℕ) (p : Published) {j : ConversionJournal}
      → load_matching json max_bytes k (world n) plan p ≡ ok j
      → IsMatched j
  unfolding load_matching load same_conversion
  load_matching-IsMatched n p {j} e =
      let (j', ej, e1) = >>=-eq-ok (load json max_bytes k (world n) (some p)) _ e in
      let (expected, ee, e2) = >>=-eq-ok (planned_journal plan) _ e1 in
      let (_, es, e3) =
        >>=-eq-ok (raise_if (not (same_conversion j' expected)) plan_invalid) _ e2 in
      let (payload, _, e4) = >>=-eq-ok (read_journal json max_bytes k (world n) p) _ ej in
      let (_, same) = planned_journal-ids plan ee in
      let entries : same_entries j'.entries expected.entries ≡ true = ground arith in
      subst IsMatched (ok-injective e3) (
        decode_journal-IsDistinct payload e4,
        same ∙ sym (same_entries-ids j'.entries expected.entries entries),
      )

  load_or_create-IsMatched :
      (file : Option Published) {j : ConversionJournal}
      → (load_or_create json max_bytes k (world 0) plan file).0 ≡ ok j
      → IsMatched j
  unfolding load_or_create
  load_or_create-IsMatched (some p) e = load_matching-IsMatched 0 p e
  load_or_create-IsMatched none {j} e = elim (Result-cases (planned_journal plan)) [
    | inr (x, ep) ↦ absurd (ground arith)
    | inl (j', ep) ↦
        let (_, _, e1) =
          >>=-eq-ok (write json max_bytes k (world 0) j' none).0 (λ _. ok j')
            (sym (rw (load_or_create, ep) refl) ∙ e) in
        subst IsMatched (ok-injective e1) (planned_journal-ids plan ep)
  ]

  -- Whatever journal there is and whatever the readers and the file systems do: a call that returns,
  -- returns a journal with as many entries as the plan has items, and every entry is published.
  pub execute_multi_source_complete :
      (disk : Disk) (j : ConversionJournal)
      → (execute_multi_source json max_bytes k world h readers plan buffer_bytes disk).0 ≡ ok j
      → (length j.entries ≡ length plan.items) × All (λ e. is_published e.state ≡ true) j.entries
  unfolding execute_multi_source
  execute_multi_source_complete disk j =
      elim (Result-cases (load_or_create json max_bytes k (world 0) plan disk.journal_file).0) [
        | inr (x, e) ↦ rw (execute_multi_source, e) (λ e'. absurd (cc))
        | inl (start, e) ↦
            let (distinct, same) = load_or_create-IsMatched disk.journal_file e in
            rw (execute_multi_source, e)
              (λ e'.
                let (d, _, done, ordered) =
                  convert_items-finished json max_bytes k world h readers plan buffer_bytes 1
                    plan.items (entries_from [] start.entries) start _
                    (in_plan_order-entries_from [] start.entries plan.items distinct same) j e' in
                in_plan_order-published d plan.items done ordered)
      ]
