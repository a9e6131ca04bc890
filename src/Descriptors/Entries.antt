-- ===== src/Descriptors/Entries.antt =====
-- src/ams/descriptors.py: the fields of an entry of a journal that was built.
use accumulative_matrix_swee.Prelude.{
  ◌≡◌, sym, ap, ◌∙◌, not, ◌&&◌, Option, some, List, String, map, arith,
}
use accumulative_matrix_swee.Errors.{ok, raise_if, invalid_package, >>=-eq-ok, ok-injective}
use accumulative_matrix_swee.Checked.{Value, str, checked_positive}
use accumulative_matrix_swee.Descriptors.Syntax.{
  validate_identifier, validate_digest, validate_semver,
}
use accumulative_matrix_swee.Descriptors.Storage.{ByteRange}
use accumulative_matrix_swee.Descriptors.Tensor.{has_duplicates}
use accumulative_matrix_swee.Descriptors.Journal.{
  JournalEntryState, is_completed, is_some, iff, check_optional, ConversionJournalEntry,
  conversion_journal_entry, ConversionJournal, conversion_journal,
}

validate_digest-str : (s : String) {t : String} → validate_digest (str s) ≡ ok t → t ≡ s
unfolding validate_digest
validate_digest-str s e = ground arith

-- The state of an entry is the one that the constructor was given, and so is its target hash.
pub entry_fields :
    (range : ByteRange) (target : Value) (current : JournalEntryState) (hash bytes : Option Value)
    {e : ConversionJournalEntry}
    → conversion_journal_entry range target current hash bytes ≡ ok e
    → (e.state ≡ current) × ((s : String) → hash ≡ some (str s) → e.target_hash ≡ some s)
unfolding conversion_journal_entry check_optional
entry_fields range target current hash bytes {e} built =
    let (i, _, e1) = >>=-eq-ok (validate_identifier target) _ built in
    let (_, _, e2) =
      >>=-eq-ok
        (raise_if (not (iff (is_completed current) (is_some hash && is_some bytes)))
          invalid_package)
        _ e1 in
    let (h, eh, e3) = >>=-eq-ok (check_optional validate_digest hash) _ e2 in
    let (n, _, e4) = >>=-eq-ok (check_optional checked_positive bytes) _ e3 in
    let same = ok-injective e4 in
    (
      ap (λ (e : ConversionJournalEntry). e.state) (sym same),
      λ s given.
          ap (λ (e : ConversionJournalEntry). e.target_hash) (sym same)
          ∙ hashed s (ap (check_optional validate_digest) (sym given) ∙ eh),
    )
  where
    hashed :
        (s : String) {h : Option String}
        → check_optional validate_digest (some (str s)) ≡ ok h
        → h ≡ some s
    hashed s {h} e =
        let (t, et, e1) = >>=-eq-ok (validate_digest (str s)) _ e in
        sym (ok-injective e1) ∙ ap (λ t. some t) (validate_digest-str s et)

-- The entries of a journal are those that the constructor was given.
pub journal_entries :
    (version root hash : Value) (entries : List ConversionJournalEntry) {j : ConversionJournal}
    → conversion_journal version root hash entries ≡ ok j
    → j.entries ≡ entries
unfolding conversion_journal
journal_entries version root hash entries built =
    let (_, _, e1) = >>=-eq-ok (validate_semver version) _ built in
    let (_, _, e2) = >>=-eq-ok (validate_digest root) _ e1 in
    let (_, _, e3) = >>=-eq-ok (validate_digest hash) _ e2 in
    let (_, _, e4) =
      >>=-eq-ok (raise_if (has_duplicates (map (λ e. e.target_chunk_id) entries)) invalid_package) _
        e3 in
    ap (λ (j : ConversionJournal). j.entries) (sym (ok-injective e4))

pub entry_target :
    (range : ByteRange) (target : String) (current : JournalEntryState) (hash bytes : Option Value)
    {e : ConversionJournalEntry}
    → conversion_journal_entry range (str target) current hash bytes ≡ ok e
    → e.target_chunk_id ≡ target
unfolding conversion_journal_entry validate_identifier
entry_target range target current hash bytes {e} built =
    let (i, ei, e1) = >>=-eq-ok (validate_identifier (str target)) _ built in
    let (_, _, e2) =
      >>=-eq-ok
        (raise_if (not (iff (is_completed current) (is_some hash && is_some bytes)))
          invalid_package)
        _ e1 in
    let (h, _, e3) = >>=-eq-ok (check_optional validate_digest hash) _ e2 in
    let (n, _, e4) = >>=-eq-ok (check_optional checked_positive bytes) _ e3 in
    let same : i ≡ target = ground arith in
    ap (λ (e : ConversionJournalEntry). e.target_chunk_id) (sym (ok-injective e4)) ∙ same
