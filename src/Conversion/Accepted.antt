-- ===== src/Conversion/Accepted.antt =====
-- src/ams/conversion.py: the journal that `_journal_from_dict` builds from any value.
use mathlib.Core.Path.{subst}
use accumulative_matrix_swee.Prelude.{
  suc, ◌≤◌, ◌≡◌, refl, sym, ap, ◌∙◌, not, ◌&&◌, Option, none, some, List, map, String, All, length,
  arith,
}
use accumulative_matrix_swee.Errors.{Result, ok, raise_if, invalid_package, >>=-eq-ok, ok-injective}
use accumulative_matrix_swee.Checked.{
  Value, str, nat, int, bool, other, checked_uint, checked_positive, checked_range_end,
}
use accumulative_matrix_swee.Checked.Laws.{checked_uint-eq_ok, checked_positive-eq_ok}
use accumulative_matrix_swee.Canonical.{Json, normalize, Items, nil, cons, array, object}
use accumulative_matrix_swee.Descriptors.Syntax.{
  validate_identifier, validate_digest, validate_semver,
}
use accumulative_matrix_swee.Descriptors.Storage.{ByteRange, byte_range}
use accumulative_matrix_swee.Descriptors.Tensor.{has_duplicates}
use accumulative_matrix_swee.Descriptors.Journal.{
  JournalEntryState, is_completed, is_some, iff, check_optional, ConversionJournalEntry,
  conversion_journal_entry, ConversionJournal, conversion_journal,
}
use accumulative_matrix_swee.Descriptors.Entries.{journal_entries}
use accumulative_matrix_swee.Conversion.Journals.{
  require_exact_fields, journal_fields, range_fields, entry_required, entry_allowed,
  journal_to_dict, get, item, as_value, as_optional, raw_entries, count, journal_entry_state,
  range_from_dict, entry_from_dict, entries_from_list, journal_from_dict,
}
use accumulative_matrix_swee.Conversion.RoundTrip.{
  IsEntry, IsJournal, optional, journal_from_dict-journal_to_dict,
}

identifier-str : (v : Value) {s : String} → validate_identifier v ≡ ok s → v ≡ str s
unfolding validate_identifier
identifier-str (str s) e = ground arith
identifier-str (int n) e = absurd (cc)
identifier-str (bool b) e = absurd (cc)
identifier-str other e = absurd (cc)

digest-str : (v : Value) {s : String} → validate_digest v ≡ ok s → v ≡ str s
unfolding validate_digest
digest-str (str s) e = ground arith
digest-str (int n) e = absurd (cc)
digest-str (bool b) e = absurd (cc)
digest-str other e = absurd (cc)

semver-str : (v : Value) {s : String} → validate_semver v ≡ ok s → v ≡ str s
unfolding validate_semver
semver-str (str s) e = ground arith
semver-str (int n) e = absurd (cc)
semver-str (bool b) e = absurd (cc)
semver-str other e = absurd (cc)

optional-eq :
    {A : Type 0} (check : Value → Result A) (f : A → Value)
    → ((v : Value) (a : A) → check v ≡ ok a → v ≡ f a)
    → (o : Option Value) {r : Option A} → check_optional check o ≡ ok r
    → o ≡ optional f r
unfolding check_optional
optional-eq check f back none {r} e = ap (optional f) (ok-injective e)
optional-eq check f back (some v) {r} e =
    let (a, ea, e1) = >>=-eq-ok (check v) _ e in
    ap (λ v. some v) (back v a ea) ∙ ap (optional f) (ok-injective e1)

-- What a constructor has built, it builds again from the fields.
byte_range-again :
    (o f l c : Value) {r : ByteRange}
    → byte_range o f l c ≡ ok r
    → byte_range (str r.object_id) (nat r.offset) (nat r.length) (str r.checksum) ≡ ok r
unfolding byte_range
byte_range-again o f l c {r} built =
    let (i, ei, e1) = >>=-eq-ok (validate_identifier o) _ built in
    let (_, _, e2) = >>=-eq-ok (checked_range_end f l) _ e1 in
    let (d, ed, e3) = >>=-eq-ok (validate_digest c) _ e2 in
    let (m, em, e4) = >>=-eq-ok (checked_uint f) _ e3 in
    let (n, en, e5) = >>=-eq-ok (checked_positive l) _ e4 in
    let same = ok-injective e5 in
    ap
      (λ (r : ByteRange).
        byte_range (str r.object_id) (nat r.offset) (nat r.length) (str r.checksum))
      (sym same)
    ∙ ap (λ v. byte_range v (nat m) (nat n) (str d)) (sym (identifier-str o ei))
    ∙ ap (λ v. byte_range o v (nat n) (str d)) (sym (checked_uint-eq_ok f em).0)
    ∙ ap (λ v. byte_range o f v (str d)) (sym (checked_positive-eq_ok l en).0)
    ∙ ap (λ v. byte_range o f l v) (sym (digest-str c ed))
    ∙ built

pub conversion_journal_entry-again :
    (range : ByteRange) (target : Value) (current : JournalEntryState) (hash bytes : Option Value)
    {e : ConversionJournalEntry}
    → byte_range (str range.object_id) (nat range.offset) (nat range.length) (str range.checksum)
      ≡ ok range
    → conversion_journal_entry range target current hash bytes ≡ ok e
    → IsEntry e
unfolding conversion_journal_entry
conversion_journal_entry-again range target current hash bytes {e} accepted built =
    let (i, ei, e1) = >>=-eq-ok (validate_identifier target) _ built in
    let (_, _, e2) =
      >>=-eq-ok
        (raise_if (not (iff (is_completed current) (is_some hash && is_some bytes)))
          invalid_package)
        _ e1 in
    let (h, eh, e3) = >>=-eq-ok (check_optional validate_digest hash) _ e2 in
    let (n, en, e4) = >>=-eq-ok (check_optional checked_positive bytes) _ e3 in
    let same = ok-injective e4 in
    let again : conversion_journal_entry range (str i) current (optional str h) (optional nat n)
        ≡ ok e =
      ap (λ v. conversion_journal_entry range v current (optional str h) (optional nat n))
        (sym (identifier-str target ei))
      ∙ ap (λ o. conversion_journal_entry range target current o (optional nat n))
          (sym (optional-eq validate_digest str (λ v a ea. digest-str v ea) hash eh))
      ∙ ap (λ o. conversion_journal_entry range target current hash o)
          (sym
            (optional-eq checked_positive nat (λ v a ea. (checked_positive-eq_ok v ea).0) bytes en))
      ∙ built in
    subst IsEntry same (record { range = accepted; entry = again ∙ ap (λ e. ok e) (sym same) })

pub conversion_journal-again :
    (version root hash : Value) (es : List ConversionJournalEntry) {j : ConversionJournal}
    → All IsEntry es
    → conversion_journal version root hash es ≡ ok j
    → IsJournal j
unfolding conversion_journal
conversion_journal-again version root hash es {j} all_ built =
    let (v, ev, e1) = >>=-eq-ok (validate_semver version) _ built in
    let (r, er, e2) = >>=-eq-ok (validate_digest root) _ e1 in
    let (c, ec, e3) = >>=-eq-ok (validate_digest hash) _ e2 in
    let (_, _, e4) =
      >>=-eq-ok (raise_if (has_duplicates (map (λ e. e.target_chunk_id) es)) invalid_package) _
        e3 in
    let same = ok-injective e4 in
    let again : conversion_journal (str v) (str r) (str c) es ≡ ok j =
      ap (λ v. conversion_journal v (str r) (str c) es) (sym (semver-str version ev))
      ∙ ap (λ v. conversion_journal version v (str c) es) (sym (digest-str root er))
      ∙ ap (λ v. conversion_journal version root v es) (sym (digest-str hash ec))
      ∙ built in
    subst IsJournal same (record { entries = all_; journal = again ∙ ap (λ j. ok j) (sym same) })

abbrev IsRange : ByteRange → Type 0
IsRange r = byte_range (str r.object_id) (nat r.offset) (nat r.length) (str r.checksum) ≡ ok r

range_from_dict-IsRange : (raw : Json) {r : ByteRange} → range_from_dict raw ≡ ok r → IsRange r
unfolding range_from_dict
range_from_dict-IsRange (object fields) e =
    let (_, _, e1) = >>=-eq-ok (require_exact_fields fields range_fields range_fields) _ e in
    let (o, _, e2) = >>=-eq-ok (item "object_id" fields) _ e1 in
    let (f, _, e3) = >>=-eq-ok (item "offset" fields) _ e2 in
    let (l, _, e4) = >>=-eq-ok (item "length" fields) _ e3 in
    let (c, _, e5) = >>=-eq-ok (item "checksum" fields) _ e4 in
    byte_range-again (as_value o) (as_value f) (as_value l) (as_value c) e5
range_from_dict-IsRange _ e = absurd (cc)

entry_from_dict-IsEntry :
    (raw : Json) {entry : ConversionJournalEntry} → entry_from_dict raw ≡ ok entry → IsEntry entry
unfolding entry_from_dict
entry_from_dict-IsEntry (object fields) e =
    let (_, _, e1) = >>=-eq-ok (require_exact_fields fields entry_required entry_allowed) _ e in
    let (raw, _, e2) = >>=-eq-ok (item "source_range" fields) _ e1 in
    let (r, er, e3) = >>=-eq-ok (range_from_dict raw) _ e2 in
    let (t, _, e4) = >>=-eq-ok (item "target_chunk_id" fields) _ e3 in
    let (raw', _, e5) = >>=-eq-ok (item "state" fields) _ e4 in
    let (s, _, e6) = >>=-eq-ok (journal_entry_state raw') _ e5 in
    conversion_journal_entry-again r (as_value t) s (as_optional (get "target_hash" fields))
      (as_optional (get "encoded_bytes" fields)) (range_from_dict-IsRange raw er) e6
entry_from_dict-IsEntry _ e = absurd (cc)

entries_from_list-IsEntry :
    (raws : Items) {es : List ConversionJournalEntry}
    → entries_from_list raws ≡ ok es
    → All IsEntry es × (count raws ≡ length es)
unfolding entries_from_list count
entries_from_list-IsEntry nil e =
    subst (λ es. All IsEntry es × (0 ≡ length es)) (ok-injective e) (tt, refl)
entries_from_list-IsEntry (cons raw raws) e =
    let (entry, ee, e1) = >>=-eq-ok (entry_from_dict raw) _ e in
    let (es, et, e2) = >>=-eq-ok (entries_from_list raws) _ e1 in
    let (all_, len) = entries_from_list-IsEntry raws et in
    subst (λ es. All IsEntry es × (suc (count raws) ≡ length es)) (ok-injective e2)
      ((entry_from_dict-IsEntry raw ee, all_), ap suc len)

raw_entries-eq_ok :
    (raw : Json) {items : Items} → raw_entries raw ≡ ok items → count items ≤ 1000000
unfolding raw_entries
raw_entries-eq_ok (array items) e = ground arith
raw_entries-eq_ok _ e = absurd (cc)

-- Whatever value `json.loads` returned: if `_journal_from_dict` builds a journal from it, then the
-- constructors accept the journal and its entries as they are, and there are no more than a million
-- entries, so that `_journal_to_dict` and `_journal_from_dict` give this journal again.
pub journal_from_dict-IsJournal :
    (raw : Json) (j : ConversionJournal)
    → journal_from_dict raw ≡ ok j
    → IsJournal j
      × (length j.entries ≤ 1000000)
      × (again : Json) × (normalize (journal_to_dict j) ≡ ok again)
      × (journal_from_dict again ≡ ok j)
unfolding journal_from_dict
journal_from_dict-IsJournal (object fields) j e =
    let (_, _, e1) = >>=-eq-ok (require_exact_fields fields journal_fields journal_fields) _ e in
    let (raw, _, e2) = >>=-eq-ok (item "entries" fields) _ e1 in
    let (items, ei, e3) = >>=-eq-ok (raw_entries raw) _ e2 in
    let (es, ee, e4) = >>=-eq-ok (entries_from_list items) _ e3 in
    let (v, _, e5) = >>=-eq-ok (item "journal_version" fields) _ e4 in
    let (r, _, e6) = >>=-eq-ok (item "source_root" fields) _ e5 in
    let (c, _, e7) = >>=-eq-ok (item "configuration_hash" fields) _ e6 in
    let (all_, len) = entries_from_list-IsEntry items ee in
    let few = raw_entries-eq_ok raw ei in
    let same = journal_entries (as_value v) (as_value r) (as_value c) es e7 in
    let fits : length es ≤ 1000000 = omega arith in
    let is = conversion_journal-again (as_value v) (as_value r) (as_value c) es all_ e7 in
    let small = subst (λ es. length es ≤ 1000000) (sym same) fits in
    let (again, en, ef) = journal_from_dict-journal_to_dict j is small in (is, small, again, en, ef)
journal_from_dict-IsJournal _ j e = absurd (cc)
