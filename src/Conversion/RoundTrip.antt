-- ===== src/Conversion/RoundTrip.antt =====
-- src/ams/conversion.py: a journal that is read back from the dict which it was written as.
use accumulative_matrix_swee.Prelude.{
  ℕ, suc, ◌≤◌, ◌≡◌, refl, ap, ◌∙◌, Option, none, some, List, [], ◌∷◌, String, length, All, arith,
}
use accumulative_matrix_swee.Errors.{Result, ok, ◌>>=◌}
use accumulative_matrix_swee.Checked.{Value, str, nat}
use accumulative_matrix_swee.Canonical.{
  Json, Items, text, array, object, empty, field, normalize, normalize_items, insert_field, cons,
  nil,
}
use accumulative_matrix_swee.Descriptors.Storage.{ByteRange, byte_range}
use accumulative_matrix_swee.Descriptors.Journal.{
  JournalEntryState, planned, written, verified, published, ConversionJournalEntry,
  conversion_journal_entry, ConversionJournal, conversion_journal,
}
use accumulative_matrix_swee.Conversion.Journals.{
  state_value, journal_entry_state, range_to_dict, entry_to_dict, entries_to_list, journal_to_dict,
  get, item, require_exact_fields, range_from_dict, entry_from_dict, entries_from_list, count,
  raw_entries, journal_from_dict,
}

abbrev pub optional {ℓ} : {A : Type ℓ} → (A → Value) → Option A → Option Value
optional f none = none
optional f (some a) = some (f a)

-- An object that its constructor accepts.
pub record IsEntry (e : ConversionJournalEntry) : Type 0 where
  pub range :
      byte_range
        (str e.source_range.object_id)
        (nat e.source_range.offset)
        (nat e.source_range.length)
        (str e.source_range.checksum)
      ≡ ok e.source_range
  pub entry :
      conversion_journal_entry e.source_range
        (str e.target_chunk_id)
        e.state
        (optional str e.target_hash)
        (optional nat e.encoded_bytes)
      ≡ ok e

pub record IsJournal (j : ConversionJournal) : Type 0 where
  pub entries : All IsEntry j.entries
  pub journal :
      conversion_journal
        (str j.journal_version)
        (str j.source_root)
        (str j.configuration_hash)
        j.entries
      ≡ ok j

abbrev RawRange : ByteRange → Type 0
RawRange r =
    (raw : Json) × (normalize (range_to_dict r) ≡ ok raw)
    × (range_from_dict raw
        ≡ byte_range (str r.object_id) (nat r.offset) (nat r.length) (str r.checksum))

raw_range : (r : ByteRange) → RawRange r
unfolding normalize insert_field range_to_dict range_from_dict require_exact_fields item get
raw_range r = (_, refl, refl)

state-journal_entry_state :
    (s : JournalEntryState) → journal_entry_state (text (state_value s)) ≡ ok s
unfolding journal_entry_state state_value
state-journal_entry_state planned = refl
state-journal_entry_state written = refl
state-journal_entry_state verified = refl
state-journal_entry_state published = refl

abbrev RawEntry : ConversionJournalEntry → Type 0
RawEntry e = (raw : Json) × (normalize (entry_to_dict e) ≡ ok raw) × (entry_from_dict raw ≡ ok e)

-- What the reader computes from the four parts of an entry.
abbrev rebuilt :
    Result ByteRange
    → Result JournalEntryState
    → Value
    → Option Value
    → Option Value
    → Result ConversionJournalEntry
rebuilt range state target hash bytes = do
  r ← range
  s ← state
  conversion_journal_entry r target s hash bytes

rebuilt-eq :
    (e : ConversionJournalEntry)
    → IsEntry e
    → rebuilt
        (byte_range
          (str e.source_range.object_id)
          (nat e.source_range.offset)
          (nat e.source_range.length)
          (str e.source_range.checksum))
        (journal_entry_state (text (state_value e.state)))
        (str e.target_chunk_id)
        (optional str e.target_hash)
        (optional nat e.encoded_bytes)
      ≡ ok e
rebuilt-eq e is =
    ap
      (λ r.
        rebuilt r (journal_entry_state (text (state_value e.state))) (str e.target_chunk_id)
          (optional str e.target_hash) (optional nat e.encoded_bytes))
      is.range
    ∙ ap
        (λ s.
          rebuilt (ok e.source_range) s (str e.target_chunk_id) (optional str e.target_hash)
            (optional nat e.encoded_bytes))
        (state-journal_entry_state e.state)
    ∙ is.entry

abbrev entry_of :
    ByteRange → String → JournalEntryState → Option String → Option ℕ → ConversionJournalEntry
entry_of range target current hash bytes = record {
  source_range = range;
  target_chunk_id = target;
  state = current;
  target_hash = hash;
  encoded_bytes = bytes;
}

raw_parts :
    (range : ByteRange) (target : String) (current : JournalEntryState) (hash : Option String)
    (bytes : Option ℕ)
    → IsEntry (entry_of range target current hash bytes)
    → RawEntry (entry_of range target current hash bytes)
unfolding normalize insert_field entry_to_dict range_to_dict entry_from_dict range_from_dict
    require_exact_fields item get
raw_parts range target current none none is = (_, refl, rebuilt-eq _ is)
raw_parts range target current (some h) none is = (_, refl, rebuilt-eq _ is)
raw_parts range target current none (some n) is = (_, refl, rebuilt-eq _ is)
raw_parts range target current (some h) (some n) is = (_, refl, rebuilt-eq _ is)

raw_entry : (e : ConversionJournalEntry) → IsEntry e → RawEntry e
raw_entry e is = raw_parts e.source_range e.target_chunk_id e.state e.target_hash e.encoded_bytes is

raw_list :
    (es : List ConversionJournalEntry)
    → All IsEntry es
    → (raws : Items) × (normalize_items (entries_to_list es) ≡ ok raws)
      × (entries_from_list raws ≡ ok es)
      × (count raws ≡ length es)
unfolding normalize_items entries_to_list entries_from_list count
raw_list [] is = (nil, refl, refl, refl)
raw_list (e ∷ es) is =
    let (raw, en, ef) = raw_entry e is.0 in
    let (raws, esn, esf, len) = raw_list es is.1 in
    (cons raw raws, rw en (rw esn refl), rw ef (rw esf refl), ap suc len)

raw_entries-array : (raws : Items) → count raws ≤ 1000000 → raw_entries (array raws) ≡ ok raws
unfolding raw_entries
raw_entries-array raws le = ground arith

-- What `_journal_to_dict` gives passes through `_normalize`, and `_journal_from_dict` reads the journal
-- back from it, if the journal and its entries are what their constructors accept and there are no more
-- than a million entries.
pub journal_from_dict-journal_to_dict :
    (j : ConversionJournal)
    → IsJournal j
    → length j.entries ≤ 1000000
    → (raw : Json) × (normalize (journal_to_dict j) ≡ ok raw) × (journal_from_dict raw ≡ ok j)
unfolding normalize insert_field journal_to_dict journal_from_dict require_exact_fields item get
journal_from_dict-journal_to_dict j is le =
    let (raws, en, ef, len) = raw_list j.entries is.entries in
    let fits = raw_entries-array raws (omega arith) in
    (
      object (
          field "configuration_hash" (text j.configuration_hash) (
            field "entries" (array raws) (
              field "journal_version" (text j.journal_version)
                (field "source_root" (text j.source_root) empty)))),
      rw en refl,
      rw fits (rw ef is.journal),
    )
