-- ===== src/Conversion/Journals.antt =====
-- src/ams/conversion.py: `_journal_to_dict` and `_journal_from_dict`. The value comes from `json.loads` or
-- goes to `canonical_json_bytes`; what is no integer, Boolean or text is `other` for a constructor.
use accumulative_matrix_swee.Prelude.{
  ℕ, suc, Bool, true, false, not, ◌&&◌, ◌||◌, Option, none, some, List, [], ◌∷◌, String, ltb, any,
  if◌then◌else◌,
}
use accumulative_matrix_swee.Prelude.Int.{pos}
use accumulative_matrix_swee.Prelude.Text.{str_eq}
use accumulative_matrix_swee.Errors.{
  Result, ok, err, raise, raise_if, invalid_package, value_error, key_error, ◌>>=◌, ◌>>◌,
}
use accumulative_matrix_swee.Checked.{Value, int, bool, str, other}
use accumulative_matrix_swee.Canonical.{
  Json, Items, Fields, null, boolean, integer, text, array, object, nil, cons, empty, field,
}
use accumulative_matrix_swee.Descriptors.Storage.{ByteRange, byte_range}
use accumulative_matrix_swee.Descriptors.Journal.{
  JournalEntryState, planned, written, verified, published, ConversionJournalEntry,
  conversion_journal_entry, ConversionJournal, conversion_journal,
}

-- `state.value`, and `JournalEntryState(value)`.
unfoldable pub state_value : JournalEntryState → String
state_value planned = "planned"
state_value written = "written"
state_value verified = "verified"
state_value published = "published"

unfoldable pub journal_entry_state : Json → Result JournalEntryState
journal_entry_state (text s) =
    if str_eq s "planned"
    then ok planned
    else if str_eq s "written"
    then ok written
    else if str_eq s "verified"
    then ok verified
    else if str_eq s "published"
    then ok published
    else err value_error
journal_entry_state _ = err value_error

-- `**({key: value} if … is not None else {})`, before what follows it.
abbrev pub hash_field : Option String → Fields → Fields
hash_field none fields = fields
hash_field (some s) fields = field "target_hash" (text s) fields

abbrev pub bytes_field : Option ℕ → Fields → Fields
bytes_field none fields = fields
bytes_field (some n) fields = field "encoded_bytes" (integer (pos n)) fields

unfoldable pub range_to_dict : ByteRange → Json
range_to_dict r = object (
    field "object_id" (text r.object_id) (
      field "offset" (integer (pos r.offset))
        (field "length" (integer (pos r.length)) (field "checksum" (text r.checksum) empty))))

unfoldable pub entry_to_dict : ConversionJournalEntry → Json
unfolding state_value range_to_dict
entry_to_dict entry = object (
    field "source_range" (range_to_dict entry.source_range) (
      field "target_chunk_id" (text entry.target_chunk_id) (
        field "state" (text (state_value entry.state))
          (hash_field entry.target_hash (bytes_field entry.encoded_bytes empty)))))

unfoldable pub entries_to_list : List ConversionJournalEntry → Items
unfolding entry_to_dict
entries_to_list [] = nil
entries_to_list (entry ∷ entries) = cons (entry_to_dict entry) (entries_to_list entries)

-- `_journal_to_dict`
unfoldable pub journal_to_dict : ConversionJournal → Json
unfolding entries_to_list
journal_to_dict journal = object (
    field "journal_version" (text journal.journal_version) (
      field "source_root" (text journal.source_root) (
        field "configuration_hash" (text journal.configuration_hash)
          (field "entries" (array (entries_to_list journal.entries)) empty))))

-- `value.get(key)`, and `value[key]`.
unfoldable pub get : String → Fields → Option Json
get key empty = none
get key (field other_key value fields) = if str_eq key other_key then some value else get key fields

unfoldable pub item : String → Fields → Result Json
unfolding get
item key fields = elim (get key fields) [ none ↦ err key_error | some value ↦ ok value ]

contains_all : List String → Fields → Bool
unfolding get
contains_all [] fields = true
contains_all (key ∷ keys) fields =
    elim (get key fields) [ none ↦ false | some _ ↦ true ] && contains_all keys fields

contains_only : List String → Fields → Bool
contains_only keys empty = true
contains_only keys (field key value fields) = any (str_eq key) keys && contains_only keys fields

-- `_require_exact_fields`, of the required keys and of all that may stand.
unfoldable pub require_exact_fields : Fields → List String → List String → Result (Unit {0})
unfolding contains_all contains_only
require_exact_fields fields required allowed =
    raise_if (not (contains_all required fields) || not (contains_only allowed fields))
      invalid_package

abbrev pub as_value : Json → Value
as_value (boolean b) = bool b
as_value (integer n) = int n
as_value (text s) = str s
as_value _ = other

-- What a constructor takes where the field may be None.
abbrev pub as_optional : Option Json → Option Value
as_optional none = none
as_optional (some null) = none
as_optional (some value) = some (as_value value)

abbrev pub range_fields : List String
range_fields = "object_id" ∷ "offset" ∷ "length" ∷ "checksum" ∷ []

unfoldable pub range_from_dict : Json → Result ByteRange
unfolding require_exact_fields item
range_from_dict (object fields) = do
  require_exact_fields fields range_fields range_fields
  o ← item "object_id" fields
  f ← item "offset" fields
  l ← item "length" fields
  c ← item "checksum" fields
  byte_range (as_value o) (as_value f) (as_value l) (as_value c)
range_from_dict _ = raise invalid_package

-- What an entry must have, and all that it may have.
abbrev pub entry_required : List String
entry_required = "source_range" ∷ "target_chunk_id" ∷ "state" ∷ []

abbrev pub entry_allowed : List String
entry_allowed = "source_range" ∷ "target_chunk_id" ∷ "state" ∷ "target_hash" ∷ "encoded_bytes" ∷ []

-- One turn of the loop over the entries.
unfoldable pub entry_from_dict : Json → Result ConversionJournalEntry
unfolding require_exact_fields item range_from_dict journal_entry_state get
entry_from_dict (object fields) = do
  require_exact_fields fields entry_required entry_allowed
  raw_range ← item "source_range" fields
  r ← range_from_dict raw_range
  t ← item "target_chunk_id" fields
  raw_state ← item "state" fields
  s ← journal_entry_state raw_state
  conversion_journal_entry r (as_value t) s (as_optional (get "target_hash" fields))
      (as_optional (get "encoded_bytes" fields))
entry_from_dict _ = raise invalid_package

unfoldable pub entries_from_list : Items → Result (List ConversionJournalEntry)
unfolding entry_from_dict
entries_from_list nil = ok []
entries_from_list (cons raw raws) = do
  e ← entry_from_dict raw
  es ← entries_from_list raws
  ok (e ∷ es)

unfoldable pub count : Items → ℕ
count nil = 0
count (cons raw raws) = suc (count raws)

-- `isinstance(raw_entries, list) and len(raw_entries) <= 1_000_000`
unfoldable pub raw_entries : Json → Result Items
unfolding count
raw_entries (array items) = if ltb 1000000 (count items) then raise invalid_package else ok items
raw_entries _ = raise invalid_package

abbrev pub journal_fields : List String
journal_fields = "journal_version" ∷ "source_root" ∷ "configuration_hash" ∷ "entries" ∷ []

-- `_journal_from_dict`
unfoldable pub journal_from_dict : Json → Result ConversionJournal
unfolding require_exact_fields item raw_entries entries_from_list
journal_from_dict (object fields) = do
  require_exact_fields fields journal_fields journal_fields
  raw ← item "entries" fields
  items ← raw_entries raw
  es ← entries_from_list items
  v ← item "journal_version" fields
  r ← item "source_root" fields
  c ← item "configuration_hash" fields
  conversion_journal (as_value v) (as_value r) (as_value c) es
journal_from_dict _ = raise invalid_package
