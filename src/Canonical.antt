-- ===== src/Canonical.antt =====
-- src/ams/canonical.py: the JSON that is written for artifacts which are hashed or read again.
-- `json.dumps` and `json.loads` are parameters, on the values of JSON.
use accumulative_matrix_swee.Prelude.{ℕ, ◌/◌, ◌%◌, ◌^◌, Bool, List, String, ◌==◌, if◌then◌else◌}
use accumulative_matrix_swee.Prelude.Int.{ℤ}
use accumulative_matrix_swee.Prelude.Text.{str_lt}
use accumulative_matrix_swee.Errors.{Result, ok, raise, invalid_package, ◌>>=◌}

-- A value of Python as JSON sees it. A float is given by the bits of its double; `unsupported` is a value
-- of any type that JSON does not have.
mutual
  pub data Json : Type 0 where
    null : Json
    boolean : Bool → Json
    integer : ℤ → Json
    real : ℕ → Json
    text : String → Json
    array : Items → Json
    object : Fields → Json
    unsupported : Json

  pub data Items : Type 0 where
    nil : Items
    cons : Json → Items → Items

  pub data Fields : Type 0 where
    empty : Fields
    field : String → Json → Fields → Fields

-- `json`: `dumps` with its arguments, in UTF-8, and `loads` with the hook that refuses a key that stands
-- twice. A text that is no JSON is a ValueError there, one that is nested too deep a RecursionError.
pub record JsonText : Type 0 where
  pub dumps : Json → List ℕ
  pub loads : List ℕ → Result Json

-- `sorted(value)`, one key at a time.
unfoldable pub insert_field : String → Json → Fields → Fields
insert_field key value empty = field key value empty
insert_field key value (field other rest fields) =
    let later = insert_field key value fields in
    if str_lt other key then field other rest later else field key value (field other rest fields)

-- `_normalize`
unfoldable mutual
  unfolding insert_field

  pub normalize : Json → Result Json
  normalize null = ok null
  normalize (boolean b) = ok (boolean b)
  normalize (integer n) = ok (integer n)
  normalize (real bits) =
      if bits / 2 ^ 52 % 2 ^ 11 == 2047 then raise invalid_package else ok (real bits)
  normalize (text s) = ok (text s)
  normalize (array items) = do ns ← normalize_items items; ok (array ns)
  normalize (object fields) = do ns ← normalize_fields fields; ok (object ns)
  normalize unsupported = raise invalid_package

  pub normalize_items : Items → Result Items
  normalize_items nil = ok nil
  normalize_items (cons item items) = do
    n ← normalize item
    ns ← normalize_items items
    ok (cons n ns)

  pub normalize_fields : Fields → Result Fields
  normalize_fields empty = ok empty
  normalize_fields (field key value fields) = do
    n ← normalize value
    ns ← normalize_fields fields
    ok (insert_field key n ns)

unfoldable pub canonical_json_bytes : JsonText → Json → Result (List ℕ)
unfolding normalize
canonical_json_bytes json value = do normalized ← normalize value; ok (json.dumps normalized)
