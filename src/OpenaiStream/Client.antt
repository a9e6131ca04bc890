-- ===== src/OpenaiStream/Client.antt =====
-- A client of the Responses encoding (src/ams/api/openai_stream.py), as the protocol describes one: it
-- assembles the output items from the events of a stream, and refuses an event that does not fit.
pub mod Texts
pub mod Amend
pub mod Mirror
pub mod Opened
pub mod Grown
pub mod Deltas
pub mod Steps
pub mod Tools
pub mod Closed
pub mod Completed
pub mod Replay
pub mod Finished
use Prim.Native.String.{◌++◌ as str_append}
use accumulative_matrix_swee.Prelude.{
  ℕ, zero, suc, Bool, true, false, ◌&&◌, ◌==◌, Option, none, some, List, [], ◌∷◌, ◌++◌, String,
  length, if◌then◌else◌,
}
use accumulative_matrix_swee.Prelude.Text.{str_eq}
use accumulative_matrix_swee.OpenaiStream.Payloads.{
  Status, in_progress, completed, Item, message_item, reasoning_item, function_call, Body,
  response_created, output_item_added, content_part_added, reasoning_summary_part_added,
  output_text_delta, reasoning_summary_text_delta, function_call_arguments_delta, output_text_done,
  content_part_done, reasoning_summary_text_done, reasoning_summary_part_done,
  function_call_arguments_done, output_item_done, response_completed, error,
}

unfoldable pub texts_eq : List String → List String → Bool
texts_eq [] [] = true
texts_eq (s ∷ ss) (t ∷ ts) = str_eq s t && texts_eq ss ts
texts_eq _ _ = false

unfoldable pub status_eq : Status → Status → Bool
status_eq in_progress in_progress = true
status_eq completed completed = true
status_eq _ _ = false

unfoldable pub item_eq : Item → Item → Bool
unfolding texts_eq status_eq
item_eq (message_item i s c) (message_item j t d) = str_eq i j && status_eq s t && texts_eq c d
item_eq (reasoning_item i c s) (reasoning_item j d t) = str_eq i j && status_eq s t && texts_eq c d
item_eq (function_call i c n a s) (function_call j d m b t) =
    str_eq i j && str_eq c d && str_eq n m && str_eq a b && status_eq s t
item_eq _ _ = false

unfoldable pub items_eq : List Item → List Item → Bool
unfolding item_eq
items_eq [] [] = true
items_eq (x ∷ xs) (y ∷ ys) = item_eq x y && items_eq xs ys
items_eq _ _ = false

-- The item at an index is replaced by what the change makes of it.
unfoldable pub amend : ℕ → (Item → Option Item) → List Item → Option (List Item)
amend i change [] = none
amend zero change (x ∷ xs) = elim (change x) [ none ↦ none | some y ↦ some (y ∷ xs) ]
amend (suc i) change (x ∷ xs) = elim (amend i change xs) [ none ↦ none | some ys ↦ some (x ∷ ys) ]

-- A part is added to an item in progress that has none.
unfoldable pub add_part : String → String → Item → Option Item
add_part id text (message_item i in_progress []) =
    if str_eq id i then some (message_item i in_progress (text ∷ [])) else none
add_part id text (reasoning_item i [] in_progress) =
    if str_eq id i then some (reasoning_item i (text ∷ []) in_progress) else none
add_part id text _ = none

-- A delta goes to the end of the one part, or of the arguments.
unfoldable pub grow : String → String → Item → Option Item
grow id delta (message_item i in_progress (t ∷ [])) =
    if str_eq id i then some (message_item i in_progress (str_append t delta ∷ [])) else none
grow id delta (reasoning_item i (t ∷ []) in_progress) =
    if str_eq id i then some (reasoning_item i (str_append t delta ∷ []) in_progress) else none
grow id delta (function_call i c n a in_progress) =
    if str_eq id i then some (function_call i c n (str_append a delta) in_progress) else none
grow id delta _ = none

-- An event that says the whole text has to say the text that was assembled.
unfoldable pub confirm : String → String → Item → Option Item
confirm id text (message_item i in_progress (t ∷ [])) =
    if str_eq id i && str_eq text t then some (message_item i in_progress (t ∷ [])) else none
confirm id text (reasoning_item i (t ∷ []) in_progress) =
    if str_eq id i && str_eq text t then some (reasoning_item i (t ∷ []) in_progress) else none
confirm id text (function_call i c n a in_progress) =
    if str_eq id i && str_eq text a then some (function_call i c n a in_progress) else none
confirm id text _ = none

unfoldable pub confirm_call : String → String → String → Item → Option Item
confirm_call id name arguments (function_call i c n a in_progress) =
    if str_eq id i && str_eq name n && str_eq arguments a
    then some (function_call i c n a in_progress)
    else none
confirm_call id name arguments _ = none

unfoldable pub complete : Item → Option Item
complete (message_item i in_progress c) = some (message_item i completed c)
complete (reasoning_item i c in_progress) = some (reasoning_item i c completed)
complete (function_call i c n a in_progress) = some (function_call i c n a completed)
complete _ = none

-- An item is done once, as it was assembled.
unfoldable pub finish : Item → Item → Option Item
unfolding complete item_eq
finish done item = elim (complete item) [
  | none ↦ none
  | some it ↦ if item_eq it done then some it else none
]

unfoldable pub consume : Body → List Item → Option (List Item)
unfolding amend add_part grow confirm confirm_call finish items_eq
consume (response_created r) items = if length items == 0 then some [] else none
consume (output_item_added i item) items =
    if i == length items then some (items ++ item ∷ []) else none
consume (content_part_added id i text) items = amend i (add_part id text) items
consume (reasoning_summary_part_added id i text) items = amend i (add_part id text) items
consume (output_text_delta id i d) items = amend i (grow id d) items
consume (reasoning_summary_text_delta id i d) items = amend i (grow id d) items
consume (function_call_arguments_delta id i d) items = amend i (grow id d) items
consume (output_text_done id i text) items = amend i (confirm id text) items
consume (content_part_done id i text) items = amend i (confirm id text) items
consume (reasoning_summary_text_done id i text) items = amend i (confirm id text) items
consume (reasoning_summary_part_done id i text) items = amend i (confirm id text) items
consume (function_call_arguments_done id i n a) items = amend i (confirm_call id n a) items
consume (output_item_done i item) items = amend i (finish item) items
consume (response_completed r) items = if items_eq items r.output then some items else none
consume (error code message param) items = none

unfoldable pub consume_all : List Body → List Item → Option (List Item)
unfolding consume
consume_all [] items = some items
consume_all (b ∷ bs) items = elim (consume b items) [
  | none ↦ none
  | some items' ↦ consume_all bs items'
]
