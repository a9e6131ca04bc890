-- ===== src/OpenaiStream/Session.antt =====
-- src/ams/api/openai_stream.py: `OpenAIStreamSession`. A method changes the session, also when it
-- raises in the middle, so it is a function from the session to a result and a session.
use Prim.Native.String.{String}
use accumulative_matrix_swee.Prelude.{
  ℕ, ◌+◌, Bool, true, false, ◌&&◌, ◌==◌, Option, none, List, [], ◌∷◌, ◌++◌, if◌then◌else◌,
}
use accumulative_matrix_swee.Errors.{Result, ok, err, value_error}
use accumulative_matrix_swee.Generation.{
  total_tokens, OutputKind, message, reasoning, tool, GeneratedToolCall, GenerationSnapshot,
  Request, Accumulator, accumulator, tool_call,
}
use accumulative_matrix_swee.Generation.Order.{output_eq}
use accumulative_matrix_swee.OpenaiStream.Payloads.{
  ResponseIdentity, tool_item_id, Status, in_progress, completed, Item, message_item,
  reasoning_item, function_call, ResponsesUsage, ResponsesObject, Body, response_created,
  output_item_added, content_part_added, reasoning_summary_part_added, output_text_done,
  content_part_done, reasoning_summary_text_done, reasoning_summary_part_done,
  function_call_arguments_done, output_item_done, Event, Payload, event,
}

pub data OpenaiEndpoint : Type 0 where
  responses chat_completions : OpenaiEndpoint

-- The request is split in what the accumulator reads of it, the endpoint and the model.
pub record Session : Type 0 where
  pub endpoint : OpenaiEndpoint
  pub model : String
  pub identity : ResponseIdentity
  pub accumulator : Accumulator
  pub sequence : ℕ
  pub message_open : Bool
  pub reasoning_open : Bool
  pub chat_role_sent : Bool

unfoldable pub new_session : OpenaiEndpoint → String → Request → ResponseIdentity → Session
unfolding accumulator
new_session endpoint model request identity = record {
  endpoint = endpoint;
  model = model;
  identity = identity;
  accumulator = accumulator request;
  sequence = 0;
  message_open = false;
  reasoning_open = false;
  chat_role_sent = false;
}

abbrev pub M : Type 0 → Type 0
M A = Session → Result A × Session

abbrev pub return : {A : Type 0} → A → M A
return a s = (ok a, s)

abbrev bind : {A B : Type 0} → Result A → Session → (A → M B) → Result B × Session
bind (ok a) s next = next a s
bind (err x) s next = (err x, s)

infixl 5 ◌>>=◌ ◌>>◌
abbrev pub ◌>>=◌ : {A B : Type 0} → M A → (A → M B) → M B
◌>>=◌ first next s = bind (first s).0 (first s).1 next

abbrev pub ◌>>◌ : {A B : Type 0} → M A → M B → M B
first >> rest = first >>= λ _. rest

-- A call of the accumulator that changes nothing.
abbrev pub lift : {A : Type 0} → (Accumulator → Result A) → M A
lift read s = (read s.accumulator, s)

-- `_responses_event`
unfoldable pub responses_event : Body → M Event
responses_event body s = (
  ok (record { sequence_number = s.sequence; body = body }),
  record s { sequence = s.sequence + 1 },
)

-- A list literal of events: they are numbered from the left.
unfoldable pub responses_events : List Body → M (List Event)
unfolding responses_event
responses_events [] = return []
responses_events (b ∷ bs) = do e ← responses_event b; es ← responses_events bs; return (e ∷ es)

-- `output_order.index((kind, index))` from a position on.
unfoldable pub index_from : ℕ → OutputKind → ℕ → List (OutputKind × ℕ) → Result ℕ
index_from n kind index [] = err value_error
index_from n kind index ((k, i) ∷ order) =
    if output_eq kind k && index == i then ok n else index_from (n + 1) kind index order

unfoldable pub output_index : OutputKind → ℕ → M ℕ
unfolding index_from
output_index kind index = lift (λ a. index_from 0 kind index a.output_order)

unfoldable pub responses_usage : GenerationSnapshot → ResponsesUsage
responses_usage s = record {
  input_tokens = s.usage.input_tokens;
  output_tokens = s.usage.output_tokens;
  total_tokens = total_tokens s.usage;
  cached_tokens = s.usage.cached_input_tokens;
  reasoning_tokens = s.usage.reasoning_tokens;
}

unfoldable pub responses_object :
    Session → Status → List Item → Option ResponsesUsage → ResponsesObject
responses_object s status output usage = record {
  id = s.identity.response_id;
  created_at = s.identity.created_at;
  model = s.model;
  status = status;
  output = output;
  usage = usage;
}

unfoldable pub function_item : ResponseIdentity → GeneratedToolCall → Status → Item
function_item identity t status =
    function_call (tool_item_id identity t.index) t.call_id t.name t.arguments status

-- `start`
unfoldable pub start : M (List Payload)
unfolding responses_event responses_object
start s = elim s.endpoint [
  | chat_completions ↦ (ok [], s)
  | responses ↦
      (do
        e ← responses_event (response_created (responses_object s in_progress [] none))
        return (event e ∷ []))
        s
]

-- The message is opened with no content yet.
unfoldable pub open_message : M (List Event)
unfolding output_index responses_events
open_message s =
    if s.message_open
    then (ok [], s)
    else (do
      i ← output_index message 0
      responses_events (
          output_item_added i (message_item s.identity.message_id in_progress [])
          ∷ content_part_added s.identity.message_id i ""
          ∷ []))
        (record s { message_open = true })

unfoldable pub open_reasoning : M (List Event)
unfolding output_index responses_events
open_reasoning s =
    if s.reasoning_open
    then (ok [], s)
    else (do
      i ← output_index reasoning 0
      responses_events (
          output_item_added i (reasoning_item s.identity.reasoning_id [] in_progress)
          ∷ reasoning_summary_part_added s.identity.reasoning_id i ""
          ∷ []))
        (record s { reasoning_open = true })

-- The events that close one output of a completed response.
unfoldable pub close_output : GenerationSnapshot → ℕ → OutputKind → ℕ → M (List Event)
unfolding responses_events function_item
close_output snapshot i message _ s =
    responses_events
      (output_text_done s.identity.message_id i snapshot.text
        ∷ content_part_done s.identity.message_id i snapshot.text
        ∷ output_item_done i (message_item s.identity.message_id completed (snapshot.text ∷ []))
        ∷ [])
      s
close_output snapshot i reasoning _ s =
    responses_events
      (reasoning_summary_text_done s.identity.reasoning_id i snapshot.reasoning
        ∷ reasoning_summary_part_done s.identity.reasoning_id i snapshot.reasoning
        ∷ output_item_done i
            (reasoning_item s.identity.reasoning_id (snapshot.reasoning ∷ []) completed)
        ∷ [])
      s
close_output snapshot i tool index s =
    (do
      t ← lift (tool_call index)
      responses_events (
          function_call_arguments_done (tool_item_id s.identity index) i t.name t.arguments
          ∷ output_item_done i (function_item s.identity t completed)
          ∷ []))
      s

-- `for output_index, (kind, index) in enumerate(snapshot.output_order)`
unfoldable pub close_outputs : GenerationSnapshot → ℕ → List (OutputKind × ℕ) → M (List Event)
unfolding close_output
close_outputs snapshot i [] = return []
close_outputs snapshot i ((kind, index) ∷ order) = do
  es ← close_output snapshot i kind index
  rest ← close_outputs snapshot (i + 1) order
  return (es ++ rest)

-- `_responses_output` over the order of the snapshot.
unfoldable pub responses_output :
    ResponseIdentity → GenerationSnapshot → List (OutputKind × ℕ) → Accumulator → Result (List Item)
responses_output identity snapshot [] a = ok []
responses_output identity snapshot ((message, _) ∷ order) a =
    elim (responses_output identity snapshot order a) [
      | err x ↦ err x
      | ok items ↦ ok (message_item identity.message_id completed (snapshot.text ∷ []) ∷ items)
    ]
responses_output identity snapshot ((reasoning, _) ∷ order) a =
    elim (responses_output identity snapshot order a) [
      | err x ↦ err x
      | ok items ↦
          ok (reasoning_item identity.reasoning_id (snapshot.reasoning ∷ []) completed ∷ items)
    ]
responses_output identity snapshot ((tool, index) ∷ order) a = elim (tool_call index a) [
  | err x ↦ err x
  | ok t ↦ elim (responses_output identity snapshot order a) [
    | err x ↦ err x
    | ok items ↦ ok (function_item identity t completed ∷ items)
  ]
]
