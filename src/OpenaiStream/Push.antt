-- ===== src/OpenaiStream/Push.antt =====
-- src/ams/api/openai_stream.py: the methods of `OpenAIStreamSession` that encode: `push` with its two
-- encodings, `error_event` and `response_body`.
use Prim.Native.String.{String}
use accumulative_matrix_swee.Prelude.{
  Bool, true, false, not, ◌&&◌, Option, none, some, List, [], ◌∷◌, ◌++◌, map, if◌then◌else◌,
}
use accumulative_matrix_swee.Prelude.Text.{str_eq}
use accumulative_matrix_swee.Errors.{
  ok, ErrorCode, preflight_no_backing, preflight_no_working_set, unsupported_op, invalid_package,
  integrity_failure, signature_failure, capability_mismatch, plan_invalid, reservation_lost,
  broker_violation, io_failure, backend_failure, numeric_failure, transaction_failure,
  deadline_exceeded, internal_invariant,
}
use accumulative_matrix_swee.Generation.{
  GenerationEvent, text_delta, reasoning_delta, tool_call_start, tool_arguments_delta,
  generation_completed, message, reasoning, tool, GeneratedToolCall, GenerationSnapshot, accept,
  final_snapshot,
}
use accumulative_matrix_swee.Generation.Order.{in_order}
use accumulative_matrix_swee.OpenaiStream.Payloads.{
  tool_item_id, in_progress, completed, function_call, ResponsesUsage, output_item_added,
  output_text_delta, reasoning_summary_text_delta, function_call_arguments_delta,
  response_completed, error, Event, Delta, content, reasoning_content, tool_start, tool_arguments,
  empty, Chunk, ChatToolCall, Payload, event, chunk, chat_error, ResponseBody, response,
  chat_completion,
}
use accumulative_matrix_swee.OpenaiStream.Session.{
  responses, chat_completions, M, return, ◌>>=◌, ◌>>◌, lift, responses_event, output_index,
  responses_usage, responses_object, open_message, open_reasoning, close_outputs, responses_output,
}

-- `if not self._message_open and ("message", 0) in snapshot.output_order`
unfoldable pub open_default : GenerationSnapshot → M (List Event)
unfolding open_message
open_default snapshot s =
    if not s.message_open && in_order message 0 snapshot.output_order
    then open_message s
    else (ok [], s)

unfoldable pub complete_response : GenerationSnapshot → M Event
unfolding responses_event
complete_response snapshot s =
    (do
      output ← lift (responses_output s.identity snapshot snapshot.output_order)
      responses_event (
          response_completed
            (responses_object s completed output (some (responses_usage snapshot)))))
      s

-- `_responses_completion_events`
unfoldable pub responses_completion_events : M (List Event)
unfolding open_default complete_response
responses_completion_events = do
  snapshot ← lift final_snapshot
  opened ← open_default snapshot
  closed ← close_outputs snapshot 0 snapshot.output_order
  e ← complete_response snapshot
  return (opened ++ closed ++ e ∷ [])

-- The events of `_push_responses` once the accumulator has accepted one.
unfoldable pub encode_responses : GenerationEvent → M (List Event)
unfolding responses_completion_events output_index responses_event
encode_responses (text_delta text) s =
    (do
      opened ← open_message
      i ← output_index message 0
      e ← responses_event (output_text_delta s.identity.message_id i text)
      return (opened ++ e ∷ []))
      s
encode_responses (reasoning_delta text) s =
    (do
      opened ← open_reasoning
      i ← output_index reasoning 0
      e ← responses_event (reasoning_summary_text_delta s.identity.reasoning_id i text)
      return (opened ++ e ∷ []))
      s
encode_responses (tool_call_start index call_id name) s =
    (do
      i ← output_index tool index
      e ← responses_event (
          output_item_added i
            (function_call (tool_item_id s.identity index) call_id name "" in_progress))
      return (e ∷ []))
      s
encode_responses (tool_arguments_delta index delta) s =
    (do
      i ← output_index tool index
      e ← responses_event (function_call_arguments_delta (tool_item_id s.identity index) i delta)
      return (e ∷ []))
      s
encode_responses (generation_completed usage finish_reason) s = responses_completion_events s

-- `_chat_delta` of the delta that `_with_chat_role` returns: the first one says the role.
unfoldable pub chat_with_role : Delta → Option String → Option ResponsesUsage → M Chunk
chat_with_role delta finish_reason usage s = (
  ok (record {
    id = s.identity.response_id;
    created = s.identity.created_at;
    model = s.model;
    role = not s.chat_role_sent;
    delta = delta;
    finish_reason = finish_reason;
    usage = usage;
  }),
  record s { chat_role_sent = true },
)

-- `_chat_delta` of a delta with no role.
unfoldable pub chat_delta : Delta → M Chunk
chat_delta delta s = (
  ok (record {
    id = s.identity.response_id;
    created = s.identity.created_at;
    model = s.model;
    role = false;
    delta = delta;
    finish_reason = none;
    usage = none;
  }),
  s,
)

-- The chunk of `_push_chat` once the accumulator has accepted an event.
unfoldable pub encode_chat : GenerationEvent → M Chunk
unfolding chat_with_role chat_delta
encode_chat (text_delta text) = chat_with_role (content text) none none
encode_chat (reasoning_delta text) = chat_with_role (reasoning_content text) none none
encode_chat (tool_call_start index call_id name) =
    chat_with_role (tool_start index call_id name) none none
encode_chat (tool_arguments_delta index delta) = chat_delta (tool_arguments index delta)
encode_chat (generation_completed usage finish_reason) = do
  snapshot ← lift final_snapshot
  chat_with_role empty (some snapshot.finish_reason) (some (responses_usage snapshot))

module _ (loads : String → Option Bool) where
  -- `self.accumulator.accept(event)`
  unfoldable pub accept_event : GenerationEvent → M (Unit {0})
  accept_event e s = (
    (accept loads e s.accumulator).0,
    record s { accumulator = (accept loads e s.accumulator).1 },
  )

  unfoldable pub push_responses : GenerationEvent → M (List Event)
  unfolding accept_event
  push_responses e = do accept_event e; encode_responses e

  unfoldable pub push_chat : GenerationEvent → M Chunk
  unfolding accept_event
  push_chat e = do accept_event e; encode_chat e

  unfoldable pub push : GenerationEvent → M (List Payload)
  push e s = elim s.endpoint [
    | responses ↦ (do es ← push_responses e; return (map event es)) s
    | chat_completions ↦ (do c ← push_chat e; return (chunk c ∷ [])) s
  ]

-- `error.code.value.lower()`
unfoldable pub lower_value : ErrorCode → String
lower_value preflight_no_backing = "preflight_no_backing"
lower_value preflight_no_working_set = "preflight_no_working_set"
lower_value unsupported_op = "unsupported_op"
lower_value invalid_package = "invalid_package"
lower_value integrity_failure = "integrity_failure"
lower_value signature_failure = "signature_failure"
lower_value capability_mismatch = "capability_mismatch"
lower_value plan_invalid = "plan_invalid"
lower_value reservation_lost = "reservation_lost"
lower_value broker_violation = "broker_violation"
lower_value io_failure = "io_failure"
lower_value backend_failure = "backend_failure"
lower_value numeric_failure = "numeric_failure"
lower_value transaction_failure = "transaction_failure"
lower_value deadline_exceeded = "deadline_exceeded"
lower_value ErrorCode.cancelled = "cancelled"
lower_value internal_invariant = "internal_invariant"

-- An `AmsError` with the attributes that only a request error has, which are read by `getattr`.
pub record AmsError : Type 0 where
  pub code : ErrorCode
  pub message : String
  pub param : Option String
  pub error_type : Option String
  pub api_code : Option String

abbrev or_default : String → Option String → String
or_default default none = default
or_default default (some given) = given

unfoldable pub error_event : AmsError → M Payload
unfolding lower_value responses_event
error_event x s = elim s.endpoint [
  | responses ↦
      (do e ← responses_event (error (lower_value x.code) x.message x.param); return (event e)) s
  | chat_completions ↦ (
    ok (
        chat_error x.message (or_default "server_error" x.error_type) x.param
          (or_default (lower_value x.code) x.api_code)),
    s,
  )
]

-- `text or None`
abbrev text_or_none : String → Option String
text_or_none text = if str_eq text "" then none else some text

abbrev chat_tool_call : GeneratedToolCall → ChatToolCall
chat_tool_call t = record { id = t.call_id; name = t.name; arguments = t.arguments }

abbrev chat_tool_calls : List GeneratedToolCall → Option (List ChatToolCall)
chat_tool_calls [] = none
chat_tool_calls (t ∷ ts) = some (map chat_tool_call (t ∷ ts))

unfoldable pub response_body : M ResponseBody
response_body s =
    (do
      snapshot ← lift final_snapshot
      elim s.endpoint [
        | responses ↦ do
          output ← lift (responses_output s.identity snapshot snapshot.output_order)
          return (response (responses_object s completed output (some (responses_usage snapshot))))
        | chat_completions ↦ return (
            chat_completion (record {
              id = s.identity.response_id;
              created = s.identity.created_at;
              model = s.model;
              content = text_or_none snapshot.text;
              reasoning_content = text_or_none snapshot.reasoning;
              tool_calls = chat_tool_calls snapshot.tool_calls;
              finish_reason = snapshot.finish_reason;
              usage = responses_usage snapshot;
            }))
      ])
      s
