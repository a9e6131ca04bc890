-- ===== src/Generation/Tests.antt =====
-- Runs of the accumulator, and the theorems of the stream at one of them.
use accumulative_matrix_swee.Prelude.{
  ℕ, ◌≡◌, refl, Bool, true, Option, none, some, List, [], ◌∷◌, String, get_elem?, false,
  if◌then◌else◌,
}
use accumulative_matrix_swee.Prelude.Text.{str_eq}
use accumulative_matrix_swee.Errors.{Exception, ok, err, ams, internal_invariant}
use accumulative_matrix_swee.Generation.{
  GenerationUsage, GenerationEvent, text_delta, reasoning_delta, tool_call_start,
  tool_arguments_delta, generation_completed, message, reasoning, tool, GeneratedToolCall,
  GenerationSnapshot, Request, Accumulator, accumulator, concat, find_tool, append_argument,
  accept_open, accept, check_completion, is_finish_reason, exceeds, validate_tools,
  validate_structured, validate_arguments, tool_calls,
}
use accumulative_matrix_swee.Generation.Transaction.{accept_atomic_and_final}
use accumulative_matrix_swee.Generation.Stream.{
  accept_all, texts, reasonings, arguments_of, snapshot_of_stream,
}
use accumulative_matrix_swee.Generation.Order.{IsOrdered, stream-IsOrdered}

-- A `json.loads` that knows one text, which is an object.
abbrev loads : String → Option Bool
loads s = if str_eq s "{}" then some true else none

abbrev request : Request
request = record { tools = "search" ∷ []; max_output_tokens = some 9; structured_output = none }

abbrev usage : GenerationUsage
usage = record {
  input_tokens = 5;
  output_tokens = 8;
  cached_input_tokens = 2;
  reasoning_tokens = 3;
}

abbrev events : List GenerationEvent
events =
    reasoning_delta "why"
    ∷ text_delta "Hel"
    ∷ tool_call_start 0 "call_1" "search"
    ∷ tool_arguments_delta 0 "{"
    ∷ text_delta "lo"
    ∷ tool_arguments_delta 0 "}"
    ∷ generation_completed usage "tool_calls"
    ∷ []

abbrev snapshot : GenerationSnapshot
snapshot = record {
  text = "Hello";
  reasoning = "why";
  tool_calls = record { index = 0; call_id = "call_1"; name = "search"; arguments = "{}" } ∷ [];
  output_order = (reasoning, 0) ∷ (message, 0) ∷ (tool, 0) ∷ [];
  usage = usage;
  finish_reason = "tool_calls";
}

abbrev final : Accumulator
final = record {
  request = request;
  text = "Hel" ∷ "lo" ∷ [];
  reasoning = "why" ∷ [];
  tools = record { call_id = "call_1"; name = "search"; arguments = "{" ∷ "}" ∷ [] } ∷ [];
  output_order = (reasoning, 0) ∷ (message, 0) ∷ (tool, 0) ∷ [];
  text_started = true;
  reasoning_started = true;
  snapshot = some snapshot;
}

run : accept_all loads events (accumulator request) ≡ ok final
unfolding accept_all accept accept_open accumulator find_tool append_argument check_completion
    is_finish_reason exceeds validate_tools validate_structured validate_arguments tool_calls concat
run = refl

-- An event after the completion is refused.
late : (accept loads (text_delta "more") final).0 ≡ err (ams internal_invariant false)
unfolding accept accept_open
late = refl

snapshot_of_stream_example :
    ("Hello" ≡ concat (texts events))
    × ("why" ≡ concat (reasonings events))
    × ((i : ℕ) (c : GeneratedToolCall)
        → get_elem? snapshot.tool_calls i ≡ some c
        → (c.index ≡ i) × (c.arguments ≡ concat (arguments_of i events)))
snapshot_of_stream_example = snapshot_of_stream loads request events final snapshot run refl

stream-IsOrdered_example : IsOrdered final
stream-IsOrdered_example = stream-IsOrdered loads request events final run

accept_atomic_and_final_example :
    ((x : Exception)
      → (accept loads (text_delta "more") final).0 ≡ err x
      → (accept loads (text_delta "more") final).1 ≡ final)
    × ((s : GenerationSnapshot)
        → some snapshot ≡ some s
        → accept loads (text_delta "more") final ≡ (err (ams internal_invariant false), final))
accept_atomic_and_final_example = accept_atomic_and_final loads (text_delta "more") final
