-- ===== src/Server/Tests.antt =====
-- A stream of the Responses endpoint from a backend that thinks, calls a tool and answers.
use accumulative_matrix_swee.Prelude.{
  ◌≡◌, refl, Bool, true, false, Option, none, some, List, [], ◌∷◌, ◌++◌, map, String, ◌⊎◌,
  if◌then◌else◌,
}
use accumulative_matrix_swee.Prelude.Int.{pos}
use accumulative_matrix_swee.Prelude.Text.{str_eq}
use accumulative_matrix_swee.Errors.{Exception, Result, os_error, ok}
use accumulative_matrix_swee.Generation.{
  GenerationUsage, GenerationEvent, text_delta, reasoning_delta, tool_call_start,
  tool_arguments_delta, generation_completed, message, reasoning, tool, GenerationSnapshot, Request,
  Accumulator, accumulator, concat, find_tool, append_argument, accept_open, accept,
  check_completion, tool_calls,
}
use accumulative_matrix_swee.Generation.Stream.{accept_all}
use accumulative_matrix_swee.OpenaiStream.Payloads.{
  ResponseIdentity, Payload, Body, ResponsesObject, event, response, tool_item_id,
}
use accumulative_matrix_swee.OpenaiStream.Session.{responses, new_session, start}
use accumulative_matrix_swee.OpenaiStream.Push.{response_body}
use accumulative_matrix_swee.OpenaiStream.Client.{consume_all}
use accumulative_matrix_swee.OpenaiStream.Client.Mirror.{number}
use accumulative_matrix_swee.OpenaiStream.Session.{Session}
use accumulative_matrix_swee.Server.{
  BackendStream, raises, yields, yields_all, Line, data_line, done_line, stream_chunks, push_events,
}
use accumulative_matrix_swee.Server.Served.{stream_delivers, stream_numbered}

-- A `json.loads` that knows one text, which is an object.
abbrev loads : String → Option Bool
loads s = if str_eq s "{}" then some true else none

abbrev text_of : Exception → String
text_of _ = "failed"

abbrev request : Request
request = record { tools = "search" ∷ []; max_output_tokens = none; structured_output = none }

abbrev identity : ResponseIdentity
identity = record {
  response_id = "resp_7";
  message_id = "msg_7";
  reasoning_id = "rs_7";
  created_at = pos 1700000000;
}

abbrev usage : GenerationUsage
usage = record {
  input_tokens = 5;
  output_tokens = 8;
  cached_input_tokens = 2;
  reasoning_tokens = 3;
}

abbrev events : List GenerationEvent
events =
    reasoning_delta "why"
    ∷ text_delta "Hel"
    ∷ tool_call_start 0 "call_1" "search"
    ∷ text_delta "lo"
    ∷ tool_arguments_delta 0 "{}"
    ∷ generation_completed usage "tool_calls"
    ∷ []

abbrev last_snapshot : GenerationSnapshot
last_snapshot = record {
  text = "Hello";
  reasoning = "why";
  tool_calls = record { index = 0; call_id = "call_1"; name = "search"; arguments = "{}" } ∷ [];
  output_order = (reasoning, 0) ∷ (message, 0) ∷ (tool, 0) ∷ [];
  usage = usage;
  finish_reason = "tool_calls";
}

abbrev final : Accumulator
final = record {
  request = request;
  text = "Hel" ∷ "lo" ∷ [];
  reasoning = "why" ∷ [];
  tools = record { call_id = "call_1"; name = "search"; arguments = "{}" ∷ [] } ∷ [];
  output_order = (reasoning, 0) ∷ (message, 0) ∷ (tool, 0) ∷ [];
  text_started = true;
  reasoning_started = true;
  snapshot = some last_snapshot;
}

accepted_run : accept_all loads events (accumulator request) ≡ ok final
unfolding accept_all accept accept_open accumulator find_tool append_argument check_completion
    tool_calls concat
accepted_run = refl

call_item : tool_item_id identity 12 ≡ "fc_7_12"
unfolding tool_item_id
call_item = refl

-- Every payload has an encoding.
abbrev every : Payload → Bool
every p = true

stream_delivers_example :
    (bodies : List Body) × (r : ResponsesObject) × (last : Session) × (stream_chunks every loads
        text_of
        (ok (yields_all events))
        false
        (new_session responses "glm" request identity)
      ≡ map (λ e. data_line (event e)) (number 0 bodies) ++ done_line ∷ [])
    × (consume_all bodies [] ≡ some r.output)
    × ((push_events every loads events (start (new_session responses "glm" request identity)).1).2
        ≡ last)
    × (response_body last ≡ (ok (response r), last))
stream_delivers_example =
    stream_delivers every (λ p. refl) loads text_of "glm" request identity events false final
      last_snapshot accepted_run refl

-- The backend raises when it is asked for its third event.
abbrev breaks : Result BackendStream
breaks = ok (yields false (text_delta "a") (yields false (text_delta "b") (raises os_error)))

stream_numbered_example :
    (bodies : List Body) × (rest : List Line) × (stream_chunks every loads text_of breaks false
        (new_session responses "glm" request identity)
      ≡ map (λ e. data_line (event e)) (number 0 bodies) ++ rest)
    × ((rest ≡ []) ⊎ (rest ≡ done_line ∷ []))
stream_numbered_example =
    stream_numbered every (λ p. refl) loads text_of "glm" request identity breaks false
