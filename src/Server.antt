-- ===== src/Server.antt =====
-- src/ams/api/server.py: the loop that serves one stream. A generator that is driven to its end is the list
-- of what it yields and what it raises then. Texts of errors, which the model does not carry, are given by a
-- parameter, and so is whether a payload has an encoding in UTF-8: `str.encode` raises a ValueError for a
-- text with a lone surrogate.
mod Pushed
mod Delivered
mod Served
mod Tests
use accumulative_matrix_swee.Prelude.{
  Bool, true, false, Option, none, some, List, [], ◌∷◌, ◌++◌, map, all, String, if◌then◌else◌,
}
use accumulative_matrix_swee.Errors.{
  Exception, ams, os_error, overflow_error, value_error, key_error, Result, ok, err,
  backend_failure, internal_invariant, ErrorCode,
}
use accumulative_matrix_swee.Generation.{
  GenerationEvent, text_delta, reasoning_delta, tool_call_start, tool_arguments_delta,
  generation_completed,
}
use accumulative_matrix_swee.OpenaiStream.Payloads.{Payload}
use accumulative_matrix_swee.OpenaiStream.Session.{Session, start}
use accumulative_matrix_swee.OpenaiStream.Push.{push, AmsError, error_event, response_body}

-- `isinstance(pending, GenerationCompleted)`
unfoldable pub is_completed : GenerationEvent → Bool
is_completed (generation_completed _ _) = true
is_completed (text_delta _) = false
is_completed (reasoning_delta _) = false
is_completed (tool_call_start _ _ _) = false
is_completed (tool_arguments_delta _ _) = false

-- What a backend's iterator does when it is asked for the next event, again and again: it yields one,
-- with whether cancellation was set when the loop looked then, until it stops or raises.
pub data BackendStream : Type 0 where
  stops : BackendStream
  raises : Exception → BackendStream
  yields : Bool → GenerationEvent → BackendStream → BackendStream

-- The events of a list, none of them cancelled.
abbrev pub yields_all : List GenerationEvent → BackendStream
yields_all [] = stops
yields_all (e ∷ es) = yields false e (yields_all es)

-- The loop of `_validated_backend_events`, at what `next(iterator)` does.
unfoldable pub validated_events : BackendStream → List GenerationEvent × Option Exception
unfolding is_completed
validated_events stops = ([], none)
validated_events (raises x) = ([], some x)
validated_events (yields is_set pending iterator) =
    let (rest, raised) = validated_events iterator in
    if is_set
    then ([], some (ams ErrorCode.cancelled false))
    else if is_completed pending
    then elim iterator [
      | stops ↦ (pending ∷ [], none)
      | raises x ↦ ([], some x)
      | yields _ _ _ ↦ ([], some (ams internal_invariant false))
    ]
    else (pending ∷ rest, raised)

-- `_validated_backend_events`, of what `backend.stream` returns or raises.
unfoldable pub validated_backend_events :
    Result BackendStream → List GenerationEvent × Option Exception
unfolding validated_events
validated_backend_events (err x) = ([], some x)
validated_backend_events (ok stops) = ([], some (ams backend_failure true))
validated_backend_events (ok (raises x)) = ([], some x)
validated_backend_events (ok (yields is_set e es)) = validated_events (yields is_set e es)

-- The payloads before the first one that has no encoding.
unfoldable pub encoded : (Payload → Bool) → List Payload → List Payload
encoded encodes [] = []
encoded encodes (p ∷ ps) = if encodes p then p ∷ encoded encodes ps else []

-- The inner loops of `_stream_chunks`: what was sent, how they ended, and the session.
unfoldable pub push_events :
    (Payload → Bool)
    → (String → Option Bool)
    → List GenerationEvent
    → Session
    → List Payload × Result (Unit {0}) × Session
unfolding encoded
push_events encodes loads [] s = ([], ok tt, s)
push_events encodes loads (e ∷ es) s =
    let (sent, ended, last) = push_events encodes loads es (push loads e s).1 in
    elim (push loads e s).0 [
      | err x ↦ ([], err x, (push loads e s).1)
      | ok payloads ↦
          if all encodes payloads
          then (payloads ++ sent, ended, last)
          else (encoded encodes payloads, err value_error, (push loads e s).1)
    ]

-- A line of the answer: `sse_data` of a payload, or of the end marker.
pub data Line : Type 0 where
  data_line : Payload → Line
  done_line : Line

-- The error that is sent for an exception: an AmsError itself, else a failure of the backend.
unfoldable pub sent_error : (Exception → String) → Exception → AmsError
sent_error message (ams code retriable) = record {
  code = code;
  message = message (ams code retriable);
  param = none;
  error_type = none;
  api_code = none;
}
sent_error message _ = record {
  code = backend_failure;
  message = "local inference backend failed";
  param = none;
  error_type = none;
  api_code = none;
}

-- The handlers of `_stream_chunks`, with whether cancellation is set then; an error event without an
-- encoding is not sent.
unfoldable pub handle :
    (Payload → Bool) → (Exception → String) → Bool → Exception → Session → List Line
unfolding sent_error error_event
handle encodes message is_set x s =
    if is_set then [] else elim (error_event (sent_error message x) s).0 [
      | err _ ↦ []
      | ok payload ↦ if encodes payload then data_line payload ∷ [] else []
    ]

-- `session.response_body()` and the end marker, once the events are through.
unfoldable pub end_stream :
    (Payload → Bool)
    → (Exception → String)
    → Bool
    → Result (Unit {0})
    → Option Exception
    → Session
    → List Line
unfolding handle
end_stream encodes message is_set (err x) raised s = handle encodes message is_set x s
end_stream encodes message is_set (ok _) (some x) s = handle encodes message is_set x s
end_stream encodes message is_set (ok _) none s = elim (response_body s).0 [
  | err x ↦ handle encodes message is_set x s
  | ok _ ↦ done_line ∷ []
]

-- `_stream_chunks`
unfoldable pub stream_chunks :
    (Payload → Bool)
    → (String → Option Bool)
    → (Exception → String)
    → Result BackendStream
    → Bool
    → Session
    → List Line
unfolding validated_backend_events push_events end_stream encoded
stream_chunks encodes loads message backend is_set s = elim (start s).0 [
  | err x ↦ handle encodes message is_set x (start s).1
  | ok first ↦
      let (events, raised) = validated_backend_events backend in
      let (sent, ended, last) = push_events encodes loads events (start s).1 in
      if all encodes first
      then map data_line (first ++ sent) ++ end_stream encodes message is_set ended raised last
      else map data_line (encoded encodes first)
        ++ handle encodes message is_set value_error (start s).1
]
