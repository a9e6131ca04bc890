-- ===== src/Server/Served.antt =====
-- src/ams/api/server.py and src/ams/api/openai_stream.py: the lines of a whole stream of the Responses
-- endpoint.
use mathlib.Core.List.{map-append, append-nil}
use accumulative_matrix_swee.Prelude.{
  ℕ, ◌+◌, ◌≡◌, refl, ap, sym, ◌∙◌, Bool, true, false, Option, none, some, List, [], ◌∷◌, ◌++◌, map,
  arith, length, String, ◌⊎◌, inl, inr,
}
use accumulative_matrix_swee.Errors.{Exception, Result, Result-cases, ok, err}
use accumulative_matrix_swee.Generation.{
  GenerationEvent, GenerationSnapshot, Request, Accumulator, accumulator,
}
use accumulative_matrix_swee.Generation.Order.{in_order}
use accumulative_matrix_swee.Generation.Stream.{accept_all}
use accumulative_matrix_swee.OpenaiStream.Payloads.{
  ResponseIdentity, Payload, event, Event, in_progress, Body, response_created, error,
  ResponsesObject, response,
}
use accumulative_matrix_swee.OpenaiStream.Session.{
  Session, new_session, responses, responses_event, responses_object, start,
}
use accumulative_matrix_swee.OpenaiStream.Push.{response_body, error_event, lower_value}
use accumulative_matrix_swee.OpenaiStream.Client.{consume, consume_all}
use accumulative_matrix_swee.OpenaiStream.Client.Mirror.{
  Mirrors, number, number-append, consume_all-cons,
}
use accumulative_matrix_swee.OpenaiStream.Client.Completed.{final_object}
use accumulative_matrix_swee.Server.{
  BackendStream, yields_all, push_events, validated_backend_events, Line, data_line, done_line,
  sent_error, handle, end_stream, stream_chunks,
}
use accumulative_matrix_swee.Server.Pushed.{all_encode, live-Numbered}
use accumulative_matrix_swee.Server.Delivered.{validated_accepted, deliver}

lines-map : (es : List Event) → map data_line (map event es) ≡ map (λ e. data_line (event e)) es
lines-map [] = refl
lines-map (e ∷ es) = ap (λ rest. data_line (event e) ∷ rest) (lines-map es)

-- A session that has a body ends its stream.
end_stream_lem :
    (encodes : Payload → Bool) (message : Exception → String) (is_set : Bool) (u : Session)
    (r : ResponsesObject)
    → response_body u ≡ (ok (response r), u)
    → end_stream encodes message is_set (ok tt) none u ≡ done_line ∷ []
unfolding end_stream
end_stream_lem encodes message is_set u r h = ground arith

module _ (model : String) (request : Request) (identity : ResponseIdentity) where
  -- The session of the Responses endpoint once `start` has been sent.
  abbrev started : Session
  started = record (new_session responses model request identity) { sequence = 1 }

  abbrev created : Body
  created =
      response_created
        (responses_object (new_session responses model request identity) in_progress [] none)

  start_lem :
      start (new_session responses model request identity)
      ≡ (ok (map event (number 0 (created ∷ []))), started)
  unfolding start number new_session responses_event
  start_lem = refl

  started-Mirrors : Mirrors started []
  unfolding new_session in_order
  started-Mirrors = record {
    ordered = record {
      messages = λ i. ground arith;
      reasonings = λ i. ground arith;
      tools = λ i. ground arith;
      unique = tt;
      calls = tt;
      declared = tt;
    };
    mirrored = refl;
    message_opened = refl;
    reasoning_opened = refl;
    no_text = λ _. refl;
    no_reasoning = λ _. refl;
  }

  stream_chunks_lem :
      (encodes : Payload → Bool) (total : (p : Payload) → encodes p ≡ true)
      (loads : String → Option Bool) (message : Exception → String) (backend : Result BackendStream)
      (is_set : Bool) {events : List GenerationEvent} {raised : Option Exception}
      {sent : List Payload} {ended : Result (Unit {0})} {last : Session}
      → validated_backend_events backend ≡ (events, raised)
      → push_events encodes loads events started ≡ (sent, ended, last)
      → stream_chunks encodes loads message backend is_set
          (new_session responses model request identity)
        ≡ map data_line (map event (number 0 (created ∷ [])) ++ sent)
          ++ end_stream encodes message is_set ended raised last
  unfolding stream_chunks start number new_session responses_event
  stream_chunks_lem encodes total loads message backend is_set v p =
      let first = all_encode loads encodes total (map event (number 0 (created ∷ []))) in
      rw first (rw (v, p) refl)

  -- A line for each body, numbered from a number on.
  abbrev pub lines : ℕ → List Body → List Line
  lines n bodies = map (λ e. data_line (event e)) (number n bodies)

  lines_lem :
      (bodies : List Body)
      → map data_line (map event (number 0 (created ∷ [])) ++ map event (number 1 bodies))
        ≡ lines 0 (created ∷ bodies)
  unfolding number
  lines_lem bodies =
      ap (λ rest. data_line (event (record { sequence_number = 0; body = created })) ∷ rest)
        (lines-map (number 1 bodies))

  validated_backend_accepted :
      (encodes : Payload → Bool) (total : (p : Payload) → encodes p ≡ true)
      (loads : String → Option Bool) (es : List GenerationEvent) {a : Accumulator}
      {snapshot : GenerationSnapshot}
      → accept_all loads es (accumulator request) ≡ ok a
      → a.snapshot ≡ some snapshot
      → validated_backend_events (ok (yields_all es)) ≡ (es, none)
  unfolding validated_backend_events accept_all accumulator
  validated_backend_accepted encodes total loads [] h k = absurd (ground arith)
  validated_backend_accepted encodes total loads (e ∷ es) {a} {snapshot} h k =
      validated_accepted encodes total loads (e ∷ es) (accumulator request) {b = a}
        {snapshot = snapshot} refl h k

-- If the accumulator accepts the events of a backend to a completion and the stream is not cancelled,
-- and every payload has an encoding in UTF-8, then the Responses endpoint sends events that are numbered 0, 1, 2, … and then the end marker; a client that assembles the items from these events, which checks positions,
-- texts and the final response against what it has assembled, accepts every one of them and ends with
-- the output of the response that `response_body` returns for the session.
pub stream_delivers :
    (encodes : Payload → Bool) (total : (p : Payload) → encodes p ≡ true)
    (loads : String → Option Bool) (message : Exception → String) (model : String)
    (request : Request) (identity : ResponseIdentity) (es : List GenerationEvent) (is_set : Bool)
    (a : Accumulator) (snapshot : GenerationSnapshot)
    → accept_all loads es (accumulator request) ≡ ok a
    → a.snapshot ≡ some snapshot
    → (bodies : List Body) × (r : ResponsesObject) × (last : Session) × (stream_chunks encodes loads
          message
          (ok (yields_all es))
          is_set
          (new_session responses model request identity)
        ≡ map (λ e. data_line (event e)) (number 0 bodies) ++ done_line ∷ [])
      × (consume_all bodies [] ≡ some r.output)
      × ((push_events encodes loads es (start (new_session responses model request identity)).1).2
          ≡ last)
      × (response_body last ≡ (ok (response r), last))
unfolding new_session end_stream
stream_delivers encodes total loads message model request identity es is_set a snapshot h k =
    let (bodies, u, p, replay, body) =
      deliver encodes total loads es (started model request identity) [] {b = a} snapshot refl refl
        (started-Mirrors model request identity) h k in
    let v =
      validated_backend_accepted model request identity encodes total loads es {a = a}
        {snapshot = snapshot} h k in
    (
      created model request identity ∷ bodies,
      final_object u snapshot,
      u,
      stream_chunks_lem model request identity encodes total loads message (ok (yields_all es))
            is_set v p
          ∙ ap
              (λ t.
                map data_line (
                  map event (number 0 (created model request identity ∷ []))
                  ++ map event (number 1 bodies))
                ++ t)
              (end_stream_lem encodes message is_set u (final_object u snapshot) body)
          ∙ ap (λ l. l ++ done_line ∷ []) (lines_lem model request identity bodies),
      consume_all-cons (created model request identity) bodies [] [] (unfold consume in refl)
          replay,
      ap (λ (r : Result (List Payload) × Session). (push_events encodes loads es r.1).2)
            (start_lem model request identity)
          ∙ ap (λ (r : List Payload × Result (Unit {0}) × Session). r.2) p,
      body,
    )

-- What may follow the events: nothing, the end marker, or one error event with the session's next number.
abbrev EndsWith : Session → List Line → Type 0
EndsWith u l =
    (l ≡ [])
    ⊎ (l ≡ done_line ∷ [])
    ⊎ ((b : Body) × (l
          ≡ data_line (event (record { sequence_number = u.sequence; body = b })) ∷ []))

handle-EndsWith :
    (encodes : Payload → Bool) (total : (p : Payload) → encodes p ≡ true)
    (message : Exception → String) (is_set : Bool) (x : Exception) (u : Session)
    → u.endpoint ≡ responses
    → EndsWith u (handle encodes message is_set x u)
unfolding handle error_event
handle-EndsWith encodes total message true x u h = inl refl
handle-EndsWith encodes total message false x u h =
    let e = sent_error message x in
    let b = error (lower_value e.code) e.message e.param in
    inr (inr (b, ground (arith, total (event (record { sequence_number = u.sequence; body = b })))))

end_stream-EndsWith :
    (encodes : Payload → Bool) (total : (p : Payload) → encodes p ≡ true)
    (message : Exception → String) (is_set : Bool) (ended : Result (Unit {0}))
    (raised : Option Exception) (u : Session)
    → u.endpoint ≡ responses
    → EndsWith u (end_stream encodes message is_set ended raised u)
unfolding end_stream
end_stream-EndsWith encodes total message is_set (err x) raised u h =
    handle-EndsWith encodes total message is_set x u h
end_stream-EndsWith encodes total message is_set (ok _) (some x) u h =
    handle-EndsWith encodes total message is_set x u h
end_stream-EndsWith encodes total message is_set (ok _) none u h =
    elim (Result-cases (response_body u).0) [
      | inl (b, e) ↦ inr (inl (rw (e, end_stream) refl))
      | inr (x, e) ↦ rw (e, end_stream) (handle-EndsWith encodes total message is_set x u h)
    ]

-- One more numbered line.
extend_lines :
    (bodies : List Body) (b : Body) (n : ℕ)
    → n ≡ length bodies
    → map (λ e. data_line (event e)) (number 0 bodies)
        ++ data_line (event (record { sequence_number = n; body = b })) ∷ []
      ≡ map (λ e. data_line (event e)) (number 0 (bodies ++ b ∷ [])) ++ []
unfolding number
extend_lines bodies b n h =
    let f = λ (e : Event). data_line (event e) in
    let counted : n ≡ 0 + length bodies = omega (arith, h) in
    ap (λ k. map f (number 0 bodies) ++ map f (number k (b ∷ []))) counted
    ∙ sym (map-append f (number 0 bodies) (number (0 + length bodies) (b ∷ [])))
    ∙ ap (map f) (sym (number-append 0 bodies (b ∷ [])))
    ∙ sym (append-nil (map f (number 0 (bodies ++ b ∷ []))))

-- If every payload has an encoding in UTF-8: whatever a backend yields, whenever cancellation is set and
-- wherever the backend raises, in `backend.stream` or at any event, or the session refuses an event, what
-- the Responses endpoint sends is a list of events that are numbered 0, 1, 2, …, the one that reports an
-- error included, with the end marker or nothing behind it.
pub stream_numbered :
    (encodes : Payload → Bool) (total : (p : Payload) → encodes p ≡ true)
    (loads : String → Option Bool) (message : Exception → String) (model : String)
    (request : Request) (identity : ResponseIdentity) (backend : Result BackendStream)
    (is_set : Bool)
    → (bodies : List Body) × (end : List Line) × (stream_chunks encodes loads message backend is_set
          (new_session responses model request identity)
        ≡ map (λ e. data_line (event e)) (number 0 bodies) ++ end)
      × ((end ≡ []) ⊎ (end ≡ done_line ∷ []))
unfolding new_session
stream_numbered encodes total loads message model request identity backend is_set =
    let begun = started model request identity in
    let events = (validated_backend_events backend).0 in
    let raised = (validated_backend_events backend).1 in
    let (bodies, ended, u, p, count, responding) =
      live-Numbered loads encodes total events begun [] refl refl
        (started-Mirrors model request identity) in
    let run =
      stream_chunks_lem model request identity encodes total loads message backend is_set refl p in
    let sent = lines_lem model request identity bodies in
    let tail = end_stream encodes message is_set ended raised u in
    let front =
      map (λ e. data_line (event e)) (number 0 (created model request identity ∷ bodies)) in
    let all = run ∙ ap (λ l. l ++ tail) sent in
    elim (end_stream-EndsWith encodes total message is_set ended raised u responding) [
      | inl none_left ↦ (
        created model request identity ∷ bodies,
        [],
        all ∙ ap (λ l. front ++ l) none_left,
        inl refl,
      )
      | inr (inl done) ↦ (
        created model request identity ∷ bodies,
        done_line ∷ [],
        all ∙ ap (λ l. front ++ l) done,
        inr refl,
      )
      | inr (inr (b, error_sent)) ↦ (
        (created model request identity ∷ bodies) ++ b ∷ [],
        [],
        all
            ∙ ap (λ l. front ++ l) error_sent
            ∙ extend_lines (created model request identity ∷ bodies) b u.sequence (omega arith),
        inl refl,
      )
    ]
