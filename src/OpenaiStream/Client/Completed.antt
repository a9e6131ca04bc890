-- ===== src/OpenaiStream/Client/Completed.antt =====
-- src/ams/api/openai_stream.py: the events that `_responses_completion_events` emits.
use mathlib.Core.List.{append_assoc}
use accumulative_matrix_swee.Prelude.{
  ℕ, zero, suc, ◌+◌, ◌≡◌, ◌<◌, refl, ap, sym, ◌∙◌, true, false, not, ◌&&◌, some, List, [], ◌∷◌,
  ◌++◌, map, arith, length, length-append, String, All,
}
use accumulative_matrix_swee.Errors.{ok}
use accumulative_matrix_swee.Generation.{
  OutputKind, message, reasoning, tool, Accumulator, ToolState, find_tool, concat, GenerationUsage,
  GenerationSnapshot, default_order, default_started, tool_calls, final_snapshot,
}
use accumulative_matrix_swee.Generation.Order.{in_order}
use accumulative_matrix_swee.OpenaiStream.Payloads.{
  completed, ResponsesObject, Item, Body, response_completed,
}
use accumulative_matrix_swee.OpenaiStream.Session.{
  Session, responses_event, responses_usage, responses_object,
}
use accumulative_matrix_swee.OpenaiStream.Push.{
  open_default, complete_response, responses_completion_events,
}
use accumulative_matrix_swee.OpenaiStream.Client.{consume, consume_all}
use accumulative_matrix_swee.OpenaiStream.Client.Texts.{items_eq_refl}
use accumulative_matrix_swee.OpenaiStream.Client.Amend.{map-eq-map}
use accumulative_matrix_swee.OpenaiStream.Client.Steps.{same_views}
use accumulative_matrix_swee.OpenaiStream.Client.Mirror.{
  view, Mirrors, number, number-append, Emits, consume_all-append, consume_all-cons,
}
use accumulative_matrix_swee.OpenaiStream.Client.Opened.{
  message_bodies, open_message_lem, consume-message_bodies,
}
use accumulative_matrix_swee.OpenaiStream.Client.Closed.{
  closed, IsFound, responses_output_lem, closings, close_outputs_lem, consume-closings,
}

-- The calls that stand in the order have started.
find_tool_of_lt :
    (i : ℕ) (ts : List ToolState) → i < length ts → (t : ToolState) × (find_tool i ts ≡ some t)
unfolding find_tool
find_tool_of_lt i [] h = absurd (omega arith)
find_tool_of_lt zero (t ∷ ts) h = (t, refl)
find_tool_of_lt (suc i) (t ∷ ts) h = find_tool_of_lt i ts (omega arith)

pub All-IsFound :
    (a : Accumulator) (order : List (OutputKind × ℕ))
    → ((i : ℕ) → in_order tool i order ≡ true → i < length a.tools)
    → All (IsFound a) order
unfolding in_order
All-IsFound a [] h = tt
All-IsFound a ((message, i) ∷ order) h = (tt, All-IsFound a order (λ j m. h j (ground arith)))
All-IsFound a ((reasoning, i) ∷ order) h = (tt, All-IsFound a order (λ j m. h j (ground arith)))
All-IsFound a ((tool, i) ∷ order) h = (
  find_tool_of_lt i a.tools (h i (ground arith)),
  All-IsFound a order (λ j m. h j (ground arith)),
)

-- The snapshot that completes an accumulator.
abbrev pub completion : Accumulator → GenerationUsage → String → GenerationSnapshot
completion a usage finish_reason = record {
  text = concat a.text;
  reasoning = concat a.reasoning;
  tool_calls = tool_calls 0 a.tools;
  output_order = default_order a.output_order;
  usage = usage;
  finish_reason = finish_reason;
}

abbrev pub with_completion : Session → GenerationUsage → String → Session
with_completion s usage finish_reason = record s {
  accumulator = record s.accumulator {
    text_started = default_started s.accumulator.output_order s.accumulator.text_started;
    output_order = default_order s.accumulator.output_order;
    snapshot = some (completion s.accumulator usage finish_reason);
  };
}

module _ (s : Session) (items : List Item) (m : Mirrors s items) (usage : GenerationUsage)
    (finish_reason : String) where
  pub final_views :
      (order : List (OutputKind × ℕ))
      → map (view s.identity s.accumulator) order
        ≡ map (view s.identity (with_completion s usage finish_reason).accumulator) order
  unfolding view
  final_views order =
      map-eq-map (view s.identity s.accumulator)
        (view s.identity (with_completion s usage finish_reason).accumulator) order
        (λ l j _. same_views s (with_completion s usage finish_reason) refl refl refl refl l j)

  -- A response with no output opens an empty message.
  pub open_empty :
      s.accumulator.output_order ≡ []
      → Emits
          (open_default
            (completion s.accumulator usage finish_reason)
            (with_completion s usage finish_reason))
          s
          (message_bodies s 0)
          (record (with_completion s usage finish_reason) {
            message_open = true;
            sequence = s.sequence + 2;
          })
        × (consume_all (message_bodies s 0) items
            ≡ some (map (view s.identity s.accumulator) (default_order s.accumulator.output_order)))
  unfolding open_default in_order view concat
  open_empty e =
      let shut : s.accumulator.text_started ≡ false =
        sym (m.ordered.messages 0) ∙ ap (in_order message 0) e in
      let no_items : items ≡ [] = m.mirrored ∙ ap (map (view s.identity s.accumulator)) e in
      let final = with_completion s usage finish_reason in
      let run = open_message_lem final [] (ap default_order e) refl (m.message_opened ∙ shut) in
      let opens = ap (λ o. in_order message 0 (default_order o)) e in
      let here = consume-message_bodies s [] in
      let no_text = m.no_text shut in ((ground arith, refl), rw (no_items, e) (rw no_text here))

  -- A response that has outputs opens nothing: its message is open, or it has none.
  pub open_nothing :
      (o : OutputKind × ℕ) (os : List (OutputKind × ℕ))
      → s.accumulator.output_order ≡ o ∷ os
      → Emits
          (open_default
            (completion s.accumulator usage finish_reason)
            (with_completion s usage finish_reason))
          s
          []
          (with_completion s usage finish_reason)
        × (consume_all [] items
            ≡ some (map (view s.identity s.accumulator) (default_order s.accumulator.output_order)))
  unfolding open_default number consume_all
  open_nothing o os e =
      let same : default_order s.accumulator.output_order ≡ s.accumulator.output_order =
        ap default_order e ∙ sym e in
      let known = m.ordered.messages 0 in
      let opened = m.message_opened in
      let nothing : (not s.message_open
            && in_order message 0 (default_order s.accumulator.output_order))
          ≡ false =
        rw same (ground arith) in
      ((rw (nothing, open_default) refl, omega arith), rw same (ap some m.mirrored))

-- The response that `response.completed` and the body of the response hold.
abbrev pub final_object : Session → GenerationSnapshot → ResponsesObject
final_object s snapshot =
    responses_object s completed (map (closed s.identity s.accumulator) snapshot.output_order)
      (some (responses_usage snapshot))

module _ (u : Session) (snapshot : GenerationSnapshot)
    (text : snapshot.text ≡ concat u.accumulator.text)
    (reasoning_text : snapshot.reasoning ≡ concat u.accumulator.reasoning)
    (found : All (IsFound u.accumulator) snapshot.output_order) where
  complete_response_lem : complete_response snapshot u ≡ (
    ok (record {
      sequence_number = u.sequence;
      body = response_completed (final_object u snapshot);
    }),
    record u { sequence = u.sequence + 1 },
  )
  unfolding complete_response responses_event
  complete_response_lem =
      rw
        (responses_output_lem u.identity u.accumulator snapshot snapshot.output_order text
          reasoning_text found)
        refl

  unfoldable pub final_bodies : List Body
  final_bodies =
      closings u.identity u.accumulator 0 snapshot.output_order
      ++ response_completed (final_object u snapshot) ∷ []

  -- Once the message is open if it has to be, the outputs are closed and the response is completed.
  pub close_and_complete :
      (s : Session) (bodies : List Body)
      → final_snapshot s.accumulator ≡ ok snapshot
      → Emits (open_default snapshot s) s bodies u
      → Emits
          (responses_completion_events s)
          s
          (bodies ++ final_bodies)
          (record u { sequence = u.sequence + length final_bodies })
  unfolding final_bodies responses_completion_events number responses_object
  close_and_complete s bodies done (run, count) =
      let cs = closings u.identity u.accumulator 0 snapshot.output_order in
      let closed_run =
        close_outputs_lem u snapshot 0 snapshot.output_order text reasoning_text found in
      let b = response_completed (final_object u snapshot) in
      let output =
        responses_output_lem u.identity u.accumulator snapshot snapshot.output_order text
          reasoning_text found in
      let numbered = number-append s.sequence bodies (cs ++ b ∷ []) in
      let numbered' = number-append u.sequence cs (b ∷ []) in
      let joined =
        append_assoc (number s.sequence bodies) (number u.sequence cs)
          (number (u.sequence + length cs) (b ∷ [])) in
      let counted = length-append cs (b ∷ []) in
      let counted' = length-append bodies (cs ++ b ∷ []) in
      (
        rw (done, run, closed_run, output)
            (rw (numbered, ← count) (rw (numbered', counted) (ground arith))),
        omega arith,
      )

  pub consume-final_bodies :
      consume_all final_bodies (map (view u.identity u.accumulator) snapshot.output_order)
      ≡ some (map (closed u.identity u.accumulator) snapshot.output_order)
  unfolding final_bodies consume consume_all responses_object
  consume-final_bodies =
      let items = map (closed u.identity u.accumulator) snapshot.output_order in
      consume_all-append (closings u.identity u.accumulator 0 snapshot.output_order)
        (response_completed (final_object u snapshot) ∷ [])
        (map (view u.identity u.accumulator) snapshot.output_order) items
        (consume-closings u.identity u.accumulator [] 0 snapshot.output_order refl found)
        (consume_all-cons (response_completed (final_object u snapshot)) [] items items
          (unfold consume in rw (items_eq_refl items) refl) refl)
