-- ===== src/OpenaiStream/Client/Replay.antt =====
-- src/ams/api/openai_stream.py: one accepted event that is not the last, at a session and at a client.
use mathlib.Core.Path.{subst}
use accumulative_matrix_swee.Prelude.{
  ◌≡◌, refl, sym, ◌∙◌, Bool, Bool-cases, true, Option, Option-cases, none, List, [], ◌∷◌, ◌++◌,
  arith, String, inl, inr,
}
use accumulative_matrix_swee.Errors.{ok}
use accumulative_matrix_swee.Generation.{
  message, reasoning, Accumulator, GenerationEvent, text_delta, reasoning_delta, tool_call_start,
  tool_arguments_delta, generation_completed, find_tool, accept_open, start_output,
}
use accumulative_matrix_swee.Generation.Transaction.{accept_when_open}
use accumulative_matrix_swee.Generation.Order.{
  IsOrdered, text_lem, reasoning_lem, tool_call_start_lem, accept_open-IsOrdered,
}
use accumulative_matrix_swee.OpenaiStream.Payloads.{Item}
use accumulative_matrix_swee.OpenaiStream.Session.{Session, open_message, open_reasoning}
use accumulative_matrix_swee.OpenaiStream.Push.{encode_responses, push_responses}
use accumulative_matrix_swee.OpenaiStream.Client.{consume_all}
use accumulative_matrix_swee.OpenaiStream.Client.Mirror.{Mirrors, number}
use accumulative_matrix_swee.OpenaiStream.Client.Deltas.{
  Follows, with_text, with_reasoning, text_delta_lem, reasoning_delta_lem,
}
use accumulative_matrix_swee.OpenaiStream.Client.Steps.{
  with_message, with_reasoning_output, text_first, reasoning_first,
}
use accumulative_matrix_swee.OpenaiStream.Client.Tools.{with_argument, call_step, argument_step}

-- The events that do not end a stream.
abbrev pub IsDelta : GenerationEvent → Type 0
IsDelta (generation_completed _ _) = ⊥
IsDelta (text_delta _) = Unit
IsDelta (reasoning_delta _) = Unit
IsDelta (tool_call_start _ _ _) = Unit
IsDelta (tool_arguments_delta _ _) = Unit

-- A session that has another accumulator.
abbrev pub with_accumulator : Session → Accumulator → Session
with_accumulator s a = record s { accumulator = a }

-- The order does not depend on the texts.
IsOrdered-texts :
    (a : Accumulator) (texts thoughts : List String)
    → IsOrdered (record a { text = texts; reasoning = thoughts })
    → IsOrdered a
IsOrdered-texts a texts thoughts h = record {
  messages = h.messages;
  reasonings = h.reasonings;
  tools = h.tools;
  unique = h.unique;
  calls = h.calls;
  declared = h.declared;
}

module _ (s : Session) (items : List Item) (m : Mirrors s items) where
  text_step :
      (t : String) (a : Accumulator)
      → IsOrdered a
      → a ≡ record s.accumulator {
        text = s.accumulator.text ++ t ∷ [];
        text_started = true;
        output_order = start_output s.accumulator.text_started message s.accumulator.output_order;
      }
      → Follows
          (encode_responses (text_delta t) (with_accumulator s a))
          (with_accumulator s a)
          items
  unfolding open_message number consume_all
  text_step t a ordered e =
      let goal = λ (b : Accumulator).
        Follows (encode_responses (text_delta t) (with_accumulator s b)) (with_accumulator s b)
          items in
      elim (Bool-cases s.accumulator.text_started) [
        | inl started ↦
            let same : a ≡ (with_text s t).accumulator = e ∙ ground arith in
            let opened = m.message_opened ∙ started in
            subst goal (sym same) (
              text_delta_lem s items t m started (with_text s t) items [] (refl, refl, refl, refl)
                (ground arith, omega arith) refl)
        | inr n ↦
            let same : a ≡ (with_text (with_message s) t).accumulator = e ∙ ground arith in
            subst goal (sym same) (
              text_first s items m t
                (IsOrdered-texts (with_message s).accumulator _ s.accumulator.reasoning
                  (subst IsOrdered same ordered))
                n)
      ]

  reasoning_step :
      (t : String) (a : Accumulator)
      → IsOrdered a
      → a ≡ record s.accumulator {
        reasoning = s.accumulator.reasoning ++ t ∷ [];
        reasoning_started = true;
        output_order =
            start_output s.accumulator.reasoning_started reasoning s.accumulator.output_order;
      }
      → Follows
          (encode_responses (reasoning_delta t) (with_accumulator s a))
          (with_accumulator s a)
          items
  unfolding open_reasoning number consume_all
  reasoning_step t a ordered e =
      let goal = λ (b : Accumulator).
        Follows (encode_responses (reasoning_delta t) (with_accumulator s b)) (with_accumulator s b)
          items in
      elim (Bool-cases s.accumulator.reasoning_started) [
        | inl started ↦
            let same : a ≡ (with_reasoning s t).accumulator = e ∙ ground arith in
            let opened = m.reasoning_opened ∙ started in
            subst goal (sym same) (
              reasoning_delta_lem s items t m started (with_reasoning s t) items []
                (refl, refl, refl, refl) (ground arith, omega arith) refl)
        | inr n ↦
            let same : a ≡ (with_reasoning (with_reasoning_output s) t).accumulator =
              e ∙ ground arith in
            subst goal (sym same) (
              reasoning_first s items m t
                (IsOrdered-texts (with_reasoning_output s).accumulator s.accumulator.text _
                  (subst IsOrdered same ordered))
                n)
      ]

-- The session after an event that is accepted, before anything is encoded.
abbrev pub accepted : (String → Option Bool) → Session → GenerationEvent → Session
accepted loads s e = with_accumulator s (accept_open loads e s.accumulator).1

module _ (loads : String → Option Bool) (s : Session) (items : List Item)
    (m : Mirrors s items) where
  delta_step :
      (e : GenerationEvent)
      → IsDelta e
      → (accept_open loads e s.accumulator).0 ≡ ok tt
      → Follows (encode_responses e (accepted loads s e)) (accepted loads s e) items
  unfolding accept_open
  delta_step (text_delta t) d h =
      text_step s items m t (accept_open loads (text_delta t) s.accumulator).1
        (accept_open-IsOrdered loads (text_delta t) s.accumulator m.ordered h)
        (text_lem loads t s.accumulator h)
  delta_step (reasoning_delta t) d h =
      reasoning_step s items m t (accept_open loads (reasoning_delta t) s.accumulator).1
        (accept_open-IsOrdered loads (reasoning_delta t) s.accumulator m.ordered h)
        (reasoning_lem loads t s.accumulator h)
  delta_step (tool_call_start j c n) d h =
      let goal = λ (b : Accumulator).
        Follows (encode_responses (tool_call_start j c n) (with_accumulator s b))
          (with_accumulator s b) items in
      let (same, ej, _, _) = tool_call_start_lem loads j c n s.accumulator h in
      let ordered = accept_open-IsOrdered loads (tool_call_start j c n) s.accumulator m.ordered h in
      subst goal (sym same) (call_step s items m j c n (subst IsOrdered same ordered) ej)
  delta_step (tool_arguments_delta j d) _ h =
      elim (Option-cases (find_tool j s.accumulator.tools)) [
        | inl e ↦ absurd (ground arith)
        | inr (t, e) ↦
            let goal = λ (b : Accumulator).
              Follows (encode_responses (tool_arguments_delta j d) (with_accumulator s b))
                (with_accumulator s b) items in
            let same : (accept_open loads (tool_arguments_delta j d) s.accumulator).1
                ≡ (with_argument s j d).accumulator =
              ground arith in
            let ordered =
              accept_open-IsOrdered loads (tool_arguments_delta j d) s.accumulator m.ordered h in
            subst goal (sym same) (argument_step s items m j d (subst IsOrdered same ordered) e)
      ]
  delta_step (generation_completed u f) d h = absurd d

  pub push_accepted :
      (e : GenerationEvent)
      → s.accumulator.snapshot ≡ none
      → (accept_open loads e s.accumulator).0 ≡ ok tt
      → push_responses loads e s ≡ encode_responses e (accepted loads s e)
  unfolding push_responses
  push_accepted e live h = rw (accept_when_open loads e s.accumulator live, h) refl

  pub push_delta :
      (e : GenerationEvent)
      → IsDelta e
      → s.accumulator.snapshot ≡ none
      → (accept_open loads e s.accumulator).0 ≡ ok tt
      → Follows (push_responses loads e s) (accepted loads s e) items
  push_delta e d live h =
      subst (λ run. Follows run (accepted loads s e) items) (sym (push_accepted e live h))
        (delta_step e d h)
