-- ===== src/OpenaiStream/Client/Deltas.antt =====
-- src/ams/api/openai_stream.py: the events that `_push_responses` emits for a delta.
use accumulative_matrix_swee.Prelude.{
  ℕ, ◌+◌, ◌≡◌, sym, refl, true, some, List, [], ◌∷◌, ◌++◌, map, String,
}
use accumulative_matrix_swee.Errors.{ok, Result}
use accumulative_matrix_swee.Generation.{message, reasoning, text_delta, reasoning_delta}
use accumulative_matrix_swee.OpenaiStream.Payloads.{
  ResponseIdentity, Item, Body, Event, output_text_delta, reasoning_summary_text_delta,
}
use accumulative_matrix_swee.OpenaiStream.Session.{
  Session, index_from, output_index, responses_event, open_message, open_reasoning,
}
use accumulative_matrix_swee.OpenaiStream.Push.{encode_responses}
use accumulative_matrix_swee.OpenaiStream.Client.{consume, consume_all}
use accumulative_matrix_swee.OpenaiStream.Client.Mirror.{
  view, Mirrors, number, Emits, Emits-append, consume_all-append,
}
use accumulative_matrix_swee.OpenaiStream.Client.Grown.{grow_message, grow_reasoning}

-- What no encoder changes.
abbrev pub Same : Session → Session → Type 0
Same s u =
    (u.accumulator ≡ s.accumulator)
    × (u.identity ≡ s.identity)
    × (u.endpoint ≡ s.endpoint)
    × (u.model ≡ s.model)

-- What is shown of a call: the events it emits, and the mirror that a client then holds.
abbrev pub Follows : Result (List Event) × Session → Session → List Item → Type 0
Follows run before items =
    (bodies : List Body) × (after : Session) × (items' : List Item) × Emits run before bodies after
    × (consume_all bodies items ≡ some items')
    × Mirrors after items'
    × Same before after

-- A session whose accumulator has one more delta.
abbrev pub with_text : Session → String → Session
with_text s t = record s {
  accumulator = record s.accumulator { text = s.accumulator.text ++ t ∷ [] };
}

abbrev pub with_reasoning : Session → String → Session
with_reasoning s t = record s {
  accumulator = record s.accumulator { reasoning = s.accumulator.reasoning ++ t ∷ [] };
}

encode_text_lem :
    (s u : Session) (t : String) (es : List Event) (p : ℕ) {id : ResponseIdentity}
    → s.identity ≡ id
    → open_message s ≡ (ok es, u)
    → index_from 0 message 0 u.accumulator.output_order ≡ ok p
    → encode_responses (text_delta t) s ≡ (
      ok (
          es
          ++ record { sequence_number = u.sequence; body = output_text_delta id.message_id p t }
            ∷ []),
      record u { sequence = u.sequence + 1 },
    )
unfolding encode_responses output_index responses_event
encode_text_lem s u t es p same o i = rw (o, encode_responses) (rw (i, output_index) (rw same refl))

-- `open` is the session once the message is open, without the new text.
module _ (open_s : Session) (items : List Item) (t : String) (m : Mirrors open_s items)
    (started : open_s.accumulator.text_started ≡ true) where
  pub text_delta_lem :
      (s : Session) (before : List Item) (bodies : List Body)
      → Same s (with_text open_s t)
      → Emits (open_message s) s bodies (with_text open_s t)
      → consume_all bodies before ≡ some items
      → Follows (encode_responses (text_delta t) s) s before
  unfolding number consume_all consume
  text_delta_lem s before bodies same (run, count) replay =
      let (p, ei, ea) = grow_message open_s open_s.accumulator t m.ordered started in
      let delta = output_text_delta open_s.identity.message_id p t in
      let encoded =
        encode_text_lem s (with_text open_s t) t (number s.sequence bodies) p (sym same.1) run ei in
      let after = record (with_text open_s t) { sequence = (with_text open_s t).sequence + 1 } in
      (
        bodies ++ delta ∷ [],
        after,
        map (view open_s.identity after.accumulator) open_s.accumulator.output_order,
        Emits-append s (with_text open_s t) bodies delta encoded count,
        consume_all-append bodies (delta ∷ []) before items replay
            (rw (m.mirrored, consume_all, consume, ea) refl),
        record {
          ordered = record {
            messages = m.ordered.messages;
            reasonings = m.ordered.reasonings;
            tools = m.ordered.tools;
            unique = m.ordered.unique;
            calls = m.ordered.calls;
            declared = m.ordered.declared;
          };
          mirrored = refl;
          message_opened = m.message_opened;
          reasoning_opened = m.reasoning_opened;
          no_text = λ n. absurd (cc);
          no_reasoning = m.no_reasoning;
        },
        same,
      )

encode_reasoning_lem :
    (s u : Session) (t : String) (es : List Event) (p : ℕ) {id : ResponseIdentity}
    → s.identity ≡ id
    → open_reasoning s ≡ (ok es, u)
    → index_from 0 reasoning 0 u.accumulator.output_order ≡ ok p
    → encode_responses (reasoning_delta t) s ≡ (
      ok (
          es
          ++ record {
            sequence_number = u.sequence;
            body = reasoning_summary_text_delta id.reasoning_id p t;
          }
            ∷ []),
      record u { sequence = u.sequence + 1 },
    )
unfolding encode_responses output_index responses_event
encode_reasoning_lem s u t es p same o i =
    rw (o, encode_responses) (rw (i, output_index) (rw same refl))

-- `open` is the session once the reasoning is open, without the new text.
module _ (open_s : Session) (items : List Item) (t : String) (m : Mirrors open_s items)
    (started : open_s.accumulator.reasoning_started ≡ true) where
  pub reasoning_delta_lem :
      (s : Session) (before : List Item) (bodies : List Body)
      → Same s (with_reasoning open_s t)
      → Emits (open_reasoning s) s bodies (with_reasoning open_s t)
      → consume_all bodies before ≡ some items
      → Follows (encode_responses (reasoning_delta t) s) s before
  unfolding number consume_all consume
  reasoning_delta_lem s before bodies same (run, count) replay =
      let (p, ei, ea) = grow_reasoning open_s open_s.accumulator t m.ordered started in
      let delta = reasoning_summary_text_delta open_s.identity.reasoning_id p t in
      let encoded =
        encode_reasoning_lem s (with_reasoning open_s t) t (number s.sequence bodies) p (sym same.1)
          run ei in
      let after = record (with_reasoning open_s t) {
        sequence = (with_reasoning open_s t).sequence + 1;
      } in
      (
        bodies ++ delta ∷ [],
        after,
        map (view open_s.identity after.accumulator) open_s.accumulator.output_order,
        Emits-append s (with_reasoning open_s t) bodies delta encoded count,
        consume_all-append bodies (delta ∷ []) before items replay
            (rw (m.mirrored, consume_all, consume, ea) refl),
        record {
          ordered = record {
            messages = m.ordered.messages;
            reasonings = m.ordered.reasonings;
            tools = m.ordered.tools;
            unique = m.ordered.unique;
            calls = m.ordered.calls;
            declared = m.ordered.declared;
          };
          mirrored = refl;
          message_opened = m.message_opened;
          reasoning_opened = m.reasoning_opened;
          no_text = m.no_text;
          no_reasoning = λ n. absurd (cc);
        },
        same,
      )
