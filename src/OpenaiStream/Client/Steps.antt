-- ===== src/OpenaiStream/Client/Steps.antt =====
-- src/ams/api/openai_stream.py: the first delta of a message or a reasoning, which opens it.
use accumulative_matrix_swee.Prelude.{
  ℕ, ◌+◌, ◌≡◌, refl, ap, ◌∙◌, true, false, List, [], ◌∷◌, ◌++◌, map, arith, length, length-map,
  String,
}
use accumulative_matrix_swee.Generation.{
  OutputKind, message, reasoning, tool, text_delta, reasoning_delta, concat,
}
use accumulative_matrix_swee.Generation.Order.{IsOrdered}
use accumulative_matrix_swee.OpenaiStream.Payloads.{Item, message_item, reasoning_item, in_progress}
use accumulative_matrix_swee.OpenaiStream.Session.{Session}
use accumulative_matrix_swee.OpenaiStream.Push.{encode_responses}
use accumulative_matrix_swee.OpenaiStream.Client.Mirror.{view, Mirrors}
use accumulative_matrix_swee.OpenaiStream.Client.Amend.{map-append_one}
use accumulative_matrix_swee.OpenaiStream.Client.Opened.{
  message_bodies, open_message_lem, consume-message_bodies, reasoning_bodies, open_reasoning_lem,
  consume-reasoning_bodies,
}
use accumulative_matrix_swee.OpenaiStream.Client.Deltas.{
  Follows, with_text, with_reasoning, text_delta_lem, reasoning_delta_lem,
}

abbrev pub with_message : Session → Session
with_message s = record s {
  accumulator = record s.accumulator {
    text_started = true;
    output_order = s.accumulator.output_order ++ (message, 0) ∷ [];
  };
}

abbrev pub with_reasoning_output : Session → Session
with_reasoning_output s = record s {
  accumulator = record s.accumulator {
    reasoning_started = true;
    output_order = s.accumulator.output_order ++ (reasoning, 0) ∷ [];
  };
}

-- The views depend on the texts and the calls only.
pub same_views :
    (s u : Session)
    → s.identity ≡ u.identity
    → s.accumulator.text ≡ u.accumulator.text
    → s.accumulator.reasoning ≡ u.accumulator.reasoning
    → s.accumulator.tools ≡ u.accumulator.tools
    → (l : OutputKind) (j : ℕ)
    → view s.identity s.accumulator (l, j) ≡ view u.identity u.accumulator (l, j)
unfolding view
same_views s u ei et er ec message j = rw (ei, et) refl
same_views s u ei et er ec reasoning j = rw (ei, er) refl
same_views s u ei et er ec tool j = rw (ei, ec) refl

module _ (s : Session) (items : List Item) (m : Mirrors s items) where
  message_position : length items ≡ length s.accumulator.output_order
  message_position =
      ap length m.mirrored ∙ length-map (view s.identity s.accumulator) s.accumulator.output_order

  -- The client's items once the message is there with no text.
  message_mirror :
      s.accumulator.text_started ≡ false
      → items ++ message_item s.identity.message_id in_progress ("" ∷ []) ∷ []
        ≡ map
            (view s.identity (with_message s).accumulator)
            (with_message s).accumulator.output_order
  unfolding view concat
  message_mirror n =
      map-append_one (view s.identity s.accumulator) (view s.identity (with_message s).accumulator)
        items s.accumulator.output_order message 0
        (message_item s.identity.message_id in_progress ("" ∷ [])) m.mirrored
        (λ l j _. same_views s (with_message s) refl refl refl refl l j) (rw (m.no_text n) refl)

  pub text_first :
      (t : String)
      → IsOrdered (with_message s).accumulator
      → s.accumulator.text_started ≡ false
      → Follows
          (encode_responses (text_delta t) (with_text (with_message s) t))
          (with_text (with_message s) t)
          items
  text_first t ordered n =
      let open_s = record (with_message s) { message_open = true; sequence = s.sequence + 2 } in
      let s' = with_text (with_message s) t in
      let opened = items ++ message_item s.identity.message_id in_progress ("" ∷ []) ∷ [] in
      let mirror : Mirrors open_s opened = record {
        ordered = ordered;
        mirrored = message_mirror n;
        message_opened = refl;
        reasoning_opened = m.reasoning_opened;
        no_text = λ f. absurd (cc);
        no_reasoning = m.no_reasoning;
      } in
      text_delta_lem open_s opened t mirror refl s' items (message_bodies s' (length items))
        (refl, refl, refl, refl)
        (rw message_position (
          open_message_lem s' s.accumulator.output_order refl (m.ordered.messages 0 ∙ ground arith)
            (m.message_opened ∙ n)))
        (consume-message_bodies s' items)

module _ (s : Session) (items : List Item) (m : Mirrors s items) where
  -- The client's items once the reasoning is there with no text.
  reasoning_mirror :
      s.accumulator.reasoning_started ≡ false
      → items ++ reasoning_item s.identity.reasoning_id ("" ∷ []) in_progress ∷ []
        ≡ map
            (view s.identity (with_reasoning_output s).accumulator)
            (with_reasoning_output s).accumulator.output_order
  unfolding view concat
  reasoning_mirror n =
      map-append_one (view s.identity s.accumulator)
        (view s.identity (with_reasoning_output s).accumulator) items s.accumulator.output_order
        reasoning 0 (reasoning_item s.identity.reasoning_id ("" ∷ []) in_progress) m.mirrored
        (λ l j _. same_views s (with_reasoning_output s) refl refl refl refl l j)
        (rw (m.no_reasoning n) refl)

  pub reasoning_first :
      (t : String)
      → IsOrdered (with_reasoning_output s).accumulator
      → s.accumulator.reasoning_started ≡ false
      → Follows
          (encode_responses (reasoning_delta t) (with_reasoning (with_reasoning_output s) t))
          (with_reasoning (with_reasoning_output s) t)
          items
  reasoning_first t ordered n =
      let open_s = record (with_reasoning_output s) {
        reasoning_open = true;
        sequence = s.sequence + 2;
      } in
      let s' = with_reasoning (with_reasoning_output s) t in
      let opened = items ++ reasoning_item s.identity.reasoning_id ("" ∷ []) in_progress ∷ [] in
      let mirror : Mirrors open_s opened = record {
        ordered = ordered;
        mirrored = reasoning_mirror n;
        reasoning_opened = refl;
        message_opened = m.message_opened;
        no_text = m.no_text;
        no_reasoning = λ f. absurd (cc);
      } in
      reasoning_delta_lem open_s opened t mirror refl s' items (reasoning_bodies s' (length items))
        (refl, refl, refl, refl)
        (rw (message_position s items m) (
          open_reasoning_lem s' s.accumulator.output_order refl
            (m.ordered.reasonings 0 ∙ ground arith) (m.reasoning_opened ∙ n)))
        (consume-reasoning_bodies s' items)
