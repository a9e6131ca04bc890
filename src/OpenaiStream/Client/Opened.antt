-- ===== src/OpenaiStream/Client/Opened.antt =====
-- src/ams/api/openai_stream.py: the events that open the message and the reasoning.
use accumulative_matrix_swee.Prelude.{
  ℕ, ◌+◌, ◌≡◌, refl, true, false, some, List, [], ◌∷◌, ◌++◌, arith, length, eq_refl,
}
use accumulative_matrix_swee.Generation.{OutputKind, message, reasoning}
use accumulative_matrix_swee.Generation.Order.{in_order}
use accumulative_matrix_swee.OpenaiStream.Payloads.{
  in_progress, Item, message_item, reasoning_item, Body, output_item_added, content_part_added,
  reasoning_summary_part_added,
}
use accumulative_matrix_swee.OpenaiStream.Session.{
  Session, output_index, open_message, open_reasoning,
}
use accumulative_matrix_swee.OpenaiStream.Client.{consume, consume_all, add_part}
use accumulative_matrix_swee.OpenaiStream.Client.Amend.{amend-append}
use accumulative_matrix_swee.OpenaiStream.Client.Mirror.{
  responses_events_lem, index_from-append, Emits,
}

abbrev pub message_bodies : Session → ℕ → List Body
message_bodies s i =
    output_item_added i (message_item s.identity.message_id in_progress [])
    ∷ content_part_added s.identity.message_id i ""
    ∷ []

abbrev pub reasoning_bodies : Session → ℕ → List Body
reasoning_bodies s i =
    output_item_added i (reasoning_item s.identity.reasoning_id [] in_progress)
    ∷ reasoning_summary_part_added s.identity.reasoning_id i ""
    ∷ []

module _ (s : Session) (order : List (OutputKind × ℕ)) where
  pub open_message_lem :
      s.accumulator.output_order ≡ order ++ (message, 0) ∷ []
      → in_order message 0 order ≡ false
      → s.message_open ≡ false
      → Emits
          (open_message s)
          s
          (message_bodies s (length order))
          (record s { message_open = true; sequence = s.sequence + 2 })
  unfolding open_message output_index
  open_message_lem e fresh closed =
      let i = index_from-append 0 message 0 order fresh in
      let es =
        responses_events_lem (message_bodies s (length order)) (record s { message_open = true }) in
      (ground arith, ground arith)

  pub open_reasoning_lem :
      s.accumulator.output_order ≡ order ++ (reasoning, 0) ∷ []
      → in_order reasoning 0 order ≡ false
      → s.reasoning_open ≡ false
      → Emits
          (open_reasoning s)
          s
          (reasoning_bodies s (length order))
          (record s { reasoning_open = true; sequence = s.sequence + 2 })
  unfolding open_reasoning output_index
  open_reasoning_lem e fresh closed =
      let i = index_from-append 0 reasoning 0 order fresh in
      let es =
        responses_events_lem (reasoning_bodies s (length order))
          (record s { reasoning_open = true }) in
      (ground arith, ground arith)

module _ (s : Session) (items : List Item) where
  pub consume-message_bodies :
      consume_all (message_bodies s (length items)) items
      ≡ some (items ++ message_item s.identity.message_id in_progress ("" ∷ []) ∷ [])
  unfolding consume_all consume
  consume-message_bodies =
      let empty = message_item s.identity.message_id in_progress [] in
      let opened = message_item s.identity.message_id in_progress ("" ∷ []) in
      let e =
        amend-append items (add_part s.identity.message_id "") empty opened []
          (unfold add_part in rw (eq_refl s.identity.message_id) refl) in
      ground arith

  pub consume-reasoning_bodies :
      consume_all (reasoning_bodies s (length items)) items
      ≡ some (items ++ reasoning_item s.identity.reasoning_id ("" ∷ []) in_progress ∷ [])
  unfolding consume_all consume
  consume-reasoning_bodies =
      let empty = reasoning_item s.identity.reasoning_id [] in_progress in
      let opened = reasoning_item s.identity.reasoning_id ("" ∷ []) in_progress in
      let e =
        amend-append items (add_part s.identity.reasoning_id "") empty opened []
          (unfold add_part in rw (eq_refl s.identity.reasoning_id) refl) in
      ground arith
