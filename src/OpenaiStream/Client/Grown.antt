-- ===== src/OpenaiStream/Client/Grown.antt =====
-- src/ams/api/openai_stream.py: an output in progress that grows by a delta, in a session and at a client.
use accumulative_matrix_swee.Prelude.{
  ℕ, ◌≡◌, refl, ap, sym, ◌∙◌, true, false, ◌&&◌, ◌==◌, some, [], ◌∷◌, ◌++◌, map, arith, String,
  eq_refl,
}
use accumulative_matrix_swee.Errors.{ok}
use accumulative_matrix_swee.Generation.{
  OutputKind, message, reasoning, tool, Accumulator, find_tool, concat,
}
use accumulative_matrix_swee.Generation.Order.{in_order, output_eq, IsOrdered}
use accumulative_matrix_swee.OpenaiStream.Payloads.{in_progress, message_item, reasoning_item}
use accumulative_matrix_swee.OpenaiStream.Session.{Session, index_from}
use accumulative_matrix_swee.OpenaiStream.Client.{amend, grow}
use accumulative_matrix_swee.OpenaiStream.Client.Texts.{concat-append}
use accumulative_matrix_swee.OpenaiStream.Client.Amend.{amend-map_start}
use accumulative_matrix_swee.OpenaiStream.Client.Mirror.{view, call_view}

-- The views of the outputs that a delta does not name.
module _ (s : Session) (a b : Accumulator) (ordered : IsOrdered a) where
  other_than_message :
      b.reasoning ≡ a.reasoning
      → b.tools ≡ a.tools
      → (l : OutputKind) (j : ℕ) → in_order l j a.output_order ≡ true
      → (output_eq message l && 0 == j) ≡ false
      → view s.identity a (l, j) ≡ view s.identity b (l, j)
  unfolding view
  other_than_message er et message j m d = absurd (ground (arith, ordered.messages j))
  other_than_message er et reasoning j m d =
      ap (λ r. reasoning_item s.identity.reasoning_id (concat r ∷ []) in_progress) (sym er)
  other_than_message er et tool j m d = ap (λ r. call_view s.identity j (find_tool j r)) (sym et)

  other_than_reasoning :
      b.text ≡ a.text
      → b.tools ≡ a.tools
      → (l : OutputKind) (j : ℕ) → in_order l j a.output_order ≡ true
      → (output_eq reasoning l && 0 == j) ≡ false
      → view s.identity a (l, j) ≡ view s.identity b (l, j)
  unfolding view
  other_than_reasoning ex et reasoning j m d = absurd (ground (arith, ordered.reasonings j))
  other_than_reasoning ex et message j m d =
      ap (λ r. message_item s.identity.message_id in_progress (concat r ∷ [])) (sym ex)
  other_than_reasoning ex et tool j m d = ap (λ r. call_view s.identity j (find_tool j r)) (sym et)

-- An output that is open takes the delta at its position.
module _ (s : Session) (a : Accumulator) (t : String) (ordered : IsOrdered a) where
  pub grow_message :
      (started : a.text_started ≡ true)
      → (p : ℕ) × (index_from 0 message 0 a.output_order ≡ ok p)
        × (amend p (grow s.identity.message_id t) (map (view s.identity a) a.output_order)
            ≡ some (map (view s.identity (record a { text = a.text ++ t ∷ [] })) a.output_order))
  unfolding view grow
  grow_message started =
      let b = record a { text = a.text ++ t ∷ [] } in
      amend-map_start message 0 (view s.identity a) (view s.identity b)
        (grow s.identity.message_id t) a.output_order ordered.unique (ordered.messages 0 ∙ started)
        (rw (eq_refl s.identity.message_id) (
          ap (λ r. some (message_item s.identity.message_id in_progress (r ∷ [])))
            (sym (concat-append a.text t))))
        (other_than_message s a b ordered refl refl)

  pub grow_reasoning :
      (started : a.reasoning_started ≡ true)
      → (p : ℕ) × (index_from 0 reasoning 0 a.output_order ≡ ok p)
        × (amend p (grow s.identity.reasoning_id t) (map (view s.identity a) a.output_order)
            ≡ some (
                map
                  (view s.identity (record a { reasoning = a.reasoning ++ t ∷ [] }))
                  a.output_order))
  unfolding view grow
  grow_reasoning started =
      let b = record a { reasoning = a.reasoning ++ t ∷ [] } in
      amend-map_start reasoning 0 (view s.identity a) (view s.identity b)
        (grow s.identity.reasoning_id t) a.output_order ordered.unique
        (ordered.reasonings 0 ∙ started)
        (rw (eq_refl s.identity.reasoning_id) (
          ap (λ r. some (reasoning_item s.identity.reasoning_id (r ∷ []) in_progress))
            (sym (concat-append a.reasoning t))))
        (other_than_reasoning s a b ordered refl refl)
