-- ===== src/OpenaiStream/Client/Closed.antt =====
-- src/ams/api/openai_stream.py: the events that close the outputs of a completed response.
use mathlib.Core.Path.{subst}
use mathlib.Core.List.{append_assoc}
use accumulative_matrix_swee.Prelude.{
  ℕ, ◌+◌, ◌≡◌, refl, ap, ◌∙◌, Option, none, some, List, [], ◌∷◌, ◌++◌, map, arith, length,
  length-append, eq_refl, All,
}
use accumulative_matrix_swee.Errors.{ok}
use accumulative_matrix_swee.Generation.{
  OutputKind, message, reasoning, tool, Accumulator, ToolState, find_tool, concat, tool_call,
  call_of, GenerationSnapshot,
}
use accumulative_matrix_swee.OpenaiStream.Payloads.{
  ResponseIdentity, tool_item_id, completed, Item, message_item, reasoning_item, function_call,
  Body, output_text_done, content_part_done, reasoning_summary_text_done,
  reasoning_summary_part_done, function_call_arguments_done, output_item_done,
}
use accumulative_matrix_swee.OpenaiStream.Session.{
  Session, close_output, close_outputs, responses_output, function_item,
}
use accumulative_matrix_swee.OpenaiStream.Client.{
  amend, consume, consume_all, confirm, confirm_call, finish, complete,
}
use accumulative_matrix_swee.OpenaiStream.Client.Texts.{item_eq_refl}
use accumulative_matrix_swee.OpenaiStream.Client.Amend.{amend-append}
use accumulative_matrix_swee.OpenaiStream.Client.Mirror.{
  view, call_view, number, responses_events_lem, consume_all-append, consume_all-cons,
  number-append,
}

unfoldable pub closed_call : ResponseIdentity → ℕ → Option ToolState → Item
closed_call identity i none = function_call "" "" "" "" completed
closed_call identity i (some t) =
    function_call (tool_item_id identity i) t.call_id t.name (concat t.arguments) completed

-- An output of an accumulator, as a completed item.
unfoldable pub closed : ResponseIdentity → Accumulator → OutputKind × ℕ → Item
unfolding closed_call
closed identity a (message, _) = message_item identity.message_id completed (concat a.text ∷ [])
closed identity a (reasoning, _) =
    reasoning_item identity.reasoning_id (concat a.reasoning ∷ []) completed
closed identity a (tool, i) = closed_call identity i (find_tool i a.tools)

-- A call that stands in an order has started.
abbrev pub IsFound : Accumulator → OutputKind × ℕ → Type 0
IsFound a (message, _) = Unit
IsFound a (reasoning, _) = Unit
IsFound a (tool, i) = (t : ToolState) × (find_tool i a.tools ≡ some t)

tool_call_lem :
    (i : ℕ) (a : Accumulator) {t : ToolState}
    → find_tool i a.tools ≡ some t
    → tool_call i a ≡ ok (call_of i t)
unfolding tool_call
tool_call_lem i a found = rw (found, tool_call) refl

pub responses_output_lem :
    (identity : ResponseIdentity) (a : Accumulator) (snapshot : GenerationSnapshot)
    (order : List (OutputKind × ℕ))
    → snapshot.text ≡ concat a.text
    → snapshot.reasoning ≡ concat a.reasoning
    → All (IsFound a) order
    → responses_output identity snapshot order a ≡ ok (map (closed identity a) order)
unfolding responses_output closed closed_call function_item
responses_output_lem identity a snapshot [] et er h = refl
responses_output_lem identity a snapshot ((message, i) ∷ order) et er h =
    rw (responses_output_lem identity a snapshot order et er h.1, et) refl
responses_output_lem identity a snapshot ((reasoning, i) ∷ order) et er h =
    rw (responses_output_lem identity a snapshot order et er h.1, er) refl
responses_output_lem identity a snapshot ((tool, i) ∷ order) et er h =
    rw (tool_call_lem i a h.0.1, responses_output)
      (rw (responses_output_lem identity a snapshot order et er h.1) (rw (h.0.1, closed) refl))

-- The bodies that close one output, and what they do at a client that has assembled it.
unfoldable pub closing : ResponseIdentity → Accumulator → ℕ → OutputKind × ℕ → List Body
closing identity a n (message, i) =
    output_text_done identity.message_id n (concat a.text)
    ∷ content_part_done identity.message_id n (concat a.text)
    ∷ output_item_done n (closed identity a (message, i))
    ∷ []
closing identity a n (reasoning, i) =
    reasoning_summary_text_done identity.reasoning_id n (concat a.reasoning)
    ∷ reasoning_summary_part_done identity.reasoning_id n (concat a.reasoning)
    ∷ output_item_done n (closed identity a (reasoning, i))
    ∷ []
closing identity a n (tool, i) = elim (find_tool i a.tools) [
  | none ↦ []
  | some t ↦
      function_call_arguments_done (tool_item_id identity i) n t.name (concat t.arguments)
      ∷ output_item_done n (closed_call identity i (some t))
      ∷ []
]

close_output_lem :
    (s : Session) (snapshot : GenerationSnapshot) (n : ℕ) (o : OutputKind × ℕ)
    → snapshot.text ≡ concat s.accumulator.text
    → snapshot.reasoning ≡ concat s.accumulator.reasoning
    → IsFound s.accumulator o
    → close_output snapshot n o.0 o.1 s ≡ (
      ok (number s.sequence (closing s.identity s.accumulator n o)),
      record s { sequence = s.sequence + length (closing s.identity s.accumulator n o) },
    )
unfolding close_output closing closed closed_call function_item
close_output_lem s snapshot n (message, i) et er h =
    rw (et, responses_events_lem (closing s.identity s.accumulator n (message, i)) s) refl
close_output_lem s snapshot n (reasoning, i) et er h =
    rw (er, responses_events_lem (closing s.identity s.accumulator n (reasoning, i)) s) refl
close_output_lem s snapshot n (tool, i) et er (t, found) =
    rw (tool_call_lem i s.accumulator found, close_output)
      (rw (found, closing)
        (responses_events_lem
          (function_call_arguments_done (tool_item_id s.identity i) n t.name (concat t.arguments)
            ∷ output_item_done n (closed_call s.identity i (some t))
            ∷ [])
          s))

-- Two events that confirm the text of an item in progress, and the one that completes it.
consume-done :
    (done rest : List Item) (v c : Item) (b b' : Body) (same : Item → Option Item)
    → ((items : List Item) → consume b items ≡ amend (length done) same items)
    → ((items : List Item) → consume b' items ≡ amend (length done) same items)
    → same v ≡ some v
    → finish c v ≡ some c
    → consume_all (b ∷ b' ∷ output_item_done (length done) c ∷ []) (done ++ v ∷ rest)
      ≡ some (done ++ c ∷ rest)
unfolding consume_all
consume-done done rest v c b b' same eb eb' ev ec =
    let kept = amend-append done same v v rest ev in
    let ended = amend-append done (finish c) v c rest ec in
    let items = done ++ v ∷ rest in
    consume_all-cons b (b' ∷ output_item_done (length done) c ∷ []) items items (eb items ∙ kept) (
      consume_all-cons b' (output_item_done (length done) c ∷ []) items items (eb' items ∙ kept) (
        consume_all-cons (output_item_done (length done) c) [] items (done ++ c ∷ rest)
          (unfold consume in ended) refl))

consume-closing :
    (identity : ResponseIdentity) (a : Accumulator) (done rest : List Item) (o : OutputKind × ℕ)
    → IsFound a o
    → consume_all (closing identity a (length done) o) (done ++ view identity a o ∷ rest)
      ≡ some (done ++ closed identity a o ∷ rest)
unfolding closing closed view finish confirm confirm_call complete consume_all
consume-closing identity a done rest (message, i) found =
    let id = identity.message_id in
    let text = concat a.text in
    consume-done done rest (view identity a (message, i)) (closed identity a (message, i))
      (output_text_done id (length done) text) (content_part_done id (length done) text)
      (confirm id text) (λ items. unfold consume in refl) (λ items. unfold consume in refl)
      (rw (eq_refl id, eq_refl text) refl) (rw (item_eq_refl (closed identity a (message, i))) refl)
consume-closing identity a done rest (reasoning, i) found =
    let id = identity.reasoning_id in
    let text = concat a.reasoning in
    consume-done done rest (view identity a (reasoning, i)) (closed identity a (reasoning, i))
      (reasoning_summary_text_done id (length done) text)
      (reasoning_summary_part_done id (length done) text) (confirm id text)
      (λ items. unfold consume in refl) (λ items. unfold consume in refl)
      (rw (eq_refl id, eq_refl text) refl)
      (rw (item_eq_refl (closed identity a (reasoning, i))) refl)
consume-closing identity a done rest (tool, i) (t, found) =
    let id = tool_item_id identity i in
    let v = call_view identity i (some t) in
    let c = closed_call identity i (some t) in
    let arguments = concat t.arguments in
    let kept =
      amend-append done (confirm_call id t.name arguments) v v rest
        (rw (eq_refl id, eq_refl t.name, eq_refl arguments) refl) in
    let ended = amend-append done (finish c) v c rest (rw (item_eq_refl c) refl) in
    let items = done ++ v ∷ rest in
    rw (found, closing, view, closed)
      (consume_all-cons (function_call_arguments_done id (length done) t.name arguments)
        (output_item_done (length done) c ∷ []) items items (unfold consume in kept)
        (consume_all-cons (output_item_done (length done) c) [] items (done ++ c ∷ rest)
          (unfold consume in ended) refl))

-- The bodies that close the outputs of an order, from a position on.
unfoldable pub closings : ResponseIdentity → Accumulator → ℕ → List (OutputKind × ℕ) → List Body
unfolding closing
closings identity a n [] = []
closings identity a n (o ∷ order) = closing identity a n o ++ closings identity a (n + 1) order

pub close_outputs_lem :
    (s : Session) (snapshot : GenerationSnapshot) (n : ℕ) (order : List (OutputKind × ℕ))
    → snapshot.text ≡ concat s.accumulator.text
    → snapshot.reasoning ≡ concat s.accumulator.reasoning
    → All (IsFound s.accumulator) order
    → close_outputs snapshot n order s ≡ (
      ok (number s.sequence (closings s.identity s.accumulator n order)),
      record s { sequence = s.sequence + length (closings s.identity s.accumulator n order) },
    )
unfolding close_outputs closings number
close_outputs_lem s snapshot n [] et er h = ground arith
close_outputs_lem s snapshot n (o ∷ order) et er h =
    let here = closing s.identity s.accumulator n o in
    let there = closings s.identity s.accumulator (n + 1) order in
    let s' = record s { sequence = s.sequence + length here } in
    rw
      (
        close_output_lem s snapshot n o et er h.0,
        close_outputs_lem s' snapshot (n + 1) order et er h.1,
      )
      (let numbered = number-append s.sequence here there in
        let counted = length-append here there in ground arith)

pub consume-closings :
    (identity : ResponseIdentity) (a : Accumulator) (done : List Item) (n : ℕ)
    (order : List (OutputKind × ℕ))
    → n ≡ length done
    → All (IsFound a) order
    → consume_all (closings identity a n order) (done ++ map (view identity a) order)
      ≡ some (done ++ map (closed identity a) order)
unfolding closings consume_all
consume-closings identity a done n [] e h = refl
consume-closings identity a done n (o ∷ order) e h =
    let c = closed identity a o in
    let rest = map (view identity a) order in
    let ended = map (closed identity a) order in
    let here : consume_all (closing identity a n o) (done ++ view identity a o ∷ rest)
        ≡ some (done ++ c ∷ rest) =
      rw e (consume-closing identity a done rest o h.0) in
    let there =
      consume-closings identity a (done ++ c ∷ []) (n + 1) order
        (omega (arith, length-append done (c ∷ []))) h.1 in
    consume_all-append (closing identity a n o) (closings identity a (n + 1) order)
      (done ++ view identity a o ∷ rest) (done ++ c ∷ rest) here
      (subst (λ l. consume_all (closings identity a (n + 1) order) l ≡ some (done ++ c ∷ ended))
        (append_assoc done (c ∷ []) rest) (there ∙ ap some (append_assoc done (c ∷ []) ended)))
