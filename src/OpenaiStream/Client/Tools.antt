-- ===== src/OpenaiStream/Client/Tools.antt =====
-- src/ams/api/openai_stream.py: the events that `_push_responses` emits for a tool call and its arguments.
use mathlib.Core.Path.{subst}
use accumulative_matrix_swee.Prelude.{
  ℕ, zero, suc, ◌+◌, ◌<◌, ◌≡◌, refl, ap, sym, ◌∙◌, true, false, ◌&&◌, ◌==◌, some, List, [], ◌∷◌,
  ◌++◌, map, arith, length, length-map, String, eq_refl, if◌then◌else◌,
}
use accumulative_matrix_swee.Generation.{
  OutputKind, message, reasoning, tool, ToolState, find_tool, append_argument, concat,
  tool_call_start, tool_arguments_delta,
}
use accumulative_matrix_swee.Generation.Order.{in_order, output_eq, IsOrdered}
use accumulative_matrix_swee.OpenaiStream.Payloads.{
  tool_item_id, in_progress, Item, function_call, output_item_added, function_call_arguments_delta,
}
use accumulative_matrix_swee.OpenaiStream.Session.{Session, output_index, responses_event}
use accumulative_matrix_swee.OpenaiStream.Push.{encode_responses}
use accumulative_matrix_swee.OpenaiStream.Client.{consume, consume_all, grow}
use accumulative_matrix_swee.OpenaiStream.Client.Texts.{concat-append}
use accumulative_matrix_swee.OpenaiStream.Client.Amend.{amend-map_start, map-append_one}
use accumulative_matrix_swee.OpenaiStream.Client.Mirror.{
  view, call_view, Mirrors, number, index_from-append,
}
use accumulative_matrix_swee.OpenaiStream.Client.Deltas.{Follows}

pub find_tool-append :
    (i : ℕ) (ts : List ToolState) (t : ToolState)
    → find_tool i (ts ++ t ∷ []) ≡ (if i == length ts then some t else find_tool i ts)
unfolding find_tool
find_tool-append zero [] t = refl
find_tool-append (suc i) [] t = ground arith
find_tool-append zero (u ∷ ts) t = ground arith
find_tool-append (suc i) (u ∷ ts) t = ground (arith, find_tool-append i ts t)

pub find_tool-lt :
    (i : ℕ) (ts : List ToolState) {t : ToolState} → find_tool i ts ≡ some t → i < length ts
unfolding find_tool
find_tool-lt i [] h = absurd (cc)
find_tool-lt zero (u ∷ ts) h = omega arith
find_tool-lt (suc i) (u ∷ ts) h = omega (arith, find_tool-lt i ts h)

find_tool-append_argument :
    (i j : ℕ) (d : String) (ts : List ToolState)
    → (j == i) ≡ false
    → find_tool i (append_argument j d ts) ≡ find_tool i ts
unfolding find_tool append_argument
find_tool-append_argument i j d [] h = refl
find_tool-append_argument zero zero d (u ∷ ts) h = absurd (cc)
find_tool-append_argument zero (suc j) d (u ∷ ts) h = refl
find_tool-append_argument (suc i) zero d (u ∷ ts) h = refl
find_tool-append_argument (suc i) (suc j) d (u ∷ ts) h =
    find_tool-append_argument i j d ts (ground arith)

find_tool-append_argument_self :
    (j : ℕ) (d : String) (ts : List ToolState) {t : ToolState}
    → find_tool j ts ≡ some t
    → find_tool j (append_argument j d ts) ≡ some (record t { arguments = t.arguments ++ d ∷ [] })
unfolding find_tool append_argument
find_tool-append_argument_self j d [] h = absurd (cc)
find_tool-append_argument_self zero d (u ∷ ts) h = ground arith
find_tool-append_argument_self (suc j) d (u ∷ ts) h = find_tool-append_argument_self j d ts h

abbrev pub with_call : Session → ℕ → String → String → Session
with_call s j c n = record s {
  accumulator = record s.accumulator {
    tools = s.accumulator.tools ++ record { call_id = c; name = n; arguments = [] } ∷ [];
    output_order = s.accumulator.output_order ++ (tool, j) ∷ [];
  };
}

abbrev pub with_argument : Session → ℕ → String → Session
with_argument s j d = record s {
  accumulator = record s.accumulator { tools = append_argument j d s.accumulator.tools };
}

-- Where the texts stay, the view of an output stays that is not a changed call.
same_call_views :
    (s : Session) (ts : List ToolState) (l : OutputKind) (j : ℕ)
    → (l ≡ tool → find_tool j s.accumulator.tools ≡ find_tool j ts)
    → view s.identity s.accumulator (l, j)
      ≡ view s.identity (record s.accumulator { tools = ts }) (l, j)
unfolding view
same_call_views s ts message j h = refl
same_call_views s ts reasoning j h = refl
same_call_views s ts tool j h = ap (call_view s.identity j) (h refl)

grow_call :
    (s : Session) (j : ℕ) (d : String) {t : ToolState}
    → find_tool j s.accumulator.tools ≡ some t
    → grow (tool_item_id s.identity j) d (view s.identity s.accumulator (tool, j))
      ≡ some (view s.identity (with_argument s j d).accumulator (tool, j))
unfolding view call_view grow
grow_call s j d {t} found =
    let id = tool_item_id s.identity j in
    let now = find_tool-append_argument_self j d s.accumulator.tools found in
    rw (found, now, eq_refl id)
      (ap (λ x. some (function_call id t.call_id t.name x in_progress))
        (sym (concat-append t.arguments d)))

module _ (s : Session) (items : List Item) (m : Mirrors s items) where
  call_mirror :
      (j : ℕ) (c n : String)
      → j ≡ length s.accumulator.tools
      → items ++ function_call (tool_item_id s.identity j) c n "" in_progress ∷ []
        ≡ map
            (view s.identity (with_call s j c n).accumulator)
            (with_call s j c n).accumulator.output_order
  unfolding view call_view concat
  call_mirror j c n e =
      let a = s.accumulator in
      let t : ToolState = record { call_id = c; name = n; arguments = [] } in
      let last : find_tool j (a.tools ++ t ∷ []) ≡ some t =
        find_tool-append j a.tools t ∙ ground arith in
      map-append_one (view s.identity a) (view s.identity (with_call s j c n).accumulator) items
        a.output_order tool j (function_call (tool_item_id s.identity j) c n "" in_progress)
        m.mirrored
        (λ l i mem. same_call_views s (a.tools ++ t ∷ []) l i (λ is_tool.
          let known : in_order tool i a.output_order ≡ true = rw (← is_tool) mem in
          ground (arith, m.ordered.tools i, find_tool-append i a.tools t)))
        (ap (call_view s.identity j) (sym last))

  pub call_step :
      (j : ℕ) (c n : String)
      → IsOrdered (with_call s j c n).accumulator
      → j ≡ length s.accumulator.tools
      → Follows
          (encode_responses (tool_call_start j c n) (with_call s j c n))
          (with_call s j c n)
          items
  unfolding encode_responses output_index responses_event number consume_all consume
  call_step j c n ordered e =
      let a = s.accumulator in
      let fresh : in_order tool j a.output_order ≡ false = m.ordered.tools j ∙ ground arith in
      let position = index_from-append 0 tool j a.output_order fresh in
      let same_length : length items ≡ length a.output_order =
        ap length m.mirrored ∙ length-map (view s.identity a) a.output_order in
      let item = function_call (tool_item_id s.identity j) c n "" in_progress in
      (
        output_item_added (length a.output_order) item ∷ [],
        record (with_call s j c n) { sequence = s.sequence + 1 },
        items ++ item ∷ [],
        (rw (position, encode_responses, output_index) (ground arith), ground arith),
        ground arith,
        record {
          ordered = ordered;
          mirrored = call_mirror j c n e;
          message_opened = m.message_opened;
          reasoning_opened = m.reasoning_opened;
          no_text = m.no_text;
          no_reasoning = m.no_reasoning;
        },
        (refl, refl, refl, refl),
      )

  pub argument_step :
      (j : ℕ) (d : String) {t : ToolState}
      → IsOrdered (with_argument s j d).accumulator
      → find_tool j s.accumulator.tools ≡ some t
      → Follows
          (encode_responses (tool_arguments_delta j d) (with_argument s j d))
          (with_argument s j d)
          items
  unfolding encode_responses output_index responses_event number consume_all consume
  argument_step j d {t} ordered found =
      let a = s.accumulator in
      let b = (with_argument s j d).accumulator in
      let known = find_tool-lt j a.tools found in
      let id = tool_item_id s.identity j in
      let grown : grow id d (view s.identity a (tool, j)) ≡ some (view s.identity b (tool, j)) =
        grow_call s j d found in
      let (p, position, amended) =
        amend-map_start tool j (view s.identity a) (view s.identity b) (grow id d) a.output_order
          m.ordered.unique (m.ordered.tools j ∙ ground arith) grown
          (λ l i mem other. same_call_views s (append_argument j d a.tools) l i (λ is_tool. sym (
            find_tool-append_argument i j d a.tools
              (subst (λ k. (output_eq tool k && j == i) ≡ false) is_tool other)))) in
      (
        function_call_arguments_delta id p d ∷ [],
        record (with_argument s j d) { sequence = s.sequence + 1 },
        map (view s.identity b) a.output_order,
        (rw (position, encode_responses, output_index) (ground arith), ground arith),
        rw (m.mirrored, consume_all, consume, amended) refl,
        record {
          ordered = ordered;
          mirrored = refl;
          message_opened = m.message_opened;
          reasoning_opened = m.reasoning_opened;
          no_text = m.no_text;
          no_reasoning = m.no_reasoning;
        },
        (refl, refl, refl, refl),
      )
