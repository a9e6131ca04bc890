-- ===== src/OpenaiStream/Client/Mirror.antt =====
-- src/ams/api/openai_stream.py: what a client holds of a session (its mirror), and the numbering of the
-- events that a session emits.
use accumulative_matrix_swee.Prelude.{
  ℕ, ◌+◌, ◌≡◌, ◌∙◌, ap, sym, false, Option, Option-cases, none, some, List, inl, inr, [], ◌∷◌, ◌++◌,
  map, arith, length, length-append,
}
use accumulative_matrix_swee.Errors.{ok, Result}
use accumulative_matrix_swee.Generation.{
  OutputKind, message, reasoning, tool, Accumulator, ToolState, find_tool, concat,
}
use accumulative_matrix_swee.Generation.Order.{in_order, IsOrdered}
use accumulative_matrix_swee.OpenaiStream.Payloads.{
  ResponseIdentity, tool_item_id, in_progress, Item, message_item, reasoning_item, function_call,
  Body, Event,
}
use accumulative_matrix_swee.OpenaiStream.Session.{
  Session, index_from, responses_event, responses_events,
}
use accumulative_matrix_swee.OpenaiStream.Client.{consume, consume_all}

unfoldable pub call_view : ResponseIdentity → ℕ → Option ToolState → Item
call_view identity i none = function_call "" "" "" "" in_progress
call_view identity i (some t) =
    function_call (tool_item_id identity i) t.call_id t.name (concat t.arguments) in_progress

-- An output of an accumulator, as an item in progress.
unfoldable pub view : ResponseIdentity → Accumulator → OutputKind × ℕ → Item
unfolding call_view
view identity a (message, _) = message_item identity.message_id in_progress (concat a.text ∷ [])
view identity a (reasoning, _) =
    reasoning_item identity.reasoning_id (concat a.reasoning ∷ []) in_progress
view identity a (tool, i) = call_view identity i (find_tool i a.tools)

-- The client holds the outputs of the accumulator in their order; the parts that the session has opened
-- are those that have started.
pub record Mirrors (s : Session) (items : List Item) : Type 0 where
  pub ordered : IsOrdered s.accumulator
  pub mirrored : items ≡ map (view s.identity s.accumulator) s.accumulator.output_order
  pub message_opened : s.message_open ≡ s.accumulator.text_started
  pub reasoning_opened : s.reasoning_open ≡ s.accumulator.reasoning_started
  pub no_text : s.accumulator.text_started ≡ false → s.accumulator.text ≡ []
  pub no_reasoning : s.accumulator.reasoning_started ≡ false → s.accumulator.reasoning ≡ []

-- Bodies numbered from a number on.
unfoldable pub number : ℕ → List Body → List Event
number n [] = []
number n (b ∷ bs) = record { sequence_number = n; body = b } ∷ number (n + 1) bs

-- A call emits the bodies, numbered from the session's number on, and goes to the session `after`.
abbrev pub Emits : Result (List Event) × Session → Session → List Body → Session → Type 0
Emits run before bodies after =
    (run ≡ (ok (number before.sequence bodies), after))
    × (after.sequence ≡ before.sequence + length bodies)

pub number-append :
    (n : ℕ) (bs cs : List Body) → number n (bs ++ cs) ≡ number n bs ++ number (n + length bs) cs
unfolding number
number-append n [] cs = ground arith
number-append n (b ∷ bs) cs = ground (arith, number-append (n + 1) bs cs)

-- One more event goes to the end.
pub Emits-append :
    {run : Result (List Event) × Session} (s u : Session) (bodies : List Body) (b : Body)
    → run ≡ (
      ok (number s.sequence bodies ++ record { sequence_number = u.sequence; body = b } ∷ []),
      record u { sequence = u.sequence + 1 },
    )
    → u.sequence ≡ s.sequence + length bodies
    → Emits run s (bodies ++ b ∷ []) (record u { sequence = u.sequence + 1 })
unfolding number
Emits-append s u bodies b e count = (
  e
      ∙ ap
          (λ n. (
            ok (number s.sequence bodies ++ record { sequence_number = n; body = b } ∷ []),
            record u { sequence = u.sequence + 1 },
          ))
          count
      ∙ ap (λ es. (ok es, record u { sequence = u.sequence + 1 }))
          (sym (number-append s.sequence bodies (b ∷ []))),
  omega (arith, length-append bodies (b ∷ [])),
)

pub responses_events_lem :
    (bs : List Body) (s : Session)
    → responses_events bs s
      ≡ (ok (number s.sequence bs), record s { sequence = s.sequence + length bs })
unfolding responses_events responses_event number
responses_events_lem [] s = ground arith
responses_events_lem (b ∷ bs) s =
    rw (responses_events_lem bs (record s { sequence = s.sequence + 1 })) (ground arith)

pub consume_all-cons :
    (b : Body) (bs : List Body) (items middle : List Item) {rest : List Item}
    → consume b items ≡ some middle
    → consume_all bs middle ≡ some rest
    → consume_all (b ∷ bs) items ≡ some rest
unfolding consume_all
consume_all-cons b bs items middle h k = ground arith

pub consume_all-append :
    (bs cs : List Body) (items middle : List Item) {rest : List Item}
    → consume_all bs items ≡ some middle
    → consume_all cs middle ≡ some rest
    → consume_all (bs ++ cs) items ≡ some rest
unfolding consume_all
consume_all-append [] cs items middle h k = ground arith
consume_all-append (b ∷ bs) cs items middle {rest} h k = elim (Option-cases (consume b items)) [
  | inl e ↦ absurd (ground arith)
  | inr (next, e) ↦
      rw (e, consume_all) (consume_all-append bs cs next middle {rest = rest} (ground arith) k)
]

-- An output that was not there stands at the end.
pub index_from-append :
    (m : ℕ) (k : OutputKind) (i : ℕ) (order : List (OutputKind × ℕ))
    → in_order k i order ≡ false
    → index_from m k i (order ++ (k, i) ∷ []) ≡ ok (m + length order)
unfolding index_from in_order
index_from-append m message i [] h = ground arith
index_from-append m reasoning i [] h = ground arith
index_from-append m tool i [] h = ground arith
index_from-append m k i ((l, j) ∷ order) h = ground (arith, index_from-append (m + 1) k i order)
