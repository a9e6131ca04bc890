-- ===== src/OpenaiStream/Client/Finished.antt =====
-- src/ams/api/openai_stream.py: the event that ends a stream, at a session and at a client.
use mathlib.Core.Path.{subst}
use accumulative_matrix_swee.Prelude.{
  ℕ, ◌+◌, ◌≡◌, refl, ap, sym, ◌∙◌, Bool, true, Option, none, some, List, list_cases, [], ◌++◌, map,
  arith, length, String, inl, inr,
}
use accumulative_matrix_swee.Errors.{ok, Result, Result-cases}
use accumulative_matrix_swee.Generation.{
  Accumulator, GenerationUsage, GenerationSnapshot, generation_completed, accept_open,
  check_completion, default_order, final_snapshot,
}
use accumulative_matrix_swee.Generation.Order.{IsOrdered, accept_open-IsOrdered}
use accumulative_matrix_swee.OpenaiStream.Payloads.{Item, Event, Body}
use accumulative_matrix_swee.OpenaiStream.Session.{Session, responses_object, responses_output}
use accumulative_matrix_swee.OpenaiStream.Push.{
  encode_responses, push_responses, responses_completion_events, open_default,
}
use accumulative_matrix_swee.OpenaiStream.Client.{consume_all}
use accumulative_matrix_swee.OpenaiStream.Client.Mirror.{view, Mirrors, Emits, consume_all-append}
use accumulative_matrix_swee.OpenaiStream.Client.Opened.{message_bodies}
use accumulative_matrix_swee.OpenaiStream.Client.Closed.{responses_output_lem}
use accumulative_matrix_swee.OpenaiStream.Client.Completed.{
  All-IsFound, completion, with_completion, final_views, open_empty, open_nothing, final_object,
  final_bodies, close_and_complete, consume-final_bodies,
}
use accumulative_matrix_swee.OpenaiStream.Client.Replay.{with_accumulator, push_accepted}

-- What is shown of the call that ends a stream: the client holds the output of the final response.
abbrev pub Finishes :
    Result (List Event) × Session → Session → List Item → GenerationSnapshot → Type 0
Finishes run before items snapshot =
    (bodies : List Body) × (after : Session) × Emits run before bodies after
    × (consume_all bodies items ≡ some (final_object after snapshot).output)
    × (after.identity ≡ before.identity)
    × (after.endpoint ≡ before.endpoint)
    × (after.accumulator.snapshot ≡ some snapshot)
    × (responses_output after.identity snapshot snapshot.output_order after.accumulator
        ≡ ok (final_object after snapshot).output)

module _ (s : Session) (items : List Item) (m : Mirrors s items) (usage : GenerationUsage)
    (finish_reason : String)
    (ordered : IsOrdered (with_completion s usage finish_reason).accumulator) where
  -- Once the message is open where it has to be, the rest follows.
  finish_opened :
      (bodies : List Body) (opened : Bool) (n : ℕ)
      → Emits
          (open_default
            (completion s.accumulator usage finish_reason)
            (with_completion s usage finish_reason))
          s
          bodies
          (record (with_completion s usage finish_reason) { message_open = opened; sequence = n })
      → consume_all bodies items
        ≡ some (map (view s.identity s.accumulator) (default_order s.accumulator.output_order))
      → Finishes
          (responses_completion_events (with_completion s usage finish_reason))
          s
          items
          (completion s.accumulator usage finish_reason)
  unfolding final_snapshot responses_object
  finish_opened bodies opened n run replay =
      let final = with_completion s usage finish_reason in
      let snapshot = completion s.accumulator usage finish_reason in
      let order = default_order s.accumulator.output_order in
      let u = record final { message_open = opened; sequence = n } in
      let found = All-IsFound final.accumulator order (λ i h. ground (arith, ordered.tools i)) in
      let rest = final_bodies u snapshot refl refl found in
      (
        bodies ++ rest,
        record u { sequence = n + length rest },
        close_and_complete u snapshot refl refl found final bodies refl run,
        consume_all-append bodies rest items (map (view u.identity u.accumulator) order)
            (replay ∙ ap some (final_views s items m usage finish_reason order))
            (consume-final_bodies u snapshot refl refl found),
        refl,
        refl,
        refl,
        responses_output_lem u.identity u.accumulator snapshot order refl refl found,
      )

  finish_step :
      Finishes
        (encode_responses
          (generation_completed usage finish_reason)
          (with_completion s usage finish_reason))
        s
        items
        (completion s.accumulator usage finish_reason)
  unfolding encode_responses
  finish_step = elim (list_cases s.accumulator.output_order) [
    | inl e ↦
        let (run, replay) = open_empty s items m usage finish_reason e in
        finish_opened (message_bodies s 0) true (s.sequence + 2) run replay
    | inr (o, os, e) ↦
        let (run, replay) = open_nothing s items m usage finish_reason o os e in
        finish_opened [] s.message_open s.sequence run replay
  ]

module _ (loads : String → Option Bool) (s : Session) (items : List Item)
    (m : Mirrors s items) where
  completion_lem :
      (usage : GenerationUsage) (finish_reason : String)
      → (accept_open loads (generation_completed usage finish_reason) s.accumulator).0 ≡ ok tt
      → (accept_open loads (generation_completed usage finish_reason) s.accumulator).1
        ≡ (with_completion s usage finish_reason).accumulator
  unfolding accept_open
  completion_lem usage finish_reason h =
      elim (Result-cases (check_completion loads s.accumulator usage finish_reason)) [
        | inl (_, e) ↦ rw (e, accept_open) refl
        | inr (x, e) ↦ absurd (ground arith)
      ]

  pub push_completed :
      (usage : GenerationUsage) (finish_reason : String)
      → s.accumulator.snapshot ≡ none
      → (accept_open loads (generation_completed usage finish_reason) s.accumulator).0 ≡ ok tt
      → Finishes
          (push_responses loads (generation_completed usage finish_reason) s)
          s
          items
          (completion s.accumulator usage finish_reason)
  push_completed usage finish_reason live h =
      let e = generation_completed usage finish_reason in
      let same = completion_lem usage finish_reason h in
      let goal = λ (b : Accumulator).
        Finishes (encode_responses e (with_accumulator s b)) s items
          (completion s.accumulator usage finish_reason) in
      let ordered =
        subst IsOrdered same (accept_open-IsOrdered loads e s.accumulator m.ordered h) in
      subst (λ run. Finishes run s items (completion s.accumulator usage finish_reason))
        (sym (push_accepted loads s items m e live h))
        (subst goal (sym same) (finish_step s items m usage finish_reason ordered))
