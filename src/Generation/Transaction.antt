-- ===== src/Generation/Transaction.antt =====
-- src/ams/api/generation.py: what `accept` leaves behind when it raises, and after completion.
use accumulative_matrix_swee.Prelude.{
  ◌≡◌, ap, sym, ◌∙◌, Bool, false, Option, Option-cases, none, some, String, arith, inl, inr,
}
use accumulative_matrix_swee.Errors.{Exception, Result, err, ams, internal_invariant, Result-cases}
use accumulative_matrix_swee.Generation.{
  GenerationEvent, text_delta, reasoning_delta, tool_call_start, tool_arguments_delta,
  generation_completed, GenerationSnapshot, Accumulator, find_tool, check_completion, accept_open,
  accept,
}

module _ (loads : String → Option Bool) where
  accept_open_atomic :
      (e : GenerationEvent) (a : Accumulator) (x : Exception)
      → (accept_open loads e a).0 ≡ err x
      → (accept_open loads e a).1 ≡ a
  unfolding accept_open
  accept_open_atomic (text_delta t) a x h = ground arith
  accept_open_atomic (reasoning_delta t) a x h = ground arith
  accept_open_atomic (tool_call_start i c n) a x h = ground arith
  accept_open_atomic (tool_arguments_delta i d) a x h = elim (Option-cases (find_tool i a.tools)) [
    | inl e ↦ ground arith
    | inr (t, e) ↦ ground arith
  ]
  accept_open_atomic (generation_completed u f) a x h =
      elim (Result-cases (check_completion loads a u f)) [
        | inl (_, e) ↦ ground arith
        | inr (y, e) ↦ ground arith
      ]

  pub accept_when_open :
      (e : GenerationEvent) (a : Accumulator)
      → a.snapshot ≡ none
      → accept loads e a ≡ accept_open loads e a
  unfolding accept
  accept_when_open e a h = ground arith

  pub accept_when_complete :
      (e : GenerationEvent) (a : Accumulator) (s : GenerationSnapshot)
      → a.snapshot ≡ some s
      → accept loads e a ≡ (err (ams internal_invariant false), a)
  unfolding accept
  accept_when_complete e a s h = ground arith

  -- Whatever the event, an `accept` that raises leaves the accumulator as it was; once the stream is
  -- complete every event raises INTERNAL_INVARIANT, and the snapshot stays.
  pub accept_atomic_and_final :
      (e : GenerationEvent) (a : Accumulator)
      → ((x : Exception) → (accept loads e a).0 ≡ err x → (accept loads e a).1 ≡ a)
        × ((s : GenerationSnapshot)
            → a.snapshot ≡ some s
            → accept loads e a ≡ (err (ams internal_invariant false), a))
  accept_atomic_and_final e a = (
    λ x h. elim (Option-cases a.snapshot) [
      | inl n ↦
          let same = accept_when_open e a n in
          ap (λ (p : Result (Unit {0}) × Accumulator). p.1) same
          ∙ accept_open_atomic e a x
              (ap (λ (p : Result (Unit {0}) × Accumulator). p.0) (sym same) ∙ h)
      | inr (s, n) ↦
          ap (λ (p : Result (Unit {0}) × Accumulator). p.1) (accept_when_complete e a s n)
    ],
    accept_when_complete e a,
  )
