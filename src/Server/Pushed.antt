-- ===== src/Server/Pushed.antt =====
-- src/ams/api/server.py and src/ams/api/openai_stream.py: events pushed one after the other into a session
-- of the Responses endpoint.
use mathlib.Core.Path.{subst}
use mathlib.Core.List.{map-append}
use accumulative_matrix_swee.Prelude.{
  ◌+◌, ◌≡◌, refl, ap, sym, ◌∙◌, Bool, false, Option, Option-cases, none, some, List, [], ◌∷◌, ◌++◌,
  map, all, true, arith, length, length-append, String, ◌⊎◌, inl, inr,
}
use accumulative_matrix_swee.Errors.{
  Exception, Result, ok, err, Result-cases, ams, internal_invariant,
}
use accumulative_matrix_swee.Generation.{
  GenerationUsage, GenerationEvent, text_delta, reasoning_delta, tool_call_start,
  tool_arguments_delta, generation_completed, GenerationSnapshot, find_tool, Accumulator, accept,
  accept_open,
}
use accumulative_matrix_swee.Generation.Transaction.{
  accept_when_open, accept_when_complete, accept_atomic_and_final,
}
use accumulative_matrix_swee.OpenaiStream.Payloads.{Payload, event, Event, Item, Body}
use accumulative_matrix_swee.OpenaiStream.Session.{Session, responses}
use accumulative_matrix_swee.OpenaiStream.Push.{push, push_responses}
use accumulative_matrix_swee.OpenaiStream.Client.Mirror.{Mirrors, number, number-append}
use accumulative_matrix_swee.OpenaiStream.Client.Replay.{IsDelta, push_delta}
use accumulative_matrix_swee.OpenaiStream.Client.Finished.{Finishes, push_completed}
use accumulative_matrix_swee.OpenaiStream.Client.Completed.{completion}
use accumulative_matrix_swee.Server.{push_events}

pub event_cases :
    (e : GenerationEvent)
    → IsDelta e ⊎ ((u : GenerationUsage) × (f : String) × (e ≡ generation_completed u f))
event_cases (text_delta t) = inl tt
event_cases (reasoning_delta t) = inl tt
event_cases (tool_call_start j c n) = inl tt
event_cases (tool_arguments_delta j d) = inl tt
event_cases (generation_completed u f) = inr (u, f, refl)

module _ (loads : String → Option Bool) where
  -- A delta leaves the stream incomplete.
  pub delta-snapshot :
      (e : GenerationEvent) (a : Accumulator)
      → IsDelta e
      → (accept_open loads e a).0 ≡ ok tt
      → (accept_open loads e a).1.snapshot ≡ a.snapshot
  unfolding accept_open
  delta-snapshot (text_delta t) a d h = ground arith
  delta-snapshot (reasoning_delta t) a d h = ground arith
  delta-snapshot (tool_call_start j c n) a d h = ground arith
  delta-snapshot (tool_arguments_delta j t) a d h = elim (Option-cases (find_tool j a.tools)) [
    | inl e ↦ absurd (ground arith)
    | inr (_, e) ↦ ground arith
  ]
  delta-snapshot (generation_completed u f) a d h = absurd d

  -- What the accumulator refuses, the session refuses, and stays as it is.
  pub push_refused :
      (e : GenerationEvent) (s : Session) {x : Exception}
      → (accept loads e s.accumulator).0 ≡ err x
      → push_responses loads e s ≡ (err x, s)
  unfolding push_responses
  push_refused e s {x} h =
      let same = (accept_atomic_and_final loads e s.accumulator).0 x h in rw (h, same) refl

  pub push_encoded :
      (e : GenerationEvent) (s u : Session) (es : List Event)
      → s.endpoint ≡ responses
      → push_responses loads e s ≡ (ok es, u)
      → push loads e s ≡ (ok (map event es), u)
  unfolding push
  push_encoded e s u es h k = ground arith

  pub push_raised :
      (e : GenerationEvent) (s u : Session) (x : Exception)
      → s.endpoint ≡ responses
      → push_responses loads e s ≡ (err x, u)
      → push loads e s ≡ (err x, u)
  unfolding push
  push_raised e s u x h k = ground arith

  module _ (encodes : Payload → Bool) (total : (p : Payload) → encodes p ≡ true) where
    pub all_encode : (ps : List Payload) → all encodes ps ≡ true
    all_encode [] = refl
    all_encode (p ∷ ps) = ground (arith, total p, all_encode ps)

    -- What was sent is numbered from the session's number on, and the session goes on with the next.
    abbrev pub Numbered : List GenerationEvent → Session → Type 0
    Numbered es s =
        (bodies : List Body) × (ended : Result (Unit {0})) × (u : Session) × (push_events encodes
            loads es s
          ≡ (map event (number s.sequence bodies), ended, u))
        × (u.sequence ≡ s.sequence + length bodies)
        × (u.endpoint ≡ responses)

    raised-Numbered :
        (e : GenerationEvent) (es : List GenerationEvent) (s : Session) (x : Exception)
        → s.endpoint ≡ responses
        → (accept loads e s.accumulator).0 ≡ err x
        → Numbered (e ∷ es) s
    unfolding push_events number
    raised-Numbered e es s x h k =
        let p = push_raised e s s x h (push_refused e s k) in
        (
          [],
          err x,
          s,
          rw (ap (λ (r : Result (List Payload) × Session). r.0) p, push_events)
              (ap (λ v. ([], err x, v)) (ap (λ (r : Result (List Payload) × Session). r.1) p)),
          omega arith,
          h,
        )

    -- What one event sends comes before what the others send.
    pub push_events-cons :
        (e : GenerationEvent) (es : List GenerationEvent) (s u : Session) (bodies rest : List Body)
        (ended : Result (Unit {0})) (last : Session)
        → s.endpoint ≡ responses
        → push_responses loads e s ≡ (ok (number s.sequence bodies), u)
        → u.sequence ≡ s.sequence + length bodies
        → push_events encodes loads es u ≡ (map event (number u.sequence rest), ended, last)
        → push_events encodes loads (e ∷ es) s
          ≡ (map event (number s.sequence (bodies ++ rest)), ended, last)
    unfolding push_events
    push_events-cons e es s u bodies rest ended last h k c p =
        let q = push_encoded e s u (number s.sequence bodies) h k in
        let numbered =
          number-append s.sequence bodies rest
          ∙ ap (λ n. number s.sequence bodies ++ number n rest) (sym c) in
        let joined =
          ap (λ sent. (sent, ended, last))
            (sym (
              ap (map event) numbered
              ∙ map-append event (number s.sequence bodies) (number u.sequence rest))) in
        rw (ap (λ (r : Result (List Payload) × Session). r.0) q, push_events)
          (rw (all_encode (map event (number s.sequence bodies)))
            (rw (ap (λ (r : Result (List Payload) × Session). r.1) q, p) joined))

    push-Numbered :
        (e : GenerationEvent) (es : List GenerationEvent) (s u : Session) (bodies : List Body)
        → s.endpoint ≡ responses
        → push_responses loads e s ≡ (ok (number s.sequence bodies), u)
        → u.sequence ≡ s.sequence + length bodies
        → Numbered es u
        → Numbered (e ∷ es) s
    push-Numbered e es s u bodies h k c (rest, ended, last, p, count, responding) = (
      bodies ++ rest,
      ended,
      last,
      push_events-cons e es s u bodies rest ended last h k c p,
      omega (arith, length-append bodies rest),
      responding,
    )

    -- A completed stream takes no more events.
    pub complete-Numbered :
        (es : List GenerationEvent) (s : Session) {snapshot : GenerationSnapshot}
        → s.endpoint ≡ responses
        → s.accumulator.snapshot ≡ some snapshot
        → Numbered es s
    unfolding push_events number
    complete-Numbered [] s h k = ([], ok tt, s, refl, omega arith, h)
    complete-Numbered (e ∷ es) s {snapshot} h k =
        raised-Numbered e es s (ams internal_invariant false) h (
          ap (λ (p : Result (Unit {0}) × Accumulator). p.0)
            (accept_when_complete loads e s.accumulator snapshot k))

    pub live-Numbered :
        (es : List GenerationEvent) (s : Session) (items : List Item)
        → s.endpoint ≡ responses
        → s.accumulator.snapshot ≡ none
        → Mirrors s items
        → Numbered es s
    unfolding push_events number
    live-Numbered [] s items h k m = ([], ok tt, s, refl, omega arith, h)
    live-Numbered (e ∷ es) s items h k m =
        let accepts = accept_when_open loads e s.accumulator k in
        elim (Result-cases (accept_open loads e s.accumulator).0) [
          | inr (x, r) ↦
              raised-Numbered e es s x h
                (ap (λ (p : Result (Unit {0}) × Accumulator). p.0) accepts ∙ r)
          | inl (_, r) ↦ elim (event_cases e) [
            | inl d ↦
                let (bodies, u, items', (run, count), _, m', (ea, _, ee, _)) =
                  push_delta loads s items m e d k r in
                push-Numbered e es s u bodies h run count (
                  live-Numbered es u items' (ee ∙ h)
                    (ap (λ (a : Accumulator). a.snapshot) ea
                      ∙ delta-snapshot e s.accumulator d r
                      ∙ k)
                    m')
            | inr (usage, f, same) ↦
                let snapshot = completion s.accumulator usage f in
                let done = subst (λ d. (accept_open loads d s.accumulator).0 ≡ ok tt) same r in
                let (bodies, u, (run, count), _, _, ee, es', _) =
                  subst (λ d. Finishes (push_responses loads d s) s items snapshot) (sym same)
                    (push_completed loads s items m usage f k done) in
                push-Numbered e es s u bodies h run count
                  (complete-Numbered es u {snapshot = snapshot} (ee ∙ h) es')
          ]
        ]
