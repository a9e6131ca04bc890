-- ===== src/Server/Delivered.antt =====
-- src/ams/api/server.py and src/ams/api/openai_stream.py: a stream that the accumulator accepts to its end.
use mathlib.Core.Path.{subst}
use mathlib.Core.List.{append-nil}
use accumulative_matrix_swee.Prelude.{
  ◌+◌, ◌≡◌, refl, ap, sym, ◌∙◌, Bool, true, false, Option, none, some, List, [], ◌∷◌, ◌++◌, map,
  arith, length, String, inl, inr,
}
use accumulative_matrix_swee.Errors.{Exception, ok, Result-cases, ok-injective}
use accumulative_matrix_swee.Generation.{
  GenerationUsage, check_completion, GenerationEvent, text_delta, reasoning_delta, tool_call_start,
  tool_arguments_delta, generation_completed, GenerationSnapshot, Accumulator, accept_open,
  final_snapshot,
}
use accumulative_matrix_swee.Generation.Transaction.{accept_when_open, accept_when_complete}
use accumulative_matrix_swee.Generation.Stream.{accept_all}
use accumulative_matrix_swee.OpenaiStream.Payloads.{Payload, event, Item, Body, response}
use accumulative_matrix_swee.OpenaiStream.Session.{
  Session, responses, responses_object, responses_output,
}
use accumulative_matrix_swee.OpenaiStream.Push.{push_responses, response_body}
use accumulative_matrix_swee.OpenaiStream.Client.{consume_all}
use accumulative_matrix_swee.OpenaiStream.Client.Mirror.{Mirrors, number, consume_all-append}
use accumulative_matrix_swee.OpenaiStream.Client.Completed.{completion, final_object}
use accumulative_matrix_swee.OpenaiStream.Client.Replay.{IsDelta, push_delta}
use accumulative_matrix_swee.OpenaiStream.Client.Finished.{Finishes, push_completed}
use accumulative_matrix_swee.Server.{push_events, yields_all, validated_events, is_completed}
use accumulative_matrix_swee.Server.Pushed.{event_cases, delta-snapshot, push_events-cons}

IsDelta-is_completed : (e : GenerationEvent) → IsDelta e → is_completed e ≡ false
unfolding is_completed
IsDelta-is_completed (text_delta t) d = refl
IsDelta-is_completed (reasoning_delta t) d = refl
IsDelta-is_completed (tool_call_start j c n) d = refl
IsDelta-is_completed (tool_arguments_delta j t) d = refl
IsDelta-is_completed (generation_completed u f) d = absurd d

module _ (encodes : Payload → Bool) (total : (p : Payload) → encodes p ≡ true)
    (loads : String → Option Bool) where
  completion-snapshot :
      (usage : GenerationUsage) (f : String) (a : Accumulator)
      → (accept_open loads (generation_completed usage f) a).0 ≡ ok tt
      → (accept_open loads (generation_completed usage f) a).1.snapshot
        ≡ some (completion a usage f)
  unfolding accept_open
  completion-snapshot usage f a h = elim (Result-cases (check_completion loads a usage f)) [
    | inl (_, e) ↦ rw (e, accept_open) refl
    | inr (x, e) ↦ absurd (ground arith)
  ]

  -- The first event of an accepted stream is accepted, and the rest after it.
  pub accept_all-cons :
      (e : GenerationEvent) (es : List GenerationEvent) (a : Accumulator) {b : Accumulator}
      → a.snapshot ≡ none
      → accept_all loads (e ∷ es) a ≡ ok b
      → ((accept_open loads e a).0 ≡ ok tt) × (accept_all loads es (accept_open loads e a).1 ≡ ok b)
  unfolding accept_all
  accept_all-cons e es a {b} live h =
      let same = accept_when_open loads e a live in
      elim (Result-cases (accept_open loads e a).0) [
        | inr (x, r) ↦ absurd (ground arith)
        | inl (_, r) ↦ (r, ground arith)
      ]

  -- After the completion there is no event.
  pub accept_all_complete :
      (es : List GenerationEvent) (a : Accumulator) {b : Accumulator}
      {snapshot : GenerationSnapshot}
      → a.snapshot ≡ some snapshot
      → accept_all loads es a ≡ ok b
      → (es ≡ []) × (b ≡ a)
  unfolding accept_all
  accept_all_complete [] a k h = (refl, sym (ok-injective h))
  accept_all_complete (e ∷ es) a {b} {snapshot} k h =
      absurd (ground (arith, accept_when_complete loads e a snapshot k))

  -- The session ends with a response whose output the client has assembled.
  abbrev pub Delivered : List GenerationEvent → Session → List Item → GenerationSnapshot → Type 0
  Delivered es s items snapshot =
      (bodies : List Body) × (u : Session) × (push_events encodes loads es s
        ≡ (map event (number s.sequence bodies), ok tt, u))
      × (consume_all bodies items ≡ some (final_object u snapshot).output)
      × (response_body u ≡ (ok (response (final_object u snapshot)), u))

  body_lem :
      (u : Session) (snapshot : GenerationSnapshot)
      → u.endpoint ≡ responses
      → u.accumulator.snapshot ≡ some snapshot
      → responses_output u.identity snapshot snapshot.output_order u.accumulator
        ≡ ok (final_object u snapshot).output
      → response_body u ≡ (ok (response (final_object u snapshot)), u)
  unfolding response_body final_snapshot responses_object
  body_lem u snapshot h k e = ground arith

  last-Delivered :
      (e : GenerationEvent) (s : Session) (items : List Item) (snapshot : GenerationSnapshot)
      → s.endpoint ≡ responses
      → Finishes (push_responses loads e s) s items snapshot
      → Delivered (e ∷ []) s items snapshot
  unfolding push_events number
  last-Delivered e s items snapshot h (bodies, u, (run, count), replay, _, ee, es, output) = (
    bodies,
    u,
    push_events-cons loads encodes total e [] s u bodies [] (ok tt) u h run count refl
        ∙ ap (λ bs. (map event (number s.sequence bs), ok tt, u)) (append-nil bodies),
    replay,
    body_lem u snapshot (ee ∙ h) es output,
  )

  push-Delivered :
      (e : GenerationEvent) (es : List GenerationEvent) (s u : Session) (items middle : List Item)
      (bodies : List Body) (snapshot : GenerationSnapshot)
      → s.endpoint ≡ responses
      → push_responses loads e s ≡ (ok (number s.sequence bodies), u)
      → u.sequence ≡ s.sequence + length bodies
      → consume_all bodies items ≡ some middle
      → Delivered es u middle snapshot
      → Delivered (e ∷ es) s items snapshot
  push-Delivered e es s u items middle bodies snapshot h k c r (rest, last, p, replay, body) = (
    bodies ++ rest,
    last,
    push_events-cons loads encodes total e es s u bodies rest (ok tt) last h k c p,
    consume_all-append bodies rest items middle r replay,
    body,
  )

  -- Every event of the stream goes through `_validated_backend_events`, which raises nothing.
  pub validated_accepted :
      (es : List GenerationEvent) (a : Accumulator) {b : Accumulator}
      {snapshot : GenerationSnapshot}
      → a.snapshot ≡ none
      → accept_all loads es a ≡ ok b
      → b.snapshot ≡ some snapshot
      → validated_events (yields_all es) ≡ (es, none)
  unfolding validated_events accept_all is_completed
  validated_accepted [] a k h g = absurd (ground arith)
  validated_accepted (e ∷ es) a {b} {snapshot} k h g =
      let (r, t) = accept_all-cons e es a k h in
      elim (event_cases e) [
        | inl d ↦
            let rest =
              validated_accepted es (accept_open loads e a).1 {b = b} {snapshot = snapshot}
                (delta-snapshot loads e a d r ∙ k) t g in
            rw (IsDelta-is_completed e d)
              (ap (λ (v : List GenerationEvent × Option Exception). (e ∷ v.0, v.1)) rest)
        | inr (usage, f, same) ↦
            let done =
              completion-snapshot usage f a
                (subst (λ d. (accept_open loads d a).0 ≡ ok tt) same r) in
            let (last, _) =
              accept_all_complete es (accept_open loads e a).1 {b = b}
                {snapshot = completion a usage f}
                (subst (λ d. (accept_open loads d a).1.snapshot ≡ some (completion a usage f))
                  (sym same) done)
                t in
            rw (last, same) refl
      ]

  pub deliver :
      (es : List GenerationEvent) (s : Session) (items : List Item) {b : Accumulator}
      (snapshot : GenerationSnapshot)
      → s.endpoint ≡ responses
      → s.accumulator.snapshot ≡ none
      → Mirrors s items
      → accept_all loads es s.accumulator ≡ ok b
      → b.snapshot ≡ some snapshot
      → Delivered es s items snapshot
  unfolding accept_all
  deliver [] s items snapshot h k m g f = absurd (ground arith)
  deliver (e ∷ es) s items {b} snapshot h k m g f =
      let (r, t) = accept_all-cons e es s.accumulator k g in
      elim (event_cases e) [
        | inl d ↦
            let (bodies, u, items', (run, count), replay, m', (ea, _, ee, _)) =
              push_delta loads s items m e d k r in
            push-Delivered e es s u items items' bodies snapshot h run count replay (
              deliver es u items' {b = b} snapshot (ee ∙ h)
                (ap (λ (a : Accumulator). a.snapshot) ea
                  ∙ delta-snapshot loads e s.accumulator d r
                  ∙ k)
                m' (rw ea t) f)
        | inr (usage, reason, same) ↦
            let last = completion s.accumulator usage reason in
            let ends = subst (λ d. (accept_open loads d s.accumulator).0 ≡ ok tt) same r in
            let taken =
              subst (λ d. (accept_open loads d s.accumulator).1.snapshot ≡ some last) (sym same)
                (completion-snapshot usage reason s.accumulator ends) in
            let (none_left, final) =
              accept_all_complete es (accept_open loads e s.accumulator).1 {b = b} {snapshot = last}
                taken t in
            let same_snapshot : last ≡ snapshot =
              ground (arith, ap (λ (a : Accumulator). a.snapshot) final) in
            let finished =
              subst (λ d. Finishes (push_responses loads d s) s items last) (sym same)
                (push_completed loads s items m usage reason k ends) in
            subst (λ sn. Delivered (e ∷ es) s items sn) same_snapshot
              (subst (λ l. Delivered (e ∷ l) s items last) (sym none_left)
                (last-Delivered e s items last h finished))
      ]
