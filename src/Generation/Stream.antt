-- ===== src/Generation/Stream.antt =====
-- src/ams/api/generation.py: a whole stream of events, and what its snapshot holds of them.
use mathlib.Core.Path.{subst}
use mathlib.Core.List.{append-nil, append_assoc}
use accumulative_matrix_swee.Prelude.{
  ℕ, zero, suc, ◌≡◌, refl, sym, ap, ◌∙◌, Bool, Bool-cases, Option, Option-cases, none, some, List,
  [], ◌∷◌, ◌++◌, String, arith, inl, inr, ◌+◌, get_elem?, ◌==◌, if◌then◌else◌,
}
use accumulative_matrix_swee.Prelude.Text.{str_eq}
use accumulative_matrix_swee.Errors.{Result, ok, err, ok-injective, Result-cases}
use accumulative_matrix_swee.Generation.Transaction.{accept_when_open, accept_when_complete}
use accumulative_matrix_swee.Generation.{
  GenerationEvent, text_delta, reasoning_delta, tool_call_start, tool_arguments_delta,
  generation_completed, GenerationSnapshot, GeneratedToolCall, ToolState, Request, Accumulator,
  accumulator, concat, find_tool, append_argument, check_completion, accept_open, accept,
  tool_calls,
}

-- The events accepted one after the other, up to the first that is refused.
unfoldable pub accept_all :
    (String → Option Bool) → List GenerationEvent → Accumulator → Result Accumulator
accept_all loads [] a = ok a
accept_all loads (e ∷ es) a = elim (accept loads e a).0 [
  | err x ↦ err x
  | ok _ ↦ accept_all loads es (accept loads e a).1
]

-- The texts of the deltas of a stream, in order.
unfoldable pub texts : List GenerationEvent → List String
texts [] = []
texts (text_delta t ∷ es) = t ∷ texts es
texts (_ ∷ es) = texts es

unfoldable pub reasonings : List GenerationEvent → List String
reasonings [] = []
reasonings (reasoning_delta t ∷ es) = t ∷ reasonings es
reasonings (_ ∷ es) = reasonings es

-- The argument deltas of one tool call.
unfoldable pub arguments_of : ℕ → List GenerationEvent → List String
arguments_of i [] = []
arguments_of i (tool_arguments_delta j d ∷ es) =
    let rest = arguments_of i es in if i == j then d ∷ rest else rest
arguments_of i (_ ∷ es) = arguments_of i es

-- The arguments that the accumulator holds for a tool call.
unfoldable pub held_arguments : ℕ → List ToolState → List String
unfolding find_tool
held_arguments i ts = elim (find_tool i ts) [ none ↦ [] | some t ↦ t.arguments ]

held_arguments_start :
    (i : ℕ) (ts : List ToolState) (c n : String)
    → held_arguments i (ts ++ record { call_id = c; name = n; arguments = [] } ∷ [])
      ≡ held_arguments i ts
unfolding held_arguments
held_arguments_start zero [] c n = refl
held_arguments_start (suc i) [] c n = refl
held_arguments_start zero (t ∷ ts) c n = refl
held_arguments_start (suc i) (t ∷ ts) c n = held_arguments_start i ts c n

held_arguments_append :
    (i j : ℕ) (d : String) (ts : List ToolState) {t : ToolState}
    → find_tool j ts ≡ some t
    → held_arguments i (append_argument j d ts)
      ≡ held_arguments i ts ++ (if i == j then d ∷ [] else [])
unfolding held_arguments append_argument
held_arguments_append i j d [] h = absurd (cc)
held_arguments_append zero zero d (t ∷ ts) h = refl
held_arguments_append zero (suc j) d (t ∷ ts) h = ground (arith, append-nil t.arguments)
held_arguments_append (suc i) zero d (t ∷ ts) h = ground (arith, append-nil (held_arguments i ts))
held_arguments_append (suc i) (suc j) d (t ∷ ts) h =
    ground (arith, held_arguments_append i j d ts h)

-- What one accepted event adds to the parts of the accumulator.
record Adds (e : GenerationEvent) (a b : Accumulator) : Type 0 where
  text : b.text ≡ a.text ++ texts (e ∷ [])
  reasoning : b.reasoning ≡ a.reasoning ++ reasonings (e ∷ [])
  arguments :
      (i : ℕ) → held_arguments i b.tools ≡ held_arguments i a.tools ++ arguments_of i (e ∷ [])

module _ (loads : String → Option Bool) where
  accept_open-Adds :
      (e : GenerationEvent) (a : Accumulator)
      → (accept_open loads e a).0 ≡ ok tt
      → Adds e a (accept_open loads e a).1
  unfolding accept_open texts reasonings arguments_of
  accept_open-Adds (text_delta t) a h = elim (Bool-cases (str_eq t "")) [
    | inl e ↦ absurd (ground arith)
    | inr e ↦ rw e (record {
      text = refl;
      reasoning = sym (append-nil _);
      arguments = λ i. sym (append-nil _);
    })
  ]
  accept_open-Adds (reasoning_delta t) a h = elim (Bool-cases (str_eq t "")) [
    | inl e ↦ absurd (ground arith)
    | inr e ↦ rw e (record {
      text = sym (append-nil _);
      reasoning = refl;
      arguments = λ i. sym (append-nil _);
    })
  ]
  accept_open-Adds (tool_call_start j c n) a h = record {
    text = ground (arith, append-nil a.text);
    reasoning = ground (arith, append-nil a.reasoning);
    arguments = λ i.
        ground (arith, append-nil (held_arguments i a.tools), held_arguments_start i a.tools c n);
  }
  accept_open-Adds (tool_arguments_delta j d) a h = elim (Option-cases (find_tool j a.tools)) [
    | inl e ↦ absurd (ground arith)
    | inr (t, e) ↦ record {
      text = ground (arith, append-nil a.text);
      reasoning = ground (arith, append-nil a.reasoning);
      arguments = λ i. ground (arith, held_arguments_append i j d a.tools e);
    }
  ]
  accept_open-Adds (generation_completed u f) a h =
      elim (Result-cases (check_completion loads a u f)) [
        | inl (_, e) ↦
            rw (e, accept_open)
              (record {
                text = sym (append-nil _);
                reasoning = sym (append-nil _);
                arguments = λ i. sym (append-nil _);
              })
        | inr (y, e) ↦ absurd (ground arith)
      ]

texts-cons :
    (e : GenerationEvent) (es : List GenerationEvent) → texts (e ∷ es) ≡ texts (e ∷ []) ++ texts es
unfolding texts
texts-cons (text_delta t) es = refl
texts-cons _ es = refl

reasonings-cons :
    (e : GenerationEvent) (es : List GenerationEvent)
    → reasonings (e ∷ es) ≡ reasonings (e ∷ []) ++ reasonings es
unfolding reasonings
reasonings-cons (text_delta t) es = refl
reasonings-cons _ es = refl

arguments_of-cons :
    (i : ℕ) (e : GenerationEvent) (es : List GenerationEvent)
    → arguments_of i (e ∷ es) ≡ arguments_of i (e ∷ []) ++ arguments_of i es
unfolding arguments_of
arguments_of-cons i (tool_arguments_delta j d) es = ground arith
arguments_of-cons i _ es = refl

-- The snapshot, where there is one, was taken of the parts that the accumulator holds.
abbrev IsTaken : Accumulator → Type 0
IsTaken a =
    (s : GenerationSnapshot)
    → a.snapshot ≡ some s
    → (s.text ≡ concat a.text)
      × (s.reasoning ≡ concat a.reasoning)
      × (s.tool_calls ≡ tool_calls 0 a.tools)

module _ (loads : String → Option Bool) where
  accept_open-IsTaken :
      (e : GenerationEvent) (a : Accumulator)
      → a.snapshot ≡ none
      → (accept_open loads e a).0 ≡ ok tt
      → IsTaken (accept_open loads e a).1
  unfolding accept_open
  accept_open-IsTaken (text_delta t) a n h s k = absurd (ground arith)
  accept_open-IsTaken (reasoning_delta t) a n h s k = absurd (ground arith)
  accept_open-IsTaken (tool_call_start j c m) a n h s k = absurd (ground arith)
  accept_open-IsTaken (tool_arguments_delta j d) a n h s k =
      elim (Option-cases (find_tool j a.tools)) [
        | inl e ↦ absurd (ground arith)
        | inr (t, e) ↦ absurd (ground arith)
      ]
  accept_open-IsTaken (generation_completed u f) a n h s k =
      elim (Result-cases (check_completion loads a u f)) [
        | inl (_, e) ↦ ground arith
        | inr (y, e) ↦ absurd (ground arith)
      ]

  record Collects (es : List GenerationEvent) (a b : Accumulator) : Type 0 where
    text : b.text ≡ a.text ++ texts es
    reasoning : b.reasoning ≡ a.reasoning ++ reasonings es
    arguments : (i : ℕ) → held_arguments i b.tools ≡ held_arguments i a.tools ++ arguments_of i es
    taken : IsTaken b

  accept_all-Collects :
      (es : List GenerationEvent) (a : Accumulator) {b : Accumulator}
      → IsTaken a
      → accept_all loads es a ≡ ok b
      → Collects es a b
  unfolding accept_all texts reasonings arguments_of
  accept_all-Collects [] a taken h = subst (Collects [] a) (ok-injective h) (record {
    text = sym (append-nil _);
    reasoning = sym (append-nil _);
    arguments = λ i. sym (append-nil _);
    taken = taken;
  })
  accept_all-Collects (e ∷ es) a {b} taken h = elim (Option-cases a.snapshot) [
    | inr (s, k) ↦ absurd (ground (arith, accept_when_complete loads e a s k))
    | inl n ↦ elim (Result-cases (accept_open loads e a).0) [
      | inr (x, r) ↦ absurd (ground (arith, accept_when_open loads e a n))
      | inl (_, r) ↦
          let c = (accept_open loads e a).1 in
          let adds = accept_open-Adds loads e a r in
          let rest =
            accept_all-Collects es c {b = b} (accept_open-IsTaken e a n r)
              (ground (arith, accept_when_open loads e a n)) in
          record {
            text =
                rest.text
                ∙ ap (λ t. t ++ texts es) adds.text
                ∙ append_assoc a.text _ _
                ∙ ap (λ t. a.text ++ t) (sym (texts-cons e es));
            reasoning =
                rest.reasoning
                ∙ ap (λ t. t ++ reasonings es) adds.reasoning
                ∙ append_assoc a.reasoning _ _
                ∙ ap (λ t. a.reasoning ++ t) (sym (reasonings-cons e es));
            arguments = λ i.
                rest.arguments i
                ∙ ap (λ t. t ++ arguments_of i es) (adds.arguments i)
                ∙ append_assoc (held_arguments i a.tools) _ _
                ∙ ap (λ t. held_arguments i a.tools ++ t) (sym (arguments_of-cons i e es));
            taken = rest.taken;
          }
    ]
  ]

tool_calls_lem :
    (k i : ℕ) (ts : List ToolState) {c : GeneratedToolCall}
    → get_elem? (tool_calls k ts) i ≡ some c
    → (c.index ≡ k + i) × (c.arguments ≡ concat (held_arguments i ts))
unfolding tool_calls held_arguments
tool_calls_lem k i [] h = absurd (cc)
tool_calls_lem k zero (t ∷ ts) h = (ground arith, ground arith)
tool_calls_lem k (suc i) (t ∷ ts) h = let (e, f) = tool_calls_lem (k + 1) i ts h in (omega arith, f)

-- If a stream of events is accepted from the start and there is a snapshot, then its text and its
-- reasoning are the joined deltas of the stream, and the i-th tool call has index i and for arguments the
-- joined argument deltas that name i.
pub snapshot_of_stream :
    (loads : String → Option Bool) (request : Request) (es : List GenerationEvent) (a : Accumulator)
    (s : GenerationSnapshot)
    → accept_all loads es (accumulator request) ≡ ok a
    → a.snapshot ≡ some s
    → (s.text ≡ concat (texts es))
      × (s.reasoning ≡ concat (reasonings es))
      × ((i : ℕ) (c : GeneratedToolCall)
          → get_elem? s.tool_calls i ≡ some c
          → (c.index ≡ i) × (c.arguments ≡ concat (arguments_of i es)))
unfolding accumulator held_arguments
snapshot_of_stream loads request es a s h k =
    let all = accept_all-Collects loads es (accumulator request) {b = a} (λ s' k'. absurd (cc)) h in
    let (et, er, ec) = all.taken s k in
    (
      et ∙ ap concat all.text,
      er ∙ ap concat all.reasoning,
      λ i c g.
          let (ei, ea) = tool_calls_lem 0 i a.tools (ap (λ l. get_elem? l i) (sym ec) ∙ g) in
          (omega arith, ea ∙ ap concat (all.arguments i ∙ refl)),
    )
