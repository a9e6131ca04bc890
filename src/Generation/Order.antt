-- ===== src/Generation/Order.antt =====
-- src/ams/api/generation.py: the order of the outputs, and the identities of the tool calls.
use mathlib.Core.Path.{subst}
use accumulative_matrix_swee.Prelude.{
  ℕ, zero, suc, ◌≡◌, refl, ◌∙◌, list_cases, Bool, true, false, ◌&&◌, ◌||◌, Option, Option-cases,
  List, [], ◌∷◌, ◌++◌, String, arith, inl, inr, ltb, ◌==◌, any, All, All-append, length,
  length-append, eq_iff,
}
use accumulative_matrix_swee.Prelude.Text.{str_eq}
use accumulative_matrix_swee.Errors.{ok, Result-cases, ok-injective}
use accumulative_matrix_swee.Generation.{
  GenerationEvent, text_delta, reasoning_delta, tool_call_start, tool_arguments_delta,
  generation_completed, OutputKind, message, reasoning, tool, ToolState, Request, Accumulator,
  accumulator, find_tool, start_output, default_started, default_order, append_argument,
  check_completion, accept_open,
}
use accumulative_matrix_swee.Generation.Transaction.{accept_when_open, accept_when_complete}
use accumulative_matrix_swee.Generation.Stream.{accept_all}

abbrev pub output_eq : OutputKind → OutputKind → Bool
output_eq message message = true
output_eq reasoning reasoning = true
output_eq tool tool = true
output_eq _ _ = false

-- `(kind, index) in order`
unfoldable pub in_order : OutputKind → ℕ → List (OutputKind × ℕ) → Bool
in_order kind index [] = false
in_order kind index ((k, i) ∷ order) = output_eq kind k && index == i || in_order kind index order

abbrev pub UniqueOutputs : List (OutputKind × ℕ) → Type 0
UniqueOutputs [] = Unit
UniqueOutputs ((k, i) ∷ order) = (in_order k i order ≡ false) × UniqueOutputs order

abbrev pub UniqueCalls : List ToolState → Type 0
UniqueCalls [] = Unit
UniqueCalls (t ∷ ts) = (any (λ u. str_eq t.call_id u.call_id) ts ≡ false) × UniqueCalls ts

-- Each output stands once in the order: the message and the reasoning if they have started, the tools
-- 0, 1, … of the calls; the calls have distinct identifiers and declared names.
pub record IsOrdered (a : Accumulator) : Type 0 where
  pub messages : (i : ℕ) → in_order message i a.output_order ≡ (i == 0 && a.text_started)
  pub reasonings : (i : ℕ) → in_order reasoning i a.output_order ≡ (i == 0 && a.reasoning_started)
  pub tools : (i : ℕ) → in_order tool i a.output_order ≡ ltb i (length a.tools)
  pub unique : UniqueOutputs a.output_order
  pub calls : UniqueCalls a.tools
  pub declared : All (λ (t : ToolState). any (str_eq t.name) a.request.tools ≡ true) a.tools

pub in_order-append :
    (k : OutputKind) (i : ℕ) (order : List (OutputKind × ℕ)) (l : OutputKind) (j : ℕ)
    → in_order k i (order ++ (l, j) ∷ []) ≡ (in_order k i order || output_eq k l && i == j)
unfolding in_order
in_order-append k i [] l j = ground arith
in_order-append k i ((m, n) ∷ order) l j = ground (arith, in_order-append k i order l j)

output_eq_sym : (k l : OutputKind) → output_eq k l ≡ output_eq l k
output_eq_sym k l = ground arith

UniqueOutputs-append :
    (order : List (OutputKind × ℕ)) (k : OutputKind) (i : ℕ)
    → in_order k i order ≡ false
    → UniqueOutputs order
    → UniqueOutputs (order ++ (k, i) ∷ [])
unfolding in_order
UniqueOutputs-append [] k i h u = (refl, tt)
UniqueOutputs-append ((l, j) ∷ order) k i h u =
    ground (arith, UniqueOutputs-append order k i, in_order-append l j order k i, output_eq_sym k l)

any-call_append :
    (c d n : String) (ts : List ToolState)
    → any (λ u. str_eq c u.call_id) (ts ++ record { call_id = d; name = n; arguments = [] } ∷ [])
      ≡ (any (λ u. str_eq c u.call_id) ts || str_eq c d)
any-call_append c d n [] = ground arith
any-call_append c d n (t ∷ ts) = ground (arith, any-call_append c d n ts)

UniqueCalls-append :
    (ts : List ToolState) (c n : String)
    → any (λ t. str_eq c t.call_id) ts ≡ false
    → UniqueCalls ts
    → UniqueCalls (ts ++ record { call_id = c; name = n; arguments = [] } ∷ [])
UniqueCalls-append [] c n h u = (refl, tt)
UniqueCalls-append (t ∷ ts) c n h u = ground (
  arith,
  UniqueCalls-append ts c n,
  any-call_append t.call_id c n ts,
  eq_iff t.call_id c,
  eq_iff c t.call_id,
)

length-append_argument :
    (i : ℕ) (d : String) (ts : List ToolState) → length (append_argument i d ts) ≡ length ts
unfolding append_argument
length-append_argument i d [] = refl
length-append_argument zero d (t ∷ ts) = refl
length-append_argument (suc i) d (t ∷ ts) = omega (arith, length-append_argument i d ts)

any-append_argument :
    (c : String) (i : ℕ) (d : String) (ts : List ToolState)
    → any (λ u. str_eq c u.call_id) (append_argument i d ts) ≡ any (λ u. str_eq c u.call_id) ts
unfolding append_argument
any-append_argument c i d [] = refl
any-append_argument c zero d (t ∷ ts) = refl
any-append_argument c (suc i) d (t ∷ ts) = ground (arith, any-append_argument c i d ts)

UniqueCalls-append_argument :
    (i : ℕ) (d : String) (ts : List ToolState)
    → UniqueCalls ts
    → UniqueCalls (append_argument i d ts)
unfolding append_argument
UniqueCalls-append_argument i d [] u = u
UniqueCalls-append_argument zero d (t ∷ ts) u = u
UniqueCalls-append_argument (suc i) d (t ∷ ts) u =
    (any-append_argument t.call_id i d ts ∙ u.0, UniqueCalls-append_argument i d ts u.1)

abbrev Declared : List String → List ToolState → Type 0
Declared names ts = All (λ (t : ToolState). any (str_eq t.name) names ≡ true) ts

Declared-append_argument :
    (names : List String) (i : ℕ) (d : String) (ts : List ToolState)
    → Declared names ts
    → Declared names (append_argument i d ts)
unfolding append_argument
Declared-append_argument names i d [] h = h
Declared-append_argument names zero d (t ∷ ts) h = h
Declared-append_argument names (suc i) d (t ∷ ts) h =
    (h.0, Declared-append_argument names i d ts h.1)

default_order-IsOrdered :
    (a : Accumulator)
    → IsOrdered a
    → IsOrdered (record a {
      text_started = default_started a.output_order a.text_started;
      output_order = default_order a.output_order;
    })
unfolding in_order
default_order-IsOrdered a h = elim (list_cases a.output_order) [
  | inl e ↦ record {
    messages = λ i. ground (arith, h.messages i);
    reasonings = λ i. ground (arith, h.reasonings i);
    tools = λ i. ground (arith, h.tools i);
    unique = ground arith;
    calls = h.calls;
    declared = h.declared;
  }
  | inr (o, os, e) ↦ record {
    messages = λ i. ground (arith, h.messages i);
    reasonings = λ i. ground (arith, h.reasonings i);
    tools = λ i. ground (arith, h.tools i);
    unique = ground arith;
    calls = h.calls;
    declared = h.declared;
  }
]

module _ (loads : String → Option Bool) where
  pub text_lem :
      (t : String) (a : Accumulator)
      → (accept_open loads (text_delta t) a).0 ≡ ok tt
      → (accept_open loads (text_delta t) a).1 ≡ record a {
        text = a.text ++ t ∷ [];
        text_started = true;
        output_order = start_output a.text_started message a.output_order;
      }
  unfolding accept_open
  text_lem t a r = ground arith

  pub reasoning_lem :
      (t : String) (a : Accumulator)
      → (accept_open loads (reasoning_delta t) a).0 ≡ ok tt
      → (accept_open loads (reasoning_delta t) a).1 ≡ record a {
        reasoning = a.reasoning ++ t ∷ [];
        reasoning_started = true;
        output_order = start_output a.reasoning_started reasoning a.output_order;
      }
  unfolding accept_open
  reasoning_lem t a r = ground arith

  pub tool_call_start_lem :
      (j : ℕ) (c n : String) (a : Accumulator)
      → (accept_open loads (tool_call_start j c n) a).0 ≡ ok tt
      → ((accept_open loads (tool_call_start j c n) a).1 ≡ record a {
        tools = a.tools ++ record { call_id = c; name = n; arguments = [] } ∷ [];
        output_order = a.output_order ++ (tool, j) ∷ [];
      })
        × (j ≡ length a.tools)
        × (any (λ t. str_eq c t.call_id) a.tools ≡ false)
        × (any (str_eq n) a.request.tools ≡ true)
  unfolding accept_open
  tool_call_start_lem j c n a r = (ground arith, ground arith, ground arith, ground arith)

  pub accept_open-IsOrdered :
      (e : GenerationEvent) (a : Accumulator)
      → IsOrdered a
      → (accept_open loads e a).0 ≡ ok tt
      → IsOrdered (accept_open loads e a).1
  unfolding accept_open
  accept_open-IsOrdered (text_delta t) a h r =
      let app = λ (k : OutputKind) (i : ℕ). in_order-append k i a.output_order message 0 in
      rw (text_lem t a r) (record {
        messages = λ i. ground (arith, h.messages i, app message i);
        reasonings = λ i. ground (arith, h.reasonings i, app reasoning i);
        tools = λ i. ground (arith, h.tools i, app tool i);
        unique = ground (arith, h.messages 0, UniqueOutputs-append a.output_order message 0);
        calls = h.calls;
        declared = h.declared;
      })
  accept_open-IsOrdered (reasoning_delta t) a h r =
      let app = λ (k : OutputKind) (i : ℕ). in_order-append k i a.output_order reasoning 0 in
      rw (reasoning_lem t a r) (record {
        messages = λ i. ground (arith, h.messages i, app message i);
        reasonings = λ i. ground (arith, h.reasonings i, app reasoning i);
        tools = λ i. ground (arith, h.tools i, app tool i);
        unique = ground (arith, h.reasonings 0, UniqueOutputs-append a.output_order reasoning 0);
        calls = h.calls;
        declared = h.declared;
      })
  accept_open-IsOrdered (tool_call_start j c n) a h r =
      let app = λ (k : OutputKind) (i : ℕ). in_order-append k i a.output_order tool j in
      let len = length-append a.tools (record { call_id = c; name = n; arguments = [] } ∷ []) in
      let (same, ej, fresh, known) = tool_call_start_lem j c n a r in
      rw same (record {
        messages = λ i. ground (arith, h.messages i, app message i);
        reasonings = λ i. ground (arith, h.reasonings i, app reasoning i);
        tools = λ i. ground (arith, h.tools i, app tool i);
        unique = ground (arith, h.tools j, UniqueOutputs-append a.output_order tool j);
        calls = UniqueCalls-append a.tools c n fresh h.calls;
        declared =
            All-append (λ (t : ToolState). any (str_eq t.name) a.request.tools ≡ true) a.tools _
              h.declared (known, tt);
      })
  accept_open-IsOrdered (tool_arguments_delta j d) a h r =
      let len = length-append_argument j d a.tools in
      elim (Option-cases (find_tool j a.tools)) [
        | inl e ↦ absurd (ground arith)
        | inr (t, e) ↦
            let same : (accept_open loads (tool_arguments_delta j d) a).1
                ≡ record a { tools = append_argument j d a.tools } =
              ground arith in
            rw same (record {
              messages = h.messages;
              reasonings = h.reasonings;
              tools = λ i. ground (arith, h.tools i);
              unique = h.unique;
              calls = UniqueCalls-append_argument j d a.tools h.calls;
              declared = Declared-append_argument a.request.tools j d a.tools h.declared;
            })
      ]
  accept_open-IsOrdered (generation_completed u f) a h r =
      elim (Result-cases (check_completion loads a u f)) [
        | inl (_, e) ↦
            let v = default_order-IsOrdered a h in
            rw (e, accept_open)
              (record {
                messages = v.messages;
                reasonings = v.reasonings;
                tools = v.tools;
                unique = v.unique;
                calls = v.calls;
                declared = v.declared;
              })
        | inr (y, e) ↦ absurd (ground arith)
      ]

  accept_all-IsOrdered :
      (es : List GenerationEvent) (a : Accumulator) {b : Accumulator}
      → IsOrdered a
      → accept_all loads es a ≡ ok b
      → IsOrdered b
  unfolding accept_all
  accept_all-IsOrdered [] a h r = subst IsOrdered (ok-injective r) h
  accept_all-IsOrdered (e ∷ es) a {b} h r = elim (Option-cases a.snapshot) [
    | inr (s, k) ↦ absurd (ground (arith, accept_when_complete loads e a s k))
    | inl n ↦ elim (Result-cases (accept_open loads e a).0) [
      | inr (x, k) ↦ absurd (ground (arith, accept_when_open loads e a n))
      | inl (_, k) ↦
          accept_all-IsOrdered es (accept_open loads e a).1 {b = b} (accept_open-IsOrdered e a h k)
            (ground (arith, accept_when_open loads e a n))
    ]
  ]

-- After any accepted stream the order of the outputs names the message and the reasoning exactly if they
-- have started, the tools 0, 1, … of the calls, and nothing twice; call identifiers are distinct, and
-- every call names a declared tool.
pub stream-IsOrdered :
    (loads : String → Option Bool) (request : Request) (es : List GenerationEvent) (a : Accumulator)
    → accept_all loads es (accumulator request) ≡ ok a
    → IsOrdered a
unfolding accumulator
stream-IsOrdered loads request es a r =
    accept_all-IsOrdered loads es (accumulator request) {b = a}
      (record {
        messages = λ i. unfold in_order in ground arith;
        reasonings = λ i. unfold in_order in ground arith;
        tools = λ i. unfold in_order in ground arith;
        unique = tt;
        calls = tt;
        declared = tt;
      })
      r
