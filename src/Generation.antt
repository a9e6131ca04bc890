-- ===== src/Generation.antt =====
-- src/ams/api/generation.py: the events of a model, and the accumulator that checks one stream of them.
-- Texts are native strings; a list of parts is joined by `concat`.
pub mod Stream
pub mod Transaction
pub mod Order
mod Tests
use accumulative_matrix_swee.Prelude.{
  ℕ, zero, suc, ◌+◌, ◌≡◌, Bool, true, false, not, ◌&&◌, ◌||◌, Option, none, some, List, [], ◌∷◌,
  ◌++◌, map, String, ltb, ◌==◌, any, length, if◌then◌else◌,
}
use Prim.Native.String.{◌++◌ as str_append}
use accumulative_matrix_swee.Prelude.Text.{str_eq}
use accumulative_matrix_swee.Prelude.Int.{ℤ, pos, negsuc}
use accumulative_matrix_swee.Errors.{
  Result, ok, err, raise, raise_if, internal_invariant, ◌>>=◌, ◌>>◌,
}
use accumulative_matrix_swee.Checked.{Value, int, nat}

pub record GenerationUsage : Type 0 where
  pub input_tokens : ℕ
  pub output_tokens : ℕ
  pub cached_input_tokens : ℕ
  pub reasoning_tokens : ℕ

-- `isinstance(value, int) and not isinstance(value, bool) and value >= 0`
nonnegative : Value → Result ℕ
nonnegative (int (pos n)) = ok n
nonnegative _ = raise internal_invariant

-- The constructor with its `__post_init__`.
unfoldable pub generation_usage : Value → Value → Value → Value → Result GenerationUsage
unfolding nonnegative
generation_usage input_tokens output_tokens cached_input_tokens reasoning_tokens = do
  i ← nonnegative input_tokens
  o ← nonnegative output_tokens
  c ← nonnegative cached_input_tokens
  r ← nonnegative reasoning_tokens
  raise_if (ltb i c) internal_invariant
  raise_if (ltb o r) internal_invariant
  ok (record { input_tokens = i; output_tokens = o; cached_input_tokens = c; reasoning_tokens = r })

abbrev pub total_tokens : GenerationUsage → ℕ
total_tokens u = u.input_tokens + u.output_tokens

pub data GenerationEvent : Type 0 where
  text_delta : String → GenerationEvent
  reasoning_delta : String → GenerationEvent
  tool_call_start : ℕ → String → String → GenerationEvent
  tool_arguments_delta : ℕ → String → GenerationEvent
  generation_completed : GenerationUsage → String → GenerationEvent

pub record GeneratedToolCall : Type 0 where
  pub index : ℕ
  pub call_id : String
  pub name : String
  pub arguments : String

-- The first half of an entry of `output_order`, `"message"`, `"reasoning"` or `"tool"`.
pub data OutputKind : Type 0 where
  message reasoning tool : OutputKind

pub record GenerationSnapshot : Type 0 where
  pub text : String
  pub reasoning : String
  pub tool_calls : List GeneratedToolCall
  pub output_order : List (OutputKind × ℕ)
  pub usage : GenerationUsage
  pub finish_reason : String

pub record ToolState : Type 0 where
  pub call_id : String
  pub name : String
  pub arguments : List String

-- What the accumulator reads of a `NormalizedOpenAIRequest`: the names of the declared tools, the limit,
-- and the kind of structured output (`json_object` or another).
pub record Request : Type 0 where
  pub tools : List String
  pub max_output_tokens : Option ℕ
  pub structured_output : Option String

-- The accumulator: `_tools` is a dict whose keys are 0, 1, …, so it is the list of its values.
pub record Accumulator : Type 0 where
  pub request : Request
  pub text : List String
  pub reasoning : List String
  pub tools : List ToolState
  pub output_order : List (OutputKind × ℕ)
  pub text_started : Bool
  pub reasoning_started : Bool
  pub snapshot : Option GenerationSnapshot

unfoldable pub accumulator : Request → Accumulator
accumulator request = record {
  request = request;
  text = [];
  reasoning = [];
  tools = [];
  output_order = [];
  text_started = false;
  reasoning_started = false;
  snapshot = none;
}

-- `"".join(parts)`
unfoldable pub concat : List String → String
concat [] = ""
concat (s ∷ ss) = str_append s (concat ss)

unfoldable pub find_tool : ℕ → List ToolState → Option ToolState
find_tool i [] = none
find_tool zero (t ∷ ts) = some t
find_tool (suc i) (t ∷ ts) = find_tool i ts

-- `state.arguments.append(delta)` of the tool with an index.
unfoldable pub append_argument : ℕ → String → List ToolState → List ToolState
append_argument i delta [] = []
append_argument zero delta (t ∷ ts) = record t { arguments = t.arguments ++ delta ∷ [] } ∷ ts
append_argument (suc i) delta (t ∷ ts) = t ∷ append_argument i delta ts

abbrev pub call_of : ℕ → ToolState → GeneratedToolCall
call_of index t = record {
  index = index;
  call_id = t.call_id;
  name = t.name;
  arguments = concat t.arguments;
}

-- `GenerationAccumulator.tool_call`
unfoldable pub tool_call : ℕ → Accumulator → Result GeneratedToolCall
unfolding find_tool
tool_call index a = elim (find_tool index a.tools) [
  | none ↦ raise internal_invariant
  | some t ↦ ok (call_of index t)
]

-- `tuple(self.tool_call(index) for index in range(len(self._tools)))` from an index on.
unfoldable pub tool_calls : ℕ → List ToolState → List GeneratedToolCall
tool_calls i [] = []
tool_calls i (t ∷ ts) = call_of i t ∷ tool_calls (i + 1) ts

is_finish_reason : String → Bool
is_finish_reason s =
    str_eq s "stop" || str_eq s "length" || str_eq s "content_filter" || str_eq s "tool_calls"

exceeds : ℕ → Option ℕ → Bool
exceeds n none = false
exceeds n (some limit) = ltb limit n

-- `if not self._text_started`, and the same of the reasoning.
abbrev pub start_output : Bool → OutputKind → List (OutputKind × ℕ) → List (OutputKind × ℕ)
start_output started kind order = if started then order else order ++ (kind, 0) ∷ []

-- `if not self._output_order`
abbrev pub default_order : List (OutputKind × ℕ) → List (OutputKind × ℕ)
default_order [] = (message, 0) ∷ []
default_order (o ∷ os) = o ∷ os

abbrev pub default_started : List (OutputKind × ℕ) → Bool → Bool
default_started [] started = true
default_started (o ∷ os) started = started

-- `json.loads` with the hooks that refuse duplicate keys and constants is a parameter: `none` where it
-- raises, else whether the value is an object.
module _ (loads : String → Option Bool) where
  -- `_validate_arguments`
  unfoldable pub validate_arguments : String → Result (Unit {0})
  validate_arguments arguments = elim (loads arguments) [
    | none ↦ raise internal_invariant
    | some is_object ↦ raise_if (not is_object) internal_invariant
  ]

  unfoldable pub validate_tools : List GeneratedToolCall → Result (Unit {0})
  unfolding validate_arguments
  validate_tools [] = ok tt
  validate_tools (t ∷ ts) = do validate_arguments t.arguments; validate_tools ts

  -- The check of a structured output.
  unfoldable pub validate_structured : Option String → String → String → Result (Unit {0})
  validate_structured none finish_reason text = ok tt
  validate_structured (some kind) finish_reason text =
      if str_eq finish_reason "tool_calls" then ok tt else elim (loads text) [
        | none ↦ raise internal_invariant
        | some is_object ↦ raise_if (str_eq kind "json_object" && not is_object) internal_invariant
      ]

  -- The checks of `accept` on a completion, in the order of the source.
  unfoldable pub check_completion : Accumulator → GenerationUsage → String → Result (Unit {0})
  unfolding is_finish_reason exceeds validate_tools validate_structured
  check_completion a usage finish_reason = do
    raise_if (not (is_finish_reason finish_reason)) internal_invariant
    raise_if (not (length a.tools == 0) && not (str_eq finish_reason "tool_calls"))
        internal_invariant
    raise_if (length a.tools == 0 && str_eq finish_reason "tool_calls") internal_invariant
    raise_if (exceeds usage.output_tokens a.request.max_output_tokens) internal_invariant
    validate_tools (tool_calls 0 a.tools)
    validate_structured a.request.structured_output finish_reason (concat a.text)

  -- `accept` once the stream is known not to be complete.
  unfoldable pub accept_open : GenerationEvent → Accumulator → Result (Unit {0}) × Accumulator
  unfolding find_tool append_argument check_completion
  accept_open (text_delta text) a = if str_eq text "" then (raise internal_invariant, a) else (
    ok tt,
    record a {
      text = a.text ++ text ∷ [];
      text_started = true;
      output_order = start_output a.text_started message a.output_order;
    },
  )
  accept_open (reasoning_delta text) a = if str_eq text "" then (raise internal_invariant, a) else (
    ok tt,
    record a {
      reasoning = a.reasoning ++ text ∷ [];
      reasoning_started = true;
      output_order = start_output a.reasoning_started reasoning a.output_order;
    },
  )
  accept_open (tool_call_start index call_id name) a =
      if not (index == length a.tools)
      then (raise internal_invariant, a)
      else if str_eq call_id "" || str_eq name ""
      then (raise internal_invariant, a)
      else if any (λ t. str_eq call_id t.call_id) a.tools
      then (raise internal_invariant, a)
      else if not (any (str_eq name) a.request.tools)
      then (raise internal_invariant, a)
      else (
        ok tt,
        record a {
          tools = a.tools ++ record { call_id = call_id; name = name; arguments = [] } ∷ [];
          output_order = a.output_order ++ (tool, index) ∷ [];
        },
      )
  accept_open (tool_arguments_delta index delta) a =
      if str_eq delta "" then (raise internal_invariant, a) else elim (find_tool index a.tools) [
        | none ↦ (raise internal_invariant, a)
        | some _ ↦ (ok tt, record a { tools = append_argument index delta a.tools })
      ]
  accept_open (generation_completed usage finish_reason) a =
      elim (check_completion a usage finish_reason) [
        | err e ↦ (err e, a)
        | ok _ ↦ (
          ok tt,
          record a {
            text_started = default_started a.output_order a.text_started;
            output_order = default_order a.output_order;
            snapshot = some (record {
              text = concat a.text;
              reasoning = concat a.reasoning;
              tool_calls = tool_calls 0 a.tools;
              output_order = default_order a.output_order;
              usage = usage;
              finish_reason = finish_reason;
            });
          },
        )
      ]

  -- `GenerationAccumulator.accept`
  unfoldable pub accept : GenerationEvent → Accumulator → Result (Unit {0}) × Accumulator
  accept event a = elim a.snapshot [
    | some _ ↦ (raise internal_invariant, a)
    | none ↦ accept_open event a
  ]

-- `GenerationAccumulator.snapshot`
unfoldable pub final_snapshot : Accumulator → Result GenerationSnapshot
final_snapshot a = elim a.snapshot [ none ↦ raise internal_invariant | some s ↦ ok s ]
