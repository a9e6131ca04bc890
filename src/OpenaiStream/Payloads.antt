-- ===== src/OpenaiStream/Payloads.antt =====
-- src/ams/api/openai_stream.py: the identity of a response and the payloads of its two encodings. A
-- payload that the code builds as a dict is a constructor or a record with the fields of that dict;
-- the literal fields of it ("object", "role", "annotations", an index 0) are left to the constructor.
use Prim.Native.Char.{code}
use Prim.Native.String.{◌++◌ as str_append}
use accumulative_matrix_swee.Prelude.{
  ℕ, zero, suc, ◌/◌, ◌%◌, Bool, Option, none, some, List, String, ltb, ◌==◌, if◌then◌else◌,
}
use accumulative_matrix_swee.Prelude.Int.{ℤ}
use accumulative_matrix_swee.Prelude.Text.{str_eq}
use accumulative_matrix_swee.Errors.{Result, ok, raise, raise_if, plan_invalid, ◌>>=◌, ◌>>◌}
use accumulative_matrix_swee.Checked.{Value, int, bool, str, other}

pub record ResponseIdentity : Type 0 where
  pub response_id : String
  pub message_id : String
  pub reasoning_id : String
  pub created_at : ℤ

-- `isinstance(created_at, int) and not isinstance(created_at, bool)`
integer : Value → Result ℤ
integer (int n) = ok n
integer (bool _) = raise plan_invalid
integer (str _) = raise plan_invalid
integer other = raise plan_invalid

unfoldable pub response_identity : String → String → String → Value → Result ResponseIdentity
unfolding integer
response_identity response_id message_id reasoning_id created_at = do
  raise_if (str_eq response_id "") plan_invalid
  raise_if (str_eq message_id "") plan_invalid
  raise_if (str_eq reasoning_id "") plan_invalid
  n ← integer created_at
  ok (record {
    response_id = response_id;
    message_id = message_id;
    reasoning_id = reasoning_id;
    created_at = n;
  })

-- `text.removeprefix(prefix)`: what follows the prefix, if the text begins with it.
after_prefix : String → String → Option String
after_prefix String.[] text = some text
after_prefix (String.◌∷◌ c p) String.[] = none
after_prefix (String.◌∷◌ c p) (String.◌∷◌ d text) =
    if code c == code d then after_prefix p text else none

unfoldable pub remove_prefix : String → String → String
unfolding after_prefix
remove_prefix prefix text = elim (after_prefix prefix text) [ none ↦ text | some rest ↦ rest ]

digit : ℕ → String
digit zero = "0"
digit (suc zero) = "1"
digit (suc (suc zero)) = "2"
digit (suc (suc (suc zero))) = "3"
digit (suc (suc (suc (suc zero)))) = "4"
digit (suc (suc (suc (suc (suc zero))))) = "5"
digit (suc (suc (suc (suc (suc (suc zero)))))) = "6"
digit (suc (suc (suc (suc (suc (suc (suc zero))))))) = "7"
digit (suc (suc (suc (suc (suc (suc (suc (suc zero)))))))) = "8"
digit (suc (suc (suc (suc (suc (suc (suc (suc (suc n))))))))) = "9"

-- The decimal digits of a number; a number has at most as many digits as it has units, and one.
decimal_digits : ℕ → ℕ → String
unfolding digit
decimal_digits zero n = ""
decimal_digits (suc fuel) n =
    let rest = decimal_digits fuel (n / 10) in
    if ltb n 10 then digit n else str_append rest (digit (n % 10))

unfoldable pub decimal : ℕ → String
unfolding decimal_digits
decimal n = decimal_digits (suc n) n

-- `_tool_item_id`
unfoldable pub tool_item_id : ResponseIdentity → ℕ → String
unfolding remove_prefix decimal
tool_item_id identity index =
    str_append "fc_"
      (str_append (remove_prefix "resp_" identity.response_id) (str_append "_" (decimal index)))

pub data Status : Type 0 where
  in_progress completed : Status

-- An output item: its texts are those of its `output_text` and `summary_text` parts.
pub data Item : Type 0 where
  message_item : String → Status → List String → Item
  reasoning_item : String → List String → Status → Item
  function_call : String → String → String → String → Status → Item

pub record ResponsesUsage : Type 0 where
  pub input_tokens : ℕ
  pub output_tokens : ℕ
  pub total_tokens : ℕ
  pub cached_tokens : ℕ
  pub reasoning_tokens : ℕ

pub record ResponsesObject : Type 0 where
  pub id : String
  pub created_at : ℤ
  pub model : String
  pub status : Status
  pub output : List Item
  pub usage : Option ResponsesUsage

-- The fields of an event of the Responses encoding, by its "type"; `output_index` follows `item_id`.
pub data Body : Type 0 where
  response_created : ResponsesObject → Body
  output_item_added : ℕ → Item → Body
  content_part_added : String → ℕ → String → Body
  reasoning_summary_part_added : String → ℕ → String → Body
  output_text_delta : String → ℕ → String → Body
  reasoning_summary_text_delta : String → ℕ → String → Body
  function_call_arguments_delta : String → ℕ → String → Body
  output_text_done : String → ℕ → String → Body
  content_part_done : String → ℕ → String → Body
  reasoning_summary_text_done : String → ℕ → String → Body
  reasoning_summary_part_done : String → ℕ → String → Body
  function_call_arguments_done : String → ℕ → String → String → Body
  output_item_done : ℕ → Item → Body
  response_completed : ResponsesObject → Body
  error : String → String → Option String → Body

pub record Event : Type 0 where
  pub sequence_number : ℕ
  pub body : Body

-- The delta of a chunk of Chat Completions, apart from its role.
pub data Delta : Type 0 where
  content : String → Delta
  reasoning_content : String → Delta
  tool_start : ℕ → String → String → Delta
  tool_arguments : ℕ → String → Delta
  empty : Delta

-- `role` says that the delta has `"role": "assistant"`.
pub record Chunk : Type 0 where
  pub id : String
  pub created : ℤ
  pub model : String
  pub role : Bool
  pub delta : Delta
  pub finish_reason : Option String
  pub usage : Option ResponsesUsage

pub record ChatToolCall : Type 0 where
  pub id : String
  pub name : String
  pub arguments : String

-- The message of a body of Chat Completions: `none` is a missing field, or a content that is null.
pub record ChatCompletion : Type 0 where
  pub id : String
  pub created : ℤ
  pub model : String
  pub content : Option String
  pub reasoning_content : Option String
  pub tool_calls : Option (List ChatToolCall)
  pub finish_reason : String
  pub usage : ResponsesUsage

pub data Payload : Type 0 where
  event : Event → Payload
  chunk : Chunk → Payload
  chat_error : String → String → Option String → String → Payload

pub data ResponseBody : Type 0 where
  response : ResponsesObject → ResponseBody
  chat_completion : ChatCompletion → ResponseBody
