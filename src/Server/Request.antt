-- ===== src/Server/Request.antt =====
-- src/server.cpp: what a request for a response asks, from the JSON of its body.
pub mod Prepared
use adi.Base.{
  ℕ, ◌-◌, ◌+◌, ◌*◌, ◌/◌, ◌%◌, ◌^◌, Bool, true, false, not, ◌||◌, ◌&&◌, List, [], ◌∷◌, Option, none,
  some, ◌==◌, leb, ltb, if◌then◌else◌, length, list_eq, map,
}
use adi.Base.Result.{Result, ok, err, ◌>>=◌, ◌>>◌, guard}
use adi.Base.Text.{codes}
use adi.Utf8.{Bytes}
use adi.Json.Value.{Json, Charconv, find, is_null, string_of, boolean_of, number_of}
use adi.ToolCall.Tools.{FunctionTool, parse_function_tools, is_text}
use adi.Chat.Text.{ChatMessage, ChatError, Tables}
use adi.Chat.Prompt.{qwen35_chat_prompt}
use adi.Server.Messages.{
  RequestError, previous_response, invalid_tool_choice, invalid_parallel, not_an_integer,
  not_positive, tool_problem, response_messages,
}

-- What is wrong with the request, or with the prompt of its messages.
pub data PrepareError : Type 0 where
  refused : RequestError → PrepareError
  prompt_problem : ChatError → PrepareError

abbrev pub refusing {ℓ} : {A : Type ℓ} → Result RequestError A → Result PrepareError A
refusing (ok value) = ok value
refusing (err e) = err (refused e)

pub record PreparedRequest : Type 0 where
  pub prompt : Bytes
  pub tools : List FunctionTool
  pub response_tools : List Json
  pub tool_choice : Bytes
  pub parallel_tool_calls : Bool

pub offers_tools : Bytes → List FunctionTool → Bool
offers_tools tool_choice tools = list_eq tool_choice (codes "auto") && not (length tools == 0)

pub tools_enabled : PreparedRequest → Bool
tools_enabled request = offers_tools (request.tool_choice) (request.tools)

-- `result.tools = parse_function_tools(*tools)`, where there are any.
pub requested_tools : Json → Result RequestError (List FunctionTool)
requested_tools root = elim (find (codes "tools") root) [
  | none ↦ ok []
  | some tools ↦ if is_null tools then ok [] else elim (parse_function_tools tools) [
    | err e ↦ err (tool_problem e)
    | ok parsed ↦ ok parsed
  ]
]

pub requested_choice : Json → List FunctionTool → Result RequestError Bytes
requested_choice root tools = elim (find (codes "tool_choice") root) [
  | none ↦ ok (if length tools == 0 then codes "none" else codes "auto")
  | some choice ↦ elim (string_of choice) [
    | none ↦ err invalid_tool_choice
    | some text ↦
        if list_eq text (codes "auto") || list_eq text (codes "none")
        then ok text
        else err invalid_tool_choice
  ]
]

pub requested_parallel : Json → List FunctionTool → Result RequestError Bool
requested_parallel root tools = elim (find (codes "parallel_tool_calls") root) [
  | none ↦ ok (not (length tools == 0))
  | some parallel ↦ elim (boolean_of parallel) [ none ↦ err invalid_parallel | some b ↦ ok b ]
]

-- `previous != nullptr && !previous->is_null()`
pub continues_response : Json → Bool
continues_response root = elim (find (codes "previous_response_id") root) [
  | none ↦ false
  | some previous ↦ not (is_null previous)
]

abbrev pub prompt_tools : List FunctionTool → List Json
prompt_tools tools = map (λ tool. tool.prompt_definition) tools

pub request_prompt :
    Tables → List ChatMessage → Bytes → List FunctionTool → Result PrepareError Bytes
request_prompt lib messages tool_choice tools =
    elim (qwen35_chat_prompt lib messages
      (if offers_tools tool_choice tools then prompt_tools tools else [])) [
        | err e ↦ err (prompt_problem e)
        | ok prompt ↦ ok prompt
      ]

pub prepare_request : Tables → Json → Result PrepareError PreparedRequest
prepare_request lib root = do
  guard (not (continues_response root)) (refused previous_response)
  tools ← refusing (requested_tools root)
  tool_choice ← refusing (requested_choice root tools)
  parallel ← refusing (requested_parallel root tools)
  messages ← refusing (response_messages (lib.charconv) root)
  prompt ← request_prompt lib messages tool_choice tools
  ok (record {
    prompt = prompt;
    tools = tools;
    response_tools = map (λ tool. tool.response_definition) tools;
    tool_choice = tool_choice;
    parallel_tool_calls = parallel;
  })

abbrev pub maximum_u32 : ℕ
maximum_u32 = 2 ^ 32 - 1

abbrev pub exponent_of : ℕ → ℕ
exponent_of bits = bits / 2 ^ 52 % 2 ^ 11

abbrev pub significand_of : ℕ → ℕ
significand_of bits = if exponent_of bits == 0 then bits % 2 ^ 52 else 2 ^ 52 + bits % 2 ^ 52

-- The magnitude of a double that is a whole number, `std::floor(x) == x`. The exponent is biased by
-- 1023, and the significand has 52 bits behind its point: 1075 in all.
pub whole_of : ℕ → Option ℕ
whole_of bits =
    if exponent_of bits == 2047
    then none
    else if leb 1075 (exponent_of bits)
    then some (significand_of bits * 2 ^ (exponent_of bits - 1075))
    else if significand_of bits % 2 ^ (1075 - exponent_of bits) == 0
    then some (significand_of bits / 2 ^ (1075 - exponent_of bits))
    else none

abbrev pub is_signed : ℕ → Bool
is_signed bits = bits / 2 ^ 63 % 2 == 1

-- A whole number from `least` on that a 32-bit integer holds; a negative zero is a zero.
pub u32_of : ℕ → ℕ → Option ℕ
u32_of least bits = elim (whole_of bits) [
  | none ↦ none
  | some value ↦
      if is_signed bits && not (value == 0) || (ltb value least || ltb maximum_u32 value)
      then none
      else some value
]

pub integer_option : Json → Bytes → ℕ → Result RequestError ℕ
integer_option root key fallback = elim (find key root) [
  | none ↦ ok fallback
  | some value ↦ elim (number_of value) [
    | none ↦ err (not_an_integer key)
    | some number ↦ elim (u32_of 0 number) [ none ↦ err (not_an_integer key) | some n ↦ ok n ]
  ]
]

pub optional_u32_option : Json → Bytes → Result RequestError (Option ℕ)
optional_u32_option root key = elim (find key root) [
  | none ↦ ok none
  | some value ↦ elim (number_of value) [
    | none ↦ err (not_positive key)
    | some number ↦ elim (u32_of 1 number) [ none ↦ err (not_positive key) | some n ↦ ok (some n) ]
  ]
]
