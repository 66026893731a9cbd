-- ===== src/ToolCall/Calls.antt =====
-- src/tool_call.cpp: the calls in the model's text. The position is the text that is left.
pub mod Valid
use adi.Base.{
  ℕ, zero, suc, Bool, true, false, not, ◌||◌, ◌&&◌, List, [], ◌∷◌, ◌++◌, Option, none, some, ltb,
  ◌==◌, if◌then◌else◌, length, list_eq, drop,
}
use adi.Base.Result.{Result, ok, err, ◌>>=◌, ◌>>◌, guard}
use adi.Base.Text.{codes}
use adi.Utf8.{Bytes}
use adi.Json.Value.{
  Json, Items, Fields, string, object, no_items, item, no_fields, field, find, is_null, boolean_of,
  number_of, string_of, array_of, object_of, Charconv,
}
use adi.Json.Lexer.{whitespace}
use adi.Json.Parser.{parse_json}
use adi.Json.Printer.{json_dump}
use adi.ToolCall.Tools.{FunctionTool, valid_name}

abbrev pub tool_open : Bytes
tool_open = codes "<tool_call>"

abbrev pub tool_close : Bytes
tool_close = codes "</tool_call>"

abbrev pub function_open : Bytes
function_open = codes "<function="

abbrev pub function_close : Bytes
function_close = codes "</function>"

abbrev pub parameter_open : Bytes
parameter_open = codes "<parameter="

abbrev pub parameter_close : Bytes
parameter_close = codes "</parameter>"

pub data CallError : Type 0 where
  malformed_call : CallError
  incomplete_call : CallError
  invalid_call_name : CallError
  unknown_function : CallError
  unknown_parameter : CallError
  schema_not_an_object : CallError
  schema_type_not_a_string : CallError
  invalid_parameter : CallError
  missing_parameter : CallError
  repeated_parameter : CallError
  incomplete_parameter : CallError
  malformed_function : CallError
  malformed_wrapper : CallError
  number_not_printable : CallError
  content_after_call : CallError
  parallel_calls : CallError
  -- no errors of the program: a null pointer's dereference, and a loop of the model out of rounds
  null_dereference : CallError
  out_of_rounds : CallError

-- What the code takes from the C++ library: the conversions of doubles, and `floor(x) == x`.
pub record Doubles : Type 0 where
  pub charconv : Charconv
  pub is_integral : ℕ → Bool

pub record FunctionCall : Type 0 where
  pub name : Bytes
  pub arguments : Json
  pub arguments_json : Bytes

pub record ParsedModelOutput : Type 0 where
  pub text : Bytes
  pub function_calls : List FunctionCall

unfoldable pub starts_with : Bytes → Bytes → Bool
starts_with [] text = true
starts_with (c ∷ prefix) [] = false
starts_with (c ∷ prefix) (d ∷ text) = c == d && starts_with prefix text

-- `text.find(needle)`: the text in front of its first occurrence, and the text from there on.
unfoldable pub find_text : Bytes → Bytes → Option (Bytes × Bytes)
find_text needle [] = if starts_with needle [] then some ([], []) else none
find_text needle (c ∷ text) =
    if starts_with needle (c ∷ text) then some ([], c ∷ text) else elim (find_text needle text) [
      | none ↦ none
      | some (before, found) ↦ some (c ∷ before, found)
    ]

pub parse_tag_name : Bytes → Bytes → Result CallError (Bytes × Bytes)
parse_tag_name opening text = do
  guard (starts_with opening text) malformed_call
  elim (find_text (b'>' ∷ []) (drop (length opening) text)) [
    | none ↦ err incomplete_call
    | some (name, after) ↦
        if valid_name name then ok (name, drop 1 after) else err invalid_call_name
  ]

pub find_tool : List FunctionTool → Bytes → Result CallError FunctionTool
find_tool [] name = err unknown_function
find_tool (tool ∷ tools) name = if list_eq (tool.name) name then ok tool else find_tool tools name

pub property_schema : FunctionTool → Bytes → Option Json
property_schema tool name = elim (find (codes "properties") (tool.parameters)) [
  | none ↦ none
  | some properties ↦ find name properties
]

-- `additionalProperties` is there and is false.
pub is_closed : FunctionTool → Bool
is_closed tool = elim (find (codes "additionalProperties") (tool.parameters)) [
  | none ↦ false
  | some additional ↦ elim (boolean_of additional) [ none ↦ false | some b ↦ not b ]
]

abbrev pub is_some {ℓ} : {A : Type ℓ} → Option A → Bool
is_some none = false
is_some (some a) = true

-- Whether a value has the type that a schema names.
pub has_type : (ℕ → Bool) → Bytes → Json → Bool
has_type is_integral type value =
    list_eq type (codes "number") && is_some (number_of value)
    || (list_eq type (codes "integer")
          && elim (number_of value) [ none ↦ false | some x ↦ is_integral x ]
        || (list_eq type (codes "boolean") && is_some (boolean_of value)
            || (list_eq type (codes "array") && is_some (array_of value)
                || (list_eq type (codes "object") && is_some (object_of value)
                    || (list_eq type (codes "null") && is_null value)))))

-- The argument that `value` is under a schema with the type `type`.
pub argument_of_type : Doubles → Bytes → Bytes → Result CallError Json
argument_of_type lib type value =
    if list_eq type (codes "string")
    then ok (string value)
    else elim (parse_json (lib.charconv) value) [
      | err e ↦ err invalid_parameter
      | ok parsed ↦
          if has_type (lib.is_integral) type parsed then ok parsed else err invalid_parameter
    ]

pub argument_of_schema : Doubles → Json → Bytes → Result CallError Json
argument_of_schema lib schema value = do
  guard (is_some (object_of schema)) schema_not_an_object
  elim (find (codes "type") schema) [
    | none ↦ elim (parse_json (lib.charconv) value) [
      | err e ↦ ok (string value)
      | ok parsed ↦ ok parsed
    ]
    | some type ↦ elim (string_of type) [
      | none ↦ err schema_type_not_a_string
      | some t ↦ argument_of_type lib t value
    ]
  ]

pub typed_argument : Doubles → FunctionTool → Bytes → Bytes → Result CallError Json
typed_argument lib tool name value = elim (property_schema tool name) [
  | none ↦ if is_closed tool then err unknown_parameter else ok (string value)
  | some schema ↦ argument_of_schema lib schema value
]

pub has_key : Fields → Bytes → Bool
has_key no_fields key = false
has_key (field k x fs) key = list_eq k key || has_key fs key

pub check_present : Items → Fields → Result CallError (Unit {0})
check_present no_items arguments = ok tt
check_present (item name names) arguments = elim (string_of name) [
  | none ↦ err null_dereference
  | some key ↦ guard (has_key arguments key) missing_parameter >> check_present names arguments
]

pub validate_required : FunctionTool → Fields → Result CallError (Unit {0})
validate_required tool arguments = elim (find (codes "required") (tool.parameters)) [
  | none ↦ ok tt
  | some required ↦ elim (array_of required) [
    | none ↦ err null_dereference
    | some names ↦ check_present names arguments
  ]
]

-- `emplace_back`
pub add_field : Fields → Bytes → Json → Fields
add_field no_fields key value = field key value no_fields
add_field (field k x fs) key value = field k x (add_field fs key value)

pub strip_front : Bytes → Bytes
strip_front [] = []
strip_front (c ∷ text) = if c == 0x0A then text else c ∷ text

pub strip_back : Bytes → Bytes
strip_back [] = []
strip_back (c ∷ []) = if c == 0x0A then [] else c ∷ []
strip_back (c ∷ d ∷ text) = c ∷ strip_back (d ∷ text)

-- A round of the loop over a call's parameters.
pub parse_parameter : Doubles → FunctionTool → Fields → Bytes → Result CallError (Fields × Bytes)
parse_parameter lib tool arguments text = do
  (name, after) ← parse_tag_name parameter_open text
  guard (not (has_key arguments name)) repeated_parameter
  elim (find_text parameter_close after) [
    | none ↦ err incomplete_parameter
    | some (value, last) ↦
        typed_argument lib tool name (strip_back (strip_front value)) >>= λ argument.
        ok (add_field arguments name argument, whitespace (drop (length parameter_close) last))
  ]

pub parse_parameters :
    Doubles → FunctionTool → ℕ → Fields → Bytes → Result CallError (Fields × Bytes)
parse_parameters lib tool zero arguments text = err out_of_rounds
parse_parameters lib tool (suc rounds) arguments text =
    if starts_with parameter_open text
    then (parse_parameter lib tool arguments text >>= λ (longer, after).
        parse_parameters lib tool rounds longer after)
    else ok (arguments, text)

pub dump_arguments : Doubles → Fields → Result CallError Bytes
dump_arguments lib arguments = elim (json_dump (lib.charconv) (object arguments)) [
  | ok text ↦ ok text
  | err e ↦ err number_not_printable
]

-- `text` begins with the opening tag, which is skipped.
pub parse_call : Doubles → List FunctionTool → Bytes → Result CallError (FunctionCall × Bytes)
parse_call lib tools text = do
  (name, after_name) ← parse_tag_name function_open (whitespace (drop (length tool_open) text))
  tool ← find_tool tools name
  (arguments, after) ←
      parse_parameters lib tool (suc (length after_name)) no_fields (whitespace after_name)
  guard (starts_with function_close after) malformed_function
  let wrapper = whitespace (drop (length function_close) after)
  guard (starts_with tool_close wrapper) malformed_wrapper
  validate_required tool arguments
  json ← dump_arguments lib arguments
  ok (
    record { name = name; arguments = object arguments; arguments_json = json },
    drop (length tool_close) wrapper,
  )

-- The loop over the calls; the first one is at `text`.
pub parse_calls : Doubles → List FunctionTool → ℕ → Bytes → Result CallError (List FunctionCall)
parse_calls lib tools zero text = err out_of_rounds
parse_calls lib tools (suc rounds) text = do
  (call, after) ← parse_call lib tools text
  let next = whitespace after
  if length next == 0 then ok (call ∷ []) else (do
    guard (starts_with tool_open next) content_after_call
    calls ← parse_calls lib tools rounds next
    ok (call ∷ calls))

-- The text in front of the first call, its thinking closed.
pub leading_text : Bytes → Bytes
leading_text [] = []
leading_text (c ∷ text) = elim (find_text (codes "</think>") (c ∷ text)) [
  | none ↦ (c ∷ text) ++ 0x0A ∷ codes "</think>"
  | some found ↦ c ∷ text
]

pub parse_tool_calls :
    Doubles → List FunctionTool → Bool → Bytes → Result CallError ParsedModelOutput
parse_tool_calls lib tools allow_parallel_calls output = elim (find_text tool_open output) [
  | none ↦ ok (record { text = output; function_calls = [] })
  | some (before, calls_text) ↦
      parse_calls lib tools (suc (length calls_text)) calls_text >>= λ calls.
      if not allow_parallel_calls && ltb 1 (length calls)
      then err parallel_calls
      else ok (record { text = leading_text before; function_calls = calls })
]
