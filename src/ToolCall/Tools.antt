-- ===== src/ToolCall/Tools.antt =====
-- src/tool_call.cpp: the parser of the tools that a request declares.
pub mod Valid
use adi.Base.{
  all_of, ℕ, suc, Bool, true, false, not, ◌||◌, ◌&&◌, List, [], ◌∷◌, ◌++◌, Option, none, some, ltb,
  leb, ◌==◌, if◌then◌else◌, length, list_eq,
}
use adi.Base.Result.{Result, ok, err, ◌>>=◌, ◌>>◌, guard}
use adi.Base.Text.{codes}
use adi.Utf8.{Bytes}
use adi.Json.Value.{
  Json, Items, Fields, boolean, string, object, no_items, item, no_fields, field, find, boolean_of,
  string_of, array_of, object_of,
}

pub data ToolError : Type 0 where
  not_an_object : ToolError
  not_a_function : ToolError
  invalid_tool_name : ToolError
  invalid_description : ToolError
  invalid_strict : ToolError
  strict_not_supported : ToolError
  parameters_not_an_object : ToolError
  parameters_type : ToolError
  properties_not_an_object : ToolError
  required_not_an_array : ToolError
  invalid_required_name : ToolError
  tools_not_an_array : ToolError
  too_many_tools : ToolError
  duplicate_tool : ToolError

pub record FunctionTool : Type 0 where
  pub name : Bytes
  pub description : Bytes
  pub parameters : Json
  pub response_definition : Json
  pub prompt_definition : Json

unfoldable pub valid_character : ℕ → Bool
valid_character c =
    leb b'a' c && leb c b'z'
    || (leb b'A' c && leb c b'Z' || (leb b'0' c && leb c b'9' || (c == b'_' || c == b'-')))

unfoldable pub valid_name : Bytes → Bool
valid_name name =
    if length name == 0 || ltb 64 (length name) then false else all_of valid_character name

pub empty_parameters : Json
empty_parameters = object (
    field (codes "type") (string (codes "object"))
      (field (codes "properties") (object no_fields) no_fields))

-- `if (const auto *field = value.find(key); field != nullptr) check(*field)`
abbrev pub if_present :
    Option Json → (Json → Result ToolError (Unit {0})) → Result ToolError (Unit {0})
if_present none check = ok tt
if_present (some value) check = check value

abbrev pub is_text : Bytes → Json → Bool
is_text text value = elim (string_of value) [ none ↦ false | some s ↦ list_eq s text ]

abbrev pub is_object : Json → Bool
is_object value = elim (object_of value) [ none ↦ false | some fs ↦ true ]

abbrev pub is_valid_name : Json → Bool
is_valid_name value = elim (string_of value) [ none ↦ false | some s ↦ valid_name s ]

unfoldable pub required_names : Items → Bool
required_names no_items = true
required_names (item name names) = is_valid_name name && required_names names

unfoldable pub check_required : Json → Result ToolError (Unit {0})
check_required required = elim (array_of required) [
  | none ↦ err required_not_an_array
  | some names ↦ guard (required_names names) invalid_required_name
]

unfoldable pub validate_parameters : Json → Result ToolError (Unit {0})
validate_parameters parameters = do
  guard (is_object parameters) parameters_not_an_object
  if_present (find (codes "type") parameters)
      (λ type. guard (is_text (codes "object") type) parameters_type)
  if_present (find (codes "properties") parameters)
      (λ properties. guard (is_object properties) properties_not_an_object)
  if_present (find (codes "required") parameters) check_required

-- The name of a tool, if it has a valid one.
unfoldable pub tool_name : Json → Result ToolError Bytes
tool_name value = elim (find (codes "name") value) [
  | none ↦ err invalid_tool_name
  | some name ↦ elim (string_of name) [
    | none ↦ err invalid_tool_name
    | some s ↦ if valid_name s then ok s else err invalid_tool_name
  ]
]

unfoldable pub tool_description : Json → Result ToolError Bytes
tool_description value = elim (find (codes "description") value) [
  | none ↦ ok []
  | some text ↦ elim (string_of text) [ none ↦ err invalid_description | some s ↦ ok s ]
]

unfoldable pub tool_strict : Json → Result ToolError Bool
tool_strict value = elim (find (codes "strict") value) [
  | none ↦ ok false
  | some flag ↦ elim (boolean_of flag) [ none ↦ err invalid_strict | some b ↦ ok b ]
]

unfoldable pub tool_parameters : Json → Json
tool_parameters value = elim (find (codes "parameters") value) [
  | none ↦ empty_parameters
  | some parameters ↦ parameters
]

abbrev pub has_type_function : Json → Bool
has_type_function value = elim (find (codes "type") value) [
  | none ↦ false
  | some type ↦ is_text (codes "function") type
]

-- `if (!description.empty()) fields.emplace_back("description", …)`, in front of `rest`.
abbrev pub with_description : Bytes → Fields → Fields
with_description [] rest = rest
with_description (c ∷ text) rest = field (codes "description") (string (c ∷ text)) rest

unfoldable pub make_tool : Bytes → Bytes → Json → FunctionTool
make_tool name description parameters = record {
  name = name;
  description = description;
  parameters = parameters;
  response_definition = object (
      field (codes "type") (string (codes "function")) (
        field (codes "name") (string name) (
          with_description description (
            field (codes "parameters") parameters
              (field (codes "strict") (boolean false) no_fields)))));
  prompt_definition = object (
      field (codes "type") (string (codes "function")) (
        field (codes "function")
          (object (
            field (codes "name") (string name)
              (with_description description (field (codes "parameters") parameters no_fields))))
          no_fields));
}

unfoldable pub parse_function_tool : Json → Result ToolError FunctionTool
parse_function_tool value = do
  guard (is_object value) not_an_object
  guard (has_type_function value) not_a_function
  name ← tool_name value
  description ← tool_description value
  strict ← tool_strict value
  guard (not strict) strict_not_supported
  validate_parameters (tool_parameters value)
  ok (make_tool name description (tool_parameters value))

unfoldable pub count_items : Items → ℕ
count_items no_items = 0
count_items (item x xs) = suc (count_items xs)

unfoldable pub has_name : List FunctionTool → Bytes → Bool
has_name [] name = false
has_name (tool ∷ tools) name = list_eq (tool.name) name || has_name tools name

-- The loop over the items; `result` holds the tools read so far.
unfoldable pub parse_tools_from : List FunctionTool → Items → Result ToolError (List FunctionTool)
parse_tools_from result no_items = ok result
parse_tools_from result (item value values) = do
  tool ← parse_function_tool value
  guard (not (has_name result (tool.name))) duplicate_tool
  parse_tools_from (result ++ tool ∷ []) values

unfoldable pub parse_function_tools : Json → Result ToolError (List FunctionTool)
parse_function_tools tools = elim (array_of tools) [
  | none ↦ err tools_not_an_array
  | some items ↦ guard (leb (count_items items) 128) too_many_tools >> parse_tools_from [] items
]
