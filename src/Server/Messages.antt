-- ===== src/Server/Messages.antt =====
-- src/server.cpp: the messages of a conversation, from the "input" of a request for a response.
pub mod Promptable
pub mod Filled
use adi.Base.{
  Bool, true, false, not, ◌||◌, ◌&&◌, List, [], ◌∷◌, ◌++◌, Option, none, some, ◌==◌, if◌then◌else◌,
  length, list_eq,
}
use adi.Base.Result.{Result, ok, err, ◌>>=◌, ◌>>◌, guard}
use adi.Base.Text.{codes}
use adi.Utf8.{Bytes}
use adi.Json.Value.{
  Json, Items, no_items, item, Charconv, find, is_null, string_of, array_of, object_of,
}
use adi.Json.Parser.{contains, parse_json}
use adi.ToolCall.Tools.{is_text, ToolError}
use adi.Chat.Text.{ChatMessage, ChatToolCall}
use adi.Chat.Prompt.{has_role}

-- What a request can be refused for.
pub data RequestError : Type 0 where
  content_not_text : RequestError
  content_part_not_text : RequestError
  system_not_first : RequestError
  incomplete_function_call : RequestError
  duplicate_call_id : RequestError
  invalid_arguments : RequestError
  arguments_no_object : RequestError
  incomplete_function_output : RequestError
  unknown_call_id : RequestError
  input_required : RequestError
  instructions_not_a_string : RequestError
  empty_input : RequestError
  item_not_an_object : RequestError
  item_type_not_a_string : RequestError
  unsupported_item_type : RequestError
  incomplete_message : RequestError
  unsupported_message_role : RequestError
  previous_response : RequestError
  invalid_tool_choice : RequestError
  invalid_parallel : RequestError
  not_an_integer : Bytes → RequestError
  not_positive : Bytes → RequestError
  not_a_number : Bytes → RequestError
  out_of_range : Bytes → RequestError
  tool_problem : ToolError → RequestError

-- `value.find(key)` and the text there, where it is one.
abbrev pub text_at : Bytes → Json → Option Bytes
text_at key value = elim (find key value) [ none ↦ none | some found ↦ string_of found ]

pub part_text : Json → Result RequestError Bytes
part_text part = elim (text_at (codes "type") part) [
  | none ↦ err content_part_not_text
  | some type_value ↦ elim (text_at (codes "text") part) [
    | none ↦ err content_part_not_text
    | some text ↦
        if list_eq type_value (codes "input_text") || list_eq type_value (codes "output_text")
        then ok text
        else err content_part_not_text
  ]
]

-- The loop over the parts; `result` is the text so far.
pub parts_text : Bytes → Items → Result RequestError Bytes
parts_text result no_items = ok result
parts_text result (item part parts) = do text ← part_text part; parts_text (result ++ text) parts

unfoldable pub content_text : Json → Result RequestError Bytes
content_text content = elim (string_of content) [
  | some text ↦ ok text
  | none ↦ elim (array_of content) [
    | none ↦ err content_not_text
    | some parts ↦ parts_text [] parts
  ]
]

abbrev pub message_of : Bytes → Bytes → ChatMessage
message_of role content = record { role = role; content = content; tool_calls = [] }

-- What is between two system texts.
abbrev pub separator : Bytes → Bytes → Bytes
separator front content =
    if not (length front == 0) && not (length content == 0) then codes "\n\n" else []

unfoldable pub append_system_message :
    List ChatMessage → Bytes → Result RequestError (List ChatMessage)
append_system_message [] content = ok (message_of (codes "system") content ∷ [])
append_system_message (message ∷ []) content =
    if has_role (codes "system") message
    then ok (
        record message {
          content = message.content ++ separator (message.content) content ++ content;
        }
        ∷ [])
    else err system_not_first
append_system_message (message ∷ second ∷ messages) content = err system_not_first

-- `messages.back().role`
pub ends_with_assistant : List ChatMessage → Bool
ends_with_assistant [] = false
ends_with_assistant (message ∷ []) = has_role (codes "assistant") message
ends_with_assistant (message ∷ second ∷ messages) = ends_with_assistant (second ∷ messages)

-- `messages.back().tool_calls.push_back(call)`
pub push_tool_call : ChatToolCall → List ChatMessage → List ChatMessage
push_tool_call call [] = []
push_tool_call call (message ∷ []) =
    record message { tool_calls = message.tool_calls ++ call ∷ [] } ∷ []
push_tool_call call (message ∷ second ∷ messages) =
    message ∷ push_tool_call call (second ∷ messages)

-- The messages and the call ids so far.
abbrev pub Conversation : Type 0
Conversation = List ChatMessage × List Bytes

-- A text that is there and not empty.
abbrev pub nonempty_at : Bytes → Json → Option Bytes
nonempty_at key value = elim (text_at key value) [
  | none ↦ none
  | some text ↦ if length text == 0 then none else some text
]

-- The call's id, name and arguments.
pub function_call_texts : Json → Result RequestError (Bytes × Bytes × Bytes)
function_call_texts value = elim (nonempty_at (codes "call_id") value) [
  | none ↦ err incomplete_function_call
  | some call_id ↦ elim (nonempty_at (codes "name") value) [
    | none ↦ err incomplete_function_call
    | some name ↦ elim (text_at (codes "arguments") value) [
      | none ↦ err incomplete_function_call
      | some arguments ↦ ok (call_id, name, arguments)
    ]
  ]
]

pub parsed_arguments : Charconv → Bytes → Result RequestError Json
parsed_arguments lib arguments = elim (parse_json lib arguments) [
  | err e ↦ err invalid_arguments
  | ok value ↦ elim (object_of value) [ none ↦ err arguments_no_object | some _ ↦ ok value ]
]

pub with_function_call : ChatToolCall → List ChatMessage → List ChatMessage
with_function_call call messages = push_tool_call call (
    if ends_with_assistant messages
    then messages
    else (messages ++ message_of (codes "assistant") [] ∷ []))

pub append_function_call : Charconv → Json → Conversation → Result RequestError Conversation
append_function_call lib value (messages, call_ids) = do
  (call_id, name, arguments) ← function_call_texts value
  guard (not (contains call_ids call_id)) duplicate_call_id
  parsed ← parsed_arguments lib arguments
  ok (with_function_call (record { name = name; arguments = parsed }) messages, call_id ∷ call_ids)

pub function_output_parts : Json → Result RequestError (Bytes × Json)
function_output_parts value = elim (text_at (codes "call_id") value) [
  | none ↦ err incomplete_function_output
  | some call_id ↦ elim (find (codes "output") value) [
    | none ↦ err incomplete_function_output
    | some output ↦ ok (call_id, output)
  ]
]

pub append_function_output : Json → Conversation → Result RequestError Conversation
append_function_output value (messages, call_ids) = do
  (call_id, output) ← function_output_parts value
  guard (contains call_ids call_id) unknown_call_id
  text ← content_text output
  ok (messages ++ message_of (codes "tool") text ∷ [], call_ids)

-- The role and the content of an input message.
unfoldable pub message_parts : Json → Result RequestError (Bytes × Json)
message_parts value = elim (text_at (codes "role") value) [
  | none ↦ err incomplete_message
  | some role ↦ elim (find (codes "content") value) [
    | none ↦ err incomplete_message
    | some content ↦ ok (role, content)
  ]
]

unfoldable pub append_input_message : Json → Conversation → Result RequestError Conversation
append_input_message value (messages, call_ids) = do
  (role, content) ← message_parts value
  (if list_eq role (codes "system") || list_eq role (codes "developer")
      then (content_text content >>= λ text.
          append_system_message messages text >>= λ longer. ok (longer, call_ids))
      else if list_eq role (codes "user") || list_eq role (codes "assistant")
      then (content_text content >>= λ text. ok (messages ++ message_of role text ∷ [], call_ids))
      else err unsupported_message_role)

-- The kinds of input items.
pub data ItemKind : Type 0 where
  function_call : ItemKind
  function_call_output : ItemKind
  message : ItemKind

unfoldable pub item_kind : Json → Result RequestError ItemKind
item_kind value = elim (find (codes "type") value) [
  | none ↦ ok message
  | some type_value ↦ elim (string_of type_value) [
    | none ↦ err item_type_not_a_string
    | some name ↦
        if list_eq name (codes "function_call")
        then ok function_call
        else if list_eq name (codes "function_call_output")
        then ok function_call_output
        else if list_eq name (codes "message")
        then ok message
        else err unsupported_item_type
  ]
]

unfoldable pub append_of_kind :
    Charconv → ItemKind → Json → Conversation → Result RequestError Conversation
append_of_kind lib function_call value conversation = append_function_call lib value conversation
append_of_kind lib function_call_output value conversation =
    append_function_output value conversation
append_of_kind lib message value conversation = append_input_message value conversation

abbrev pub is_an_object : Json → Bool
is_an_object value = elim (object_of value) [ none ↦ false | some _ ↦ true ]

-- One round of the loop over the items.
unfoldable pub append_item : Charconv → Json → Conversation → Result RequestError Conversation
append_item lib value conversation = do
  guard (is_an_object value) item_not_an_object
  kind ← item_kind value
  append_of_kind lib kind value conversation

unfoldable pub append_items : Charconv → Items → Conversation → Result RequestError Conversation
append_items lib no_items conversation = ok conversation
append_items lib (item value values) conversation = do
  longer ← append_item lib value conversation
  append_items lib values longer

unfoldable pub instruction_messages : Json → Result RequestError (List ChatMessage)
instruction_messages root = elim (find (codes "instructions") root) [
  | none ↦ ok []
  | some instructions ↦ if is_null instructions then ok [] else elim (string_of instructions) [
    | none ↦ err instructions_not_a_string
    | some text ↦ append_system_message [] text
  ]
]

-- The messages of the input behind those of the instructions.
unfoldable pub input_messages :
    Charconv → Json → List ChatMessage → Result RequestError (List ChatMessage)
input_messages lib input messages = elim (string_of input) [
  | some text ↦ ok (messages ++ message_of (codes "user") text ∷ [])
  | none ↦ elim (array_of input) [
    | none ↦ err empty_input
    | some no_items ↦ err empty_input
    | some (item value values) ↦
        append_items lib (item value values) (messages, []) >>= λ (rendered, call_ids). ok rendered
  ]
]

unfoldable pub response_messages : Charconv → Json → Result RequestError (List ChatMessage)
response_messages lib root = elim (find (codes "input") root) [
  | none ↦ err input_required
  | some input ↦ instruction_messages root >>= λ messages. input_messages lib input messages
]
