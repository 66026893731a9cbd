-- ===== src/Chat/Prompt.antt =====
-- src/chat.cpp: the conversation's checks, and the prompt that the messages are put together to.
pub mod Accepted
pub mod Textual
use adi.Base.{
  ℕ, ◌+◌, ◌-◌, Bool, false, not, ◌||◌, ◌&&◌, List, [], ◌∷◌, ◌++◌, Option, none, some, ltb, leb,
  ◌==◌, if◌then◌else◌, length, list_eq, drop,
}
use adi.Base.Result.{Result, ok, err, ◌>>=◌, ◌>>◌, guard}
use adi.Base.Text.{codes}
use adi.Utf8.{Bytes}
use adi.Json.Value.{Json}
use adi.ToolCall.Calls.{starts_with}
use adi.Chat.Text.{
  ChatError, ChatToolCall, ChatMessage, Tables, no_messages, misplaced_system_message,
  no_user_query, unsupported_role, trim, strip_assistant_reasoning, append_tool_call, dumped,
}

abbrev pub has_role : Bytes → ChatMessage → Bool
has_role role message = list_eq (message.role) role

unfoldable pub any_system : List ChatMessage → Bool
any_system [] = false
any_system (message ∷ messages) = has_role (codes "system") message || any_system messages

unfoldable pub ends_with : Bytes → Bytes → Bool
ends_with suffix text =
    leb (length suffix) (length text) && list_eq (drop (length text - length suffix) text) suffix

-- A message and its trimmed content.
abbrev pub Turn : Type 0
Turn = ChatMessage × Bytes

unfoldable pub trim_contents : Tables → List ChatMessage → Result ChatError (List Turn)
trim_contents lib [] = ok []
trim_contents lib (message ∷ messages) = do
  content ← trim lib (message.content)
  turns ← trim_contents lib messages
  ok ((message, content) ∷ turns)

abbrev pub is_query : Turn → Bool
is_query (message, content) =
    has_role (codes "user") message
    && not (
        starts_with (codes "<tool_response>") content
        && ends_with (codes "</tool_response>") content)

-- The index of the last query; `index` is that of the first turn.
unfoldable pub last_query_from : ℕ → List Turn → Option ℕ
last_query_from index [] = none
last_query_from index (turn ∷ turns) = elim (last_query_from (index + 1) turns) [
  | some later ↦ some later
  | none ↦ if is_query turn then some index else none
]

pub append_tools : Tables → Bytes → List Json → Result ChatError Bytes
append_tools lib prompt [] = ok prompt
append_tools lib prompt (tool ∷ tools) = do
  text ← dumped lib tool
  append_tools lib (prompt ++ codes "\n" ++ text) tools

abbrev pub tool_instructions : Bytes
tool_instructions =
    codes "\n</tools>"
    ++ codes
        "\n\nIf you choose to call a function ONLY reply in the following format with NO suffix:\n\n"
    ++ codes "<tool_call>\n<function=example_function_name>\n"
    ++ codes "<parameter=example_parameter_1>\nvalue_1\n</parameter>\n"
    ++ codes "<parameter=example_parameter_2>\nThis is the value for the second parameter\n"
    ++ codes "that can span\nmultiple lines\n</parameter>\n</function>\n</tool_call>\n\n"
    ++ codes "<IMPORTANT>\nReminder:\n"
    ++ codes
        "- Function calls MUST follow the specified format: an inner <function=...></function> block must be nested within <tool_call></tool_call> XML tags\n"
    ++ codes "- Required parameters MUST be specified\n"
    ++ codes
        "- You may provide optional reasoning for your function call in natural language BEFORE the function call, but NOT after\n"
    ++ codes
        "- If there is no function call available, answer the question like normal with your current knowledge and do not tell the user about function calls\n"
    ++ codes "</IMPORTANT>"

abbrev pub im_end : Bytes
im_end = codes "<|im_end|>\n"

-- The part in front of the messages; `first` is the first message's turn.
unfoldable pub preamble : Tables → Turn → List Json → Result ChatError Bytes
preamble lib (first, content) [] =
    if has_role (codes "system") first
    then ok (codes "<|im_start|>system\n" ++ content ++ im_end)
    else ok []
preamble lib (first, content) (tool ∷ tools) = do
  prompt ←
      append_tools lib
        (codes "<|im_start|>system\n"
          ++ codes "# Tools\n\nYou have access to the following functions:\n\n<tools>")
        (tool ∷ tools)
  let instructed = prompt ++ tool_instructions
  let system = has_role (codes "system") first && not (length content == 0)
  ok ((if system then instructed ++ codes "\n\n" ++ content else instructed) ++ im_end)

-- The calls behind an assistant's content: nothing in front of the first where that is empty.
pub append_tool_calls : Tables → Bytes → Bytes → List ChatToolCall → Result ChatError Bytes
append_tool_calls lib lead prompt [] = ok prompt
append_tool_calls lib lead prompt (call ∷ calls) = do
  longer ← append_tool_call lib (prompt ++ lead) call
  append_tool_calls lib (codes "\n") longer calls

pub append_assistant : Tables → Bool → Bytes → Turn → Result ChatError Bytes
append_assistant lib behind_query prompt (message, content) = do
  (answer, reasoning) ← strip_assistant_reasoning lib content
  let opened = prompt ++ codes "<|im_start|>assistant\n"
  let thought =
      if behind_query
      then opened ++ codes "<think>\n" ++ reasoning ++ codes "\n</think>\n\n"
      else opened
  called ←
      append_tool_calls lib (if length answer == 0 then [] else codes "\n\n") (thought ++ answer)
        (message.tool_calls)
  ok (called ++ im_end)

abbrev pub is_tool_turn : List Turn → Bool
is_tool_turn [] = false
is_tool_turn ((message, content) ∷ turns) = has_role (codes "tool") message

pub append_tool_response : Bytes → Bool → Bool → Bytes → Bytes
append_tool_response prompt behind_tool before_tool content =
    let opened = if behind_tool then prompt else prompt ++ codes "<|im_start|>user" in
    let responded =
      opened ++ codes "\n<tool_response>\n" ++ content ++ codes "\n</tool_response>" in
    if before_tool then responded else responded ++ im_end

-- One message; `behind_tool` and `before_tool` say whether its neighbours are of the role "tool".
unfoldable pub append_message : Tables → ℕ → ℕ → Bool → Bool → Bytes → Turn → Result ChatError Bytes
append_message lib last_query index behind_tool before_tool prompt (message, content) =
    if has_role (codes "system") message
    then (if index == 0 then ok prompt else err misplaced_system_message)
    else if has_role (codes "user") message
    then ok (prompt ++ codes "<|im_start|>user\n" ++ content ++ im_end)
    else if has_role (codes "tool") message
    then ok (append_tool_response prompt behind_tool before_tool content)
    else if has_role (codes "assistant") message
    then append_assistant lib (ltb last_query index) prompt (message, content)
    else err unsupported_role

unfoldable pub append_messages : Tables → ℕ → ℕ → Bool → Bytes → List Turn → Result ChatError Bytes
append_messages lib last_query index behind_tool prompt [] = ok prompt
append_messages lib last_query index behind_tool prompt (turn ∷ turns) = do
  longer ← append_message lib last_query index behind_tool (is_tool_turn turns) prompt turn
  append_messages lib last_query (index + 1) (is_tool_turn (turn ∷ [])) longer turns

unfoldable pub prompt_of_turns : Tables → List Turn → List Json → Result ChatError Bytes
prompt_of_turns lib [] tools = err no_messages
prompt_of_turns lib (first ∷ turns) tools = elim (last_query_from 0 (first ∷ turns)) [
  | none ↦ err no_user_query
  | some last_query ↦ preamble lib first tools >>= λ opened.
      append_messages lib last_query 0 false opened (first ∷ turns) >>= λ prompt.
      ok (prompt ++ codes "<|im_start|>assistant\n<think>\n")
]

unfoldable pub qwen35_chat_prompt : Tables → List ChatMessage → List Json → Result ChatError Bytes
qwen35_chat_prompt lib [] tools = err no_messages
qwen35_chat_prompt lib (first ∷ messages) tools = do
  guard (has_role (codes "system") first || not (any_system (first ∷ messages)))
      misplaced_system_message
  turns ← trim_contents lib (first ∷ messages)
  prompt_of_turns lib turns tools
