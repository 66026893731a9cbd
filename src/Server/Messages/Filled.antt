-- ===== src/Server/Messages/Filled.antt =====
-- src/server.cpp: a request's messages are at least one.
use adi.Base.{
  ◌≡◌, refl, true, not, ◌||◌, List, [], ◌∷◌, ◌++◌, if-either, option-either, list_eq, arith,
  Option-cases, inl, inr,
}
use adi.Base.Result.{Ensures, holds, rejected, Ensures-bind, Ensures-guard, Ensures-after}
use adi.Base.Text.{codes}
use adi.Utf8.{Bytes}
use adi.Json.Value.{Json, Items, no_items, item, Charconv, find, string_of, array_of}
use adi.Json.Parser.{contains}
use adi.Chat.Text.{ChatMessage, ChatToolCall}
use adi.Chat.Prompt.{has_role}
use package.adi.Server.Messages.{
  ItemKind, message_of, append_system_message, push_tool_call, ends_with_assistant,
  with_function_call, append_function_call, append_function_output, append_input_message,
  append_of_kind, append_item, append_items, instruction_messages, input_messages,
  response_messages, parsed_arguments, function_call_texts, function_output_parts, message_parts,
  content_text, item_kind, function_call, function_call_output, message, item_not_an_object,
  duplicate_call_id, unknown_call_id, is_an_object,
}

abbrev pub Filled : List ChatMessage → Type 0
Filled messages = (first : ChatMessage) × (rest : List ChatMessage) × (messages ≡ first ∷ rest)

snoc-Filled : (messages : List ChatMessage) (m : ChatMessage) → Filled (messages ++ m ∷ [])
snoc-Filled [] m = (m, [], refl)
snoc-Filled (x ∷ xs) m = (x, xs ++ m ∷ [], refl)

push_tool_call-Filled :
    (call : ChatToolCall) (messages : List ChatMessage)
    → Filled messages
    → Filled (push_tool_call call messages)
unfolding push_tool_call
push_tool_call-Filled call [] (first, rest, e) = absurd (ground arith)
push_tool_call-Filled call (m ∷ []) h = (_, _, refl)
push_tool_call-Filled call (m ∷ x ∷ xs) h = (_, _, refl)

ends_with_assistant-Filled :
    (messages : List ChatMessage) → ends_with_assistant messages ≡ true → Filled messages
unfolding ends_with_assistant
ends_with_assistant-Filled [] h = absurd (ground arith)
ends_with_assistant-Filled (x ∷ xs) h = (x, xs, refl)

with_function_call-Filled :
    (call : ChatToolCall) (messages : List ChatMessage) → Filled (with_function_call call messages)
unfolding with_function_call
with_function_call-Filled call messages = push_tool_call-Filled call _ (
    if-either Filled (ends_with_assistant messages) (ends_with_assistant-Filled messages)
      (λ _. snoc-Filled messages (message_of (codes "assistant") [])))

append_system_message-Filled :
    (messages : List ChatMessage) (content : Bytes)
    → Ensures Filled (append_system_message messages content)
unfolding append_system_message
append_system_message-Filled [] content = holds (_, _, refl)
append_system_message-Filled (m ∷ []) content =
    if-either (Ensures Filled) (has_role (codes "system") m) (λ s. holds (_, _, refl))
      (λ s. rejected)
append_system_message-Filled (m ∷ n ∷ ms) content = rejected

append_function_call-Filled :
    (lib : Charconv) (value : Json) (messages : List ChatMessage) (call_ids : List Bytes)
    → Ensures (λ longer. Filled (longer.0)) (append_function_call lib value (messages, call_ids))
unfolding append_function_call
append_function_call-Filled lib value messages call_ids =
    Ensures-after (function_call_texts value) (λ (call_id, name, arguments).
      Ensures-guard (not (contains call_ids call_id)) duplicate_call_id (λ _.
        Ensures-after (parsed_arguments lib arguments) (λ parsed.
          holds (with_function_call-Filled (record { name = name; arguments = parsed }) messages))))

append_function_output-Filled :
    (value : Json) (messages : List ChatMessage) (call_ids : List Bytes)
    → Ensures (λ longer. Filled (longer.0)) (append_function_output value (messages, call_ids))
unfolding append_function_output
append_function_output-Filled value messages call_ids =
    Ensures-after (function_output_parts value) (λ (call_id, output).
      Ensures-guard (contains call_ids call_id) unknown_call_id
        (λ _. Ensures-after (content_text output) (λ text. holds (snoc-Filled messages _))))

append_input_message-Filled :
    (value : Json) (messages : List ChatMessage) (call_ids : List Bytes)
    → Ensures (λ longer. Filled (longer.0)) (append_input_message value (messages, call_ids))
unfolding append_input_message
append_input_message-Filled value messages call_ids =
    Ensures-after (message_parts value) (λ (role, content).
      if-either (Ensures (λ longer. Filled (longer.0)))
        (list_eq role (codes "system") || list_eq role (codes "developer"))
        (λ _.
          Ensures-after (content_text content) (λ text.
            Ensures-bind (append_system_message-Filled messages text) (λ longer k. holds k)))
        (λ _.
          if-either (Ensures (λ longer. Filled (longer.0)))
            (list_eq role (codes "user") || list_eq role (codes "assistant"))
            (λ e. Ensures-after (content_text content) (λ text. holds (snoc-Filled messages _)))
            (λ _. rejected)))

append_of_kind-Filled :
    (lib : Charconv) (kind : ItemKind) (value : Json) (messages : List ChatMessage)
    (call_ids : List Bytes)
    → Ensures (λ longer. Filled (longer.0)) (append_of_kind lib kind value (messages, call_ids))
unfolding append_of_kind
append_of_kind-Filled lib function_call value messages call_ids =
    append_function_call-Filled lib value messages call_ids
append_of_kind-Filled lib function_call_output value messages call_ids =
    append_function_output-Filled value messages call_ids
append_of_kind-Filled lib message value messages call_ids =
    append_input_message-Filled value messages call_ids

append_item-Filled :
    (lib : Charconv) (value : Json) (messages : List ChatMessage) (call_ids : List Bytes)
    → Ensures (λ longer. Filled (longer.0)) (append_item lib value (messages, call_ids))
unfolding append_item
append_item-Filled lib value messages call_ids =
    Ensures-guard (is_an_object value) item_not_an_object (λ _.
      Ensures-after (item_kind value)
        (λ kind. append_of_kind-Filled lib kind value messages call_ids))

-- There is at least one item.
append_items-Filled :
    (lib : Charconv) (value : Json) (values : Items) (messages : List ChatMessage)
    (call_ids : List Bytes)
    → Ensures
        (λ longer. Filled (longer.0))
        (append_items lib (item value values) (messages, call_ids))
unfolding append_items
append_items-Filled lib value no_items messages call_ids =
    Ensures-bind (append_item-Filled lib value messages call_ids) (λ longer k. holds k)
append_items-Filled lib value (item next values) messages call_ids =
    Ensures-after (append_item lib value (messages, call_ids))
      (λ (longer, ids). append_items-Filled lib next values longer ids)

input_messages-Filled :
    (lib : Charconv) (input : Json) (messages : List ChatMessage)
    → Ensures Filled (input_messages lib input messages)
unfolding input_messages
input_messages-Filled lib input messages = elim (Option-cases (string_of input)) [
  | inr (text, e) ↦ rw (e, input_messages) (holds (snoc-Filled messages _))
  | inl e ↦ elim (Option-cases (array_of input)) [
    | inl f ↦ rw (e, f, input_messages) rejected
    | inr (no_items, f) ↦ rw (e, f, input_messages) rejected
    | inr (item value values, f) ↦
        rw (e, f, input_messages)
          (Ensures-bind (append_items-Filled lib value values messages []) (λ rendered k. holds k))
  ]
]

pub response_messages-Filled :
    (lib : Charconv) (root : Json) → Ensures Filled (response_messages lib root)
unfolding response_messages
response_messages-Filled lib root =
    option-either (Ensures Filled) (find (codes "input") root) rejected (λ input.
      Ensures-after (instruction_messages root)
        (λ messages. input_messages-Filled lib input messages))
