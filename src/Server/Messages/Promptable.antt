-- ===== src/Server/Messages/Promptable.antt =====
-- src/server.cpp, src/chat.cpp: how the messages of a request suit the prompt.
use adi.Base.{
  ℕ, ◌+◌, ◌≡◌, refl, ap, ◌∙◌, true, not, ◌||◌, ◌&&◌, List, [], ◌∷◌, ◌++◌, some, if-either,
  option-either, list_eq, arith, Option-cases, inl, inr, All, All-append,
}
use adi.Base.Result.{
  ok, ◌>>=◌, Ensures, holds, rejected, Ensures-bind, Ensures-guard, Ensures-after, Result-cases,
}
use adi.Base.Text.{codes}
use adi.Utf8.{Bytes}
use adi.Json.Value.{
  Json, Fields, Items, no_items, item, Charconv, find, is_null, string_of, array_of, object_of,
}
use adi.Json.Parser.{contains, parse_json}
use adi.Chat.Text.{ChatMessage, ChatToolCall}
use adi.Chat.Prompt.{has_role}
use adi.Chat.Prompt.Accepted.{allowed_role, all_allowed}
use adi.Chat.Prompt.Textual.{HasObject, HasObjects}
use package.adi.Server.Messages.{
  message_of, append_system_message, push_tool_call, ends_with_assistant, with_function_call,
  append_function_call, append_function_output, append_input_message, append_of_kind, append_item,
  append_items, instruction_messages, input_messages, response_messages, parsed_arguments,
  function_call_texts, function_output_parts, message_parts, content_text, item_kind, ItemKind,
  function_call, function_call_output, message, item_not_an_object, duplicate_call_id,
  unknown_call_id, is_an_object,
}

-- What the prompt builder asks of the messages.
abbrev pub ArePromptable : List ChatMessage → Type 0
ArePromptable messages = (all_allowed 0 messages ≡ true) × All HasObjects messages

all_allowed-snoc :
    (n : ℕ) (messages : List ChatMessage) (m : ChatMessage)
    → all_allowed n messages ≡ true
    → ((k : ℕ) → allowed_role k m ≡ true)
    → all_allowed n (messages ++ m ∷ []) ≡ true
unfolding all_allowed
all_allowed-snoc n [] m h k = let r = k n in ground arith
all_allowed-snoc n (x ∷ xs) m h k =
    let r = all_allowed-snoc (n + 1) xs m (ground arith) k in ground arith

-- A further message that is not of the system.
snoc-ArePromptable :
    (messages : List ChatMessage) (role content : Bytes)
    → ArePromptable messages
    → ((k : ℕ) → allowed_role k (message_of role content) ≡ true)
    → ArePromptable (messages ++ message_of role content ∷ [])
snoc-ArePromptable messages role content (allowed, objects) k = (
  all_allowed-snoc 0 messages (message_of role content) allowed k,
  All-append HasObjects messages (message_of role content ∷ []) objects (tt, tt),
)

push_tool_call-allowed :
    (n : ℕ) (call : ChatToolCall) (messages : List ChatMessage)
    → all_allowed n (push_tool_call call messages) ≡ all_allowed n messages
unfolding push_tool_call all_allowed allowed_role
push_tool_call-allowed n call [] = refl
push_tool_call-allowed n call (m ∷ []) = refl
push_tool_call-allowed n call (m ∷ x ∷ xs) =
    ap (λ b. allowed_role n m && b) (push_tool_call-allowed (n + 1) call (x ∷ xs))

push_tool_call-HasObjects :
    (call : ChatToolCall) (messages : List ChatMessage)
    → HasObject call
    → All HasObjects messages
    → All HasObjects (push_tool_call call messages)
unfolding push_tool_call
push_tool_call-HasObjects call [] o h = tt
push_tool_call-HasObjects call (m ∷ []) o (h, t) =
    (All-append HasObject (m.tool_calls) (call ∷ []) h (o, tt), tt)
push_tool_call-HasObjects call (m ∷ x ∷ xs) o (h, t) =
    (h, push_tool_call-HasObjects call (x ∷ xs) o t)

push_tool_call-ArePromptable :
    (call : ChatToolCall) (messages : List ChatMessage)
    → HasObject call
    → ArePromptable messages
    → ArePromptable (push_tool_call call messages)
push_tool_call-ArePromptable call messages o (allowed, objects) = (
  push_tool_call-allowed 0 call messages ∙ allowed,
  push_tool_call-HasObjects call messages o objects,
)

assistant-allowed :
    (content : Bytes) (k : ℕ) → allowed_role k (message_of (codes "assistant") content) ≡ true
unfolding allowed_role
assistant-allowed content k = refl

tool-allowed : (content : Bytes) (k : ℕ) → allowed_role k (message_of (codes "tool") content) ≡ true
unfolding allowed_role
tool-allowed content k = refl

user-allowed : (content : Bytes) (k : ℕ) → allowed_role k (message_of (codes "user") content) ≡ true
unfolding allowed_role
user-allowed content k = refl

with_function_call-ArePromptable :
    (call : ChatToolCall) (messages : List ChatMessage)
    → HasObject call
    → ArePromptable messages
    → ArePromptable (with_function_call call messages)
unfolding with_function_call
with_function_call-ArePromptable call messages o h = push_tool_call-ArePromptable call _ o (
    if-either ArePromptable (ends_with_assistant messages) (λ _. h)
      (λ _. snoc-ArePromptable messages (codes "assistant") [] h (assistant-allowed [])))

append_system_message-ArePromptable :
    (messages : List ChatMessage) (content : Bytes)
    → ArePromptable messages
    → Ensures ArePromptable (append_system_message messages content)
unfolding append_system_message all_allowed allowed_role
append_system_message-ArePromptable [] content h = holds (refl, (tt, tt))
append_system_message-ArePromptable (m ∷ []) content (allowed, objects) =
    if-either (Ensures ArePromptable) (has_role (codes "system") m) (λ s. holds (allowed, objects))
      (λ s. rejected)
append_system_message-ArePromptable (m ∷ n ∷ ms) content h = rejected

parsed_arguments-object :
    (lib : Charconv) (arguments : Bytes)
    → Ensures
        (λ value. (fs : Fields) × (object_of value ≡ some fs))
        (parsed_arguments lib arguments)
unfolding parsed_arguments
parsed_arguments-object lib arguments = elim (Result-cases (parse_json lib arguments)) [
  | inr (e, f) ↦ rw (f, parsed_arguments) rejected
  | inl (value, f) ↦ elim (Option-cases (object_of value)) [
    | inl g ↦ rw (f, g, parsed_arguments) rejected
    | inr (fs, g) ↦ rw (f, g, parsed_arguments) (holds (fs, g))
  ]
]

append_function_call-ArePromptable :
    (lib : Charconv) (value : Json) (messages : List ChatMessage) (call_ids : List Bytes)
    → ArePromptable messages
    → Ensures
        (λ longer. ArePromptable (longer.0))
        (append_function_call lib value (messages, call_ids))
unfolding append_function_call
append_function_call-ArePromptable lib value messages call_ids h =
    Ensures-after (function_call_texts value) (λ (call_id, name, arguments).
      Ensures-guard (not (contains call_ids call_id)) duplicate_call_id (λ _.
        Ensures-bind (parsed_arguments-object lib arguments) (λ parsed o. holds (
          with_function_call-ArePromptable (record { name = name; arguments = parsed }) messages o
            h))))

append_function_output-ArePromptable :
    (value : Json) (messages : List ChatMessage) (call_ids : List Bytes)
    → ArePromptable messages
    → Ensures
        (λ longer. ArePromptable (longer.0))
        (append_function_output value (messages, call_ids))
unfolding append_function_output
append_function_output-ArePromptable value messages call_ids h =
    Ensures-after (function_output_parts value) (λ (call_id, output).
      Ensures-guard (contains call_ids call_id) unknown_call_id (λ _.
        Ensures-after (content_text output)
          (λ text. holds (snoc-ArePromptable messages (codes "tool") text h (tool-allowed text)))))

named-allowed :
    (role content : Bytes) (k : ℕ)
    → list_eq role (codes "user") || list_eq role (codes "assistant") ≡ true
    → allowed_role k (message_of role content) ≡ true
unfolding allowed_role
named-allowed role content k e = ground arith

append_input_message-ArePromptable :
    (value : Json) (messages : List ChatMessage) (call_ids : List Bytes)
    → ArePromptable messages
    → Ensures (λ longer. ArePromptable (longer.0)) (append_input_message value (messages, call_ids))
unfolding append_input_message
append_input_message-ArePromptable value messages call_ids h =
    Ensures-after (message_parts value) (λ (role, content).
      if-either (Ensures (λ longer. ArePromptable (longer.0)))
        (list_eq role (codes "system") || list_eq role (codes "developer"))
        (λ _. Ensures-after (content_text content) (λ text.
          Ensures-bind (append_system_message-ArePromptable messages text h) (λ longer k. holds k)))
        (λ _.
          if-either (Ensures (λ longer. ArePromptable (longer.0)))
            (list_eq role (codes "user") || list_eq role (codes "assistant"))
            (λ e. Ensures-after (content_text content) (λ text.
              holds (snoc-ArePromptable messages role text h (λ k. named-allowed role text k e))))
            (λ _. rejected)))

append_of_kind-ArePromptable :
    (lib : Charconv) (kind : ItemKind) (value : Json) (messages : List ChatMessage)
    (call_ids : List Bytes)
    → ArePromptable messages
    → Ensures
        (λ longer. ArePromptable (longer.0))
        (append_of_kind lib kind value (messages, call_ids))
unfolding append_of_kind
append_of_kind-ArePromptable lib function_call value messages call_ids h =
    append_function_call-ArePromptable lib value messages call_ids h
append_of_kind-ArePromptable lib function_call_output value messages call_ids h =
    append_function_output-ArePromptable value messages call_ids h
append_of_kind-ArePromptable lib message value messages call_ids h =
    append_input_message-ArePromptable value messages call_ids h

append_item-ArePromptable :
    (lib : Charconv) (value : Json) (messages : List ChatMessage) (call_ids : List Bytes)
    → ArePromptable messages
    → Ensures (λ longer. ArePromptable (longer.0)) (append_item lib value (messages, call_ids))
unfolding append_item
append_item-ArePromptable lib value messages call_ids h =
    Ensures-guard (is_an_object value) item_not_an_object (λ _.
      Ensures-after (item_kind value)
        (λ kind. append_of_kind-ArePromptable lib kind value messages call_ids h))

append_items-ArePromptable :
    (lib : Charconv) (values : Items) (messages : List ChatMessage) (call_ids : List Bytes)
    → ArePromptable messages
    → Ensures (λ longer. ArePromptable (longer.0)) (append_items lib values (messages, call_ids))
unfolding append_items
append_items-ArePromptable lib no_items messages call_ids h = holds h
append_items-ArePromptable lib (item value values) messages call_ids h =
    Ensures-bind (append_item-ArePromptable lib value messages call_ids h)
      (λ (longer, ids) k. append_items-ArePromptable lib values longer ids k)

nothing-ArePromptable : ArePromptable []
unfolding all_allowed
nothing-ArePromptable = (refl, tt)

instruction_messages-ArePromptable :
    (root : Json) → Ensures ArePromptable (instruction_messages root)
unfolding instruction_messages
instruction_messages-ArePromptable root =
    option-either (Ensures ArePromptable) (find (codes "instructions") root)
      (holds nothing-ArePromptable)
      (λ instructions.
        if-either (Ensures ArePromptable) (is_null instructions) (λ _. holds nothing-ArePromptable)
          (λ _.
            option-either (Ensures ArePromptable) (string_of instructions) rejected
              (λ text. append_system_message-ArePromptable [] text nothing-ArePromptable)))

listed-ArePromptable :
    (lib : Charconv) (values : Items) (messages : List ChatMessage)
    → ArePromptable messages
    → Ensures ArePromptable
        (append_items lib values (messages, []) >>= λ (rendered, call_ids). ok rendered)
listed-ArePromptable lib values messages h =
    Ensures-bind (append_items-ArePromptable lib values messages [] h) (λ rendered k. holds k)

input_messages-ArePromptable :
    (lib : Charconv) (input : Json) (messages : List ChatMessage)
    → ArePromptable messages
    → Ensures ArePromptable (input_messages lib input messages)
unfolding input_messages
input_messages-ArePromptable lib input messages h = elim (Option-cases (string_of input)) [
  | inr (text, e) ↦
      rw (e, input_messages)
        (holds (snoc-ArePromptable messages (codes "user") text h (user-allowed text)))
  | inl e ↦ elim (Option-cases (array_of input)) [
    | inl f ↦ rw (e, f, input_messages) rejected
    | inr (no_items, f) ↦ rw (e, f, input_messages) rejected
    | inr (item value values, f) ↦
        rw (e, f, input_messages) (listed-ArePromptable lib (item value values) messages h)
  ]
]

-- If a request's messages can be read, each of them is of a user, an assistant or a tool, or is the
-- first one and of the system, and the arguments of each of their tool calls are an object.
pub response_messages-ArePromptable :
    (lib : Charconv) (root : Json) → Ensures ArePromptable (response_messages lib root)
unfolding response_messages
response_messages-ArePromptable lib root =
    option-either (Ensures ArePromptable) (find (codes "input") root) rejected (λ input.
      Ensures-bind (instruction_messages-ArePromptable root)
        (λ messages h. input_messages-ArePromptable lib input messages h))
