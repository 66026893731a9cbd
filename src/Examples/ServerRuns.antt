-- ===== src/Examples/ServerRuns.antt =====
-- src/server.cpp: a request for a response, and the prompt of its messages.
use adi.Base.{◌≡◌, refl, ◌==◌, true, List, [], ◌∷◌, ◌++◌, none}
use adi.Base.Result.{ok, Ensures}
use adi.Base.Outcome.{Outcome}
use adi.Base.Text.{codes}
use adi.Utf8.{Bytes}
use adi.ToolCall.Calls.{find_text, starts_with}
use adi.Server.Receive.{
  line_end, blank_line, receive_request, receive_head, receive_body, content_length, length_from,
  length_value, parse_length, digits_from, without_spaces, lower,
}
use adi.Server.Receive.Whole.{IsRequestOf, receive_request-IsRequestOf}
use adi.Json.Value.{
  Json, string, array, object, item, no_items, field, no_fields, find, is_null, find_field,
  string_of, array_of, object_of,
}
use adi.Chat.Text.{ChatMessage, Tables}
use adi.Chat.Prompt.{qwen35_chat_prompt}
use adi.Chat.Prompt.Accepted.{all_allowed, allowed_role}
use adi.Chat.Prompt.Textual.{Textual, qwen35_chat_prompt-Textual}
use adi.Server.Messages.{
  response_messages, input_messages, instruction_messages, append_items, append_item,
  append_of_kind, append_input_message, item_kind, content_text, message_parts,
  append_system_message,
}
use adi.Server.Request.{prepare_request}
use adi.Server.Request.Prepared.{IsPrepared, IsClientProblem, prepare_request-IsPrepared}
use adi.Server.Messages.Promptable.{ArePromptable, response_messages-ArePromptable}

abbrev latin : Tables
latin = record {
  is_whitespace = λ codepoint. codepoint == 0x20;
  charconv = record { from_chars = λ text. none; to_chars = λ bits. none };
}

abbrev said : Json
said = object (
    field (codes "role") (string (codes "user"))
      (field (codes "content") (string (codes "Hi")) no_fields))

-- `{"instructions": "Be brief.", "input": [{"role": "user", "content": "Hi"}]}`
abbrev asked : Json
asked = object (
    field (codes "instructions") (string (codes "Be brief."))
      (field (codes "input") (array (item said no_items)) no_fields))

asked_messages :
    response_messages (latin.charconv) asked
    ≡ ok (
        record { role = codes "system"; content = codes "Be brief."; tool_calls = [] }
        ∷ record { role = codes "user"; content = codes "Hi"; tool_calls = [] }
        ∷ [])
unfolding response_messages input_messages instruction_messages append_items append_item
    append_of_kind append_input_message item_kind content_text message_parts append_system_message
    is_null find find_field string_of array_of object_of
asked_messages = refl

response_messages-ArePromptable_example :
    Ensures ArePromptable (response_messages (latin.charconv) asked)
response_messages-ArePromptable_example = response_messages-ArePromptable (latin.charconv) asked

prepare_request-IsPrepared_example :
    Outcome IsPrepared IsClientProblem (prepare_request latin asked)
prepare_request-IsPrepared_example = prepare_request-IsPrepared latin asked

abbrev hello : ChatMessage
hello = record { role = codes "user"; content = codes "Hi"; tool_calls = [] }

hello-allowed : all_allowed 0 (hello ∷ []) ≡ true
unfolding all_allowed allowed_role
hello-allowed = refl

qwen35_chat_prompt-Textual_example : Textual (qwen35_chat_prompt latin (hello ∷ []) [])
qwen35_chat_prompt-Textual_example =
    qwen35_chat_prompt-Textual latin hello [] [] hello-allowed (tt, tt)

-- A head of one line with a Content-Length of 2, in two chunks with the body and a byte more.
abbrev chunks : List Bytes
chunks =
    (codes "POST / HTTP/1.1" ++ line_end ++ codes "Content-Length: 2" ++ 0x0D ∷ [])
    ∷ (0x0A ∷ line_end ++ codes "{}!")
    ∷ []

received :
    receive_request chunks
    ≡ ok (
        codes "POST / HTTP/1.1"
        ++ line_end
        ++ codes "Content-Length: 2"
        ++ blank_line
        ++ codes "{}")
unfolding receive_request receive_head receive_body content_length length_from length_value
    parse_length digits_from without_spaces lower find_text starts_with
received = refl

receive_request-IsRequestOf_example : Ensures (IsRequestOf chunks) (receive_request chunks)
receive_request-IsRequestOf_example = receive_request-IsRequestOf chunks
