-- ===== src/Examples/ChatRuns.antt =====
-- src/chat.cpp at a short conversation.
use adi.Base.{◌==◌, ◌≡◌, List, [], ◌∷◌, none, refl}
use adi.Base.Result.{ok, Ensures}
use adi.Base.Text.{codes}
use adi.Utf8.{
  valid_utf8, scan_utf8, scan_from, scan_round, scan_sequence, lead_of, append_utf8, encode_utf8,
}
use adi.Unicode.{utf8_codepoints, decode_from, codepoints_utf8, append_all}
use adi.ToolCall.Calls.{starts_with}
use adi.Chat.Text.{ChatMessage, Tables, trim, drop_front, drop_back}
use adi.Chat.Prompt.{
  any_system, ends_with, trim_contents, last_query_from, preamble, append_message, append_messages,
  prompt_of_turns, qwen35_chat_prompt,
}
use adi.Chat.Prompt.Accepted.{IsAccepted, qwen35_chat_prompt-IsAccepted}

abbrev tables : Tables
tables = record {
  is_whitespace = λ codepoint. codepoint == 0x20;
  charconv = record { from_chars = λ text. none; to_chars = λ bits. none };
}

abbrev greeting : List ChatMessage
greeting = record { role = codes "user"; content = codes " Hi "; tool_calls = [] } ∷ []

greeting_prompt :
    qwen35_chat_prompt tables greeting []
    ≡ ok (codes "<|im_start|>user\nHi<|im_end|>\n<|im_start|>assistant\n<think>\n")
unfolding qwen35_chat_prompt prompt_of_turns append_messages append_message preamble last_query_from
    trim_contents any_system ends_with starts_with trim drop_front drop_back utf8_codepoints
    decode_from codepoints_utf8 append_all append_utf8 encode_utf8 valid_utf8 scan_utf8 scan_from
    scan_round scan_sequence lead_of
greeting_prompt = refl

qwen35_chat_prompt-IsAccepted_example :
    Ensures (IsAccepted greeting) (qwen35_chat_prompt tables greeting [])
qwen35_chat_prompt-IsAccepted_example = qwen35_chat_prompt-IsAccepted tables greeting []
