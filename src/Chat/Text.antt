-- ===== src/Chat/Text.antt =====
-- src/chat.cpp: trimming, the split of an assistant's reasoning from its answer, the text of a
-- tool call, and the fingerprint of the supported template.
use adi.Base.{
  bit_xor, ℕ, ◌*◌, ◌%◌, ◌^◌, Bool, false, ◌||◌, ◌&&◌, List, [], ◌∷◌, ◌++◌, Option, none, some, leb,
  ◌==◌, if◌then◌else◌, length, drop,
}
use adi.Base.Result.{Result, ok, err, ◌>>=◌}
use adi.Base.Text.{codes}
use adi.Utf8.{Bytes}
use adi.Unicode.{utf8_codepoints, codepoints_utf8}
use adi.Json.Value.{Json, Fields, no_fields, field, string_of, object_of, Charconv}
use adi.Json.Printer.{json_dump}
use adi.ToolCall.Calls.{starts_with, find_text}

pub data ChatError : Type 0 where
  invalid_text : ChatError
  arguments_not_an_object : ChatError
  number_not_printable : ChatError
  no_messages : ChatError
  misplaced_system_message : ChatError
  no_user_query : ChatError
  unsupported_role : ChatError

pub record ChatToolCall : Type 0 where
  pub name : Bytes
  pub arguments : Json

pub record ChatMessage : Type 0 where
  pub role : Bytes
  pub content : Bytes
  pub tool_calls : List ChatToolCall

-- The generated tables of Unicode properties, and the C++ library's conversions of doubles.
pub record Tables : Type 0 where
  pub is_whitespace : ℕ → Bool
  pub charconv : Charconv

abbrev pub is_trimmed : Tables → ℕ → Bool
is_trimmed lib codepoint = lib.is_whitespace codepoint || leb 0x1C codepoint && leb codepoint 0x1F

unfoldable pub drop_front : (ℕ → Bool) → List ℕ → List ℕ
drop_front skipped [] = []
drop_front skipped (c ∷ cs) = if skipped c then drop_front skipped cs else c ∷ cs

unfoldable pub drop_back : (ℕ → Bool) → List ℕ → List ℕ
drop_back skipped [] = []
drop_back skipped (c ∷ cs) = elim (drop_back skipped cs) [
  | [] ↦ if skipped c then [] else c ∷ []
  | d ∷ ds ↦ c ∷ d ∷ ds
]

unfoldable pub trim : Tables → Bytes → Result ChatError Bytes
trim lib text = elim (utf8_codepoints text) [
  | err e ↦ err invalid_text
  | ok codepoints ↦
      elim (codepoints_utf8 (drop_back (is_trimmed lib) (drop_front (is_trimmed lib) codepoints))) [
        | err e ↦ err invalid_text
        | ok trimmed ↦ ok trimmed
      ]
]

-- `text.rfind(needle)`: the text in front of the last occurrence, and the text from there on.
pub rfind_text : Bytes → Bytes → Option (Bytes × Bytes)
rfind_text needle [] = if starts_with needle [] then some ([], []) else none
rfind_text needle (c ∷ text) = elim (rfind_text needle text) [
  | some (before, found) ↦ some (c ∷ before, found)
  | none ↦ if starts_with needle (c ∷ text) then some ([], c ∷ text) else none
]

abbrev pub is_newline : ℕ → Bool
is_newline c = c == 0x0A

abbrev pub think_open : Bytes
think_open = codes "<think>"

abbrev pub think_close : Bytes
think_close = codes "</think>"

-- The text behind the last occurrence of `needle`, all of the text where there is none.
abbrev pub behind_last : Bytes → Bytes → Bytes
behind_last needle text = elim (rfind_text needle text) [
  | none ↦ text
  | some (before, found) ↦ drop (length needle) found
]

-- The content and the reasoning that are left.
unfoldable pub strip_assistant_reasoning : Tables → Bytes → Result ChatError (Bytes × Bytes)
strip_assistant_reasoning lib content = elim (find_text think_close content) [
  | none ↦ ok (content, [])
  | some (before, found) ↦
      trim lib (drop_front is_newline (behind_last think_open (drop_back is_newline before)))
      >>= λ reasoning. ok (drop_front is_newline (behind_last think_close content), reasoning)
]

abbrev pub dumped : Tables → Json → Result ChatError Bytes
dumped lib value = elim (json_dump (lib.charconv) value) [
  | err e ↦ err number_not_printable
  | ok text ↦ ok text
]

abbrev pub argument_text : Tables → Json → Result ChatError Bytes
argument_text lib value = elim (string_of value) [ none ↦ dumped lib value | some text ↦ ok text ]

unfoldable pub append_arguments : Tables → Bytes → Fields → Result ChatError Bytes
append_arguments lib prompt no_fields = ok prompt
append_arguments lib prompt (field name value rest) = do
  text ← argument_text lib value
  append_arguments lib
      (prompt ++ codes "<parameter=" ++ name ++ codes ">\n" ++ text ++ codes "\n</parameter>\n")
      rest

unfoldable pub append_tool_call : Tables → Bytes → ChatToolCall → Result ChatError Bytes
append_tool_call lib prompt call = elim (object_of (call.arguments)) [
  | none ↦ err arguments_not_an_object
  | some arguments ↦
      append_arguments lib (prompt ++ codes "<tool_call>\n<function=" ++ call.name ++ codes ">\n")
        arguments
      >>= λ longer. ok (longer ++ codes "</function>\n</tool_call>")
]

abbrev pub supported_template_size : ℕ
supported_template_size = 7764

abbrev pub supported_template_fnv1a : ℕ
supported_template_fnv1a = 0x8AE3A8BC6E68F114

-- A 64-bit product wraps around.
pub fnv1a : ℕ → Bytes → ℕ
fnv1a fingerprint [] = fingerprint
fnv1a fingerprint (character ∷ rest) =
    fnv1a (bit_xor fingerprint character * 1099511628211 % 2 ^ 64) rest

pub supported_qwen35_chat_template : Bytes → Bool
supported_qwen35_chat_template chat_template =
    if length chat_template == supported_template_size
    then fnv1a 14695981039346656037 chat_template == supported_template_fnv1a
    else false
