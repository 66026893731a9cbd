-- ===== src/Chat/Prompt/Textual.antt =====
-- src/chat.cpp: what the prompt of acceptable messages can still be refused for.
use adi.Base.{
  ℕ, suc, ◌+◌, ◌≡◌, refl, ap, sym, subst, Bool, true, false, not, ◌||◌, List, [], ◌∷◌, ◌++◌, some,
  ltb, ◌==◌, if-either, option-either, list_eq, arith, Bool-cases, inl, inr, All, list_eq→eq,
}
use adi.Base.Result.{Result, Result-cases}
use adi.Base.Outcome.{Outcome, returns, throws, Outcome-bind}
use adi.Base.Text.{codes}
use adi.Utf8.{Bytes}
use adi.Unicode.{utf8_codepoints, codepoints_utf8}
use adi.Json.Value.{Json, Fields, no_fields, field, string_of, object_of}
use adi.Json.Printer.{json_dump}
use adi.ToolCall.Calls.{find_text}
use adi.Chat.Text.{
  ChatError, ChatMessage, ChatToolCall, Tables, invalid_text, number_not_printable, no_user_query,
  trim, drop_back, drop_front, is_trimmed, think_close, strip_assistant_reasoning, dumped,
  append_arguments, append_tool_call,
}
use package.adi.Chat.Prompt.{
  Turn, has_role, any_system, trim_contents, last_query_from, append_tools, preamble,
  append_message, append_messages, append_tool_calls, append_assistant, prompt_of_turns,
  qwen35_chat_prompt, is_tool_turn,
}
use package.adi.Chat.Prompt.Accepted.{allowed_role, all_allowed, messages_of}

-- The errors that say something of the texts, not of the roles or the calls.
abbrev pub is_text_problem : ChatError → Bool
is_text_problem invalid_text = true
is_text_problem number_not_printable = true
is_text_problem no_user_query = true
is_text_problem _ = false

abbrev pub TextProblem : ChatError → Type 0
TextProblem e = is_text_problem e ≡ true

-- Any value, or an error of the texts.
abbrev pub Textual {ℓ} : {A : Type ℓ} → Result ChatError A → Type ℓ
Textual {A} r = Outcome {A = A} (λ _. Unit {0}) TextProblem r

abbrev pub HasObject : ChatToolCall → Type 0
HasObject call = (fs : Fields) × (object_of (call.arguments) ≡ some fs)

abbrev pub HasObjects : ChatMessage → Type 0
HasObjects m = All HasObject (m.tool_calls)

trim-Textual : (lib : Tables) (text : Bytes) → Textual (trim lib text)
unfolding trim
trim-Textual lib text = elim (Result-cases (utf8_codepoints text)) [
  | inr (e, f) ↦ rw (f, trim) (throws refl)
  | inl (codepoints, f) ↦
      elim (Result-cases
        (codepoints_utf8 (drop_back (is_trimmed lib) (drop_front (is_trimmed lib) codepoints)))) [
          | inl (t, g) ↦ rw (f, g, trim) (returns tt)
          | inr (e, g) ↦ rw (f, g, trim) (throws refl)
        ]
]

strip_assistant_reasoning-Textual :
    (lib : Tables) (content : Bytes) → Textual (strip_assistant_reasoning lib content)
unfolding strip_assistant_reasoning
strip_assistant_reasoning-Textual lib content =
    option-either Textual (find_text think_close content) (returns tt)
      (λ split. Outcome-bind (trim-Textual lib _) (λ reasoning _. returns tt))

dumped-Textual : (lib : Tables) (value : Json) → Textual (dumped lib value)
dumped-Textual lib value = elim (Result-cases (json_dump (lib.charconv) value)) [
  | inl (t, g) ↦ rw (g, dumped) (returns tt)
  | inr (e, g) ↦ rw (g, dumped) (throws refl)
]

append_arguments-Textual :
    (lib : Tables) (prompt : Bytes) (fs : Fields) → Textual (append_arguments lib prompt fs)
unfolding append_arguments
append_arguments-Textual lib prompt no_fields = returns tt
append_arguments-Textual lib prompt (field name value rest) =
    Outcome-bind
      (option-either Textual (string_of value) (dumped-Textual lib value) (λ text. returns tt))
      (λ text _. append_arguments-Textual lib _ rest)

append_tool_call-Textual :
    (lib : Tables) (prompt : Bytes) (call : ChatToolCall)
    → HasObject call
    → Textual (append_tool_call lib prompt call)
unfolding append_tool_call
append_tool_call-Textual lib prompt call (fs, e) =
    rw (e, append_tool_call)
      (Outcome-bind (append_arguments-Textual lib _ fs) (λ longer _. returns tt))

append_tool_calls-Textual :
    (lib : Tables) (lead prompt : Bytes) (calls : List ChatToolCall)
    → All HasObject calls
    → Textual (append_tool_calls lib lead prompt calls)
unfolding append_tool_calls
append_tool_calls-Textual lib lead prompt [] h = returns tt
append_tool_calls-Textual lib lead prompt (call ∷ calls) (o, h) =
    Outcome-bind (append_tool_call-Textual lib (prompt ++ lead) call o)
      (λ longer _. append_tool_calls-Textual lib (codes "\n") longer calls h)

append_assistant-Textual :
    (lib : Tables) (behind_query : Bool) (prompt : Bytes) (m : ChatMessage) (content : Bytes)
    → HasObjects m
    → Textual (append_assistant lib behind_query prompt (m, content))
unfolding append_assistant
append_assistant-Textual lib behind_query prompt m content h =
    Outcome-bind (strip_assistant_reasoning-Textual lib content) (λ (answer, reasoning) _.
      Outcome-bind (append_tool_calls-Textual lib _ _ (m.tool_calls) h) (λ called _. returns tt))

-- A message of the system that may stand where it stands is the first.
system-first :
    (index : ℕ) (m : ChatMessage)
    → allowed_role index m ≡ true
    → has_role (codes "system") m ≡ true
    → (index == 0) ≡ true
unfolding allowed_role
system-first index m h s =
    let role : m.role ≡ codes "system" = list_eq→eq (m.role) (codes "system") s in
    let u : has_role (codes "user") m ≡ false = ap (λ r. list_eq r (codes "user")) role in
    let t : has_role (codes "tool") m ≡ false = ap (λ r. list_eq r (codes "tool")) role in
    let a : has_role (codes "assistant") m ≡ false = ap (λ r. list_eq r (codes "assistant")) role in
    ground arith

nobody :
    (index : ℕ) (m : ChatMessage)
    → allowed_role index m ≡ true
    → has_role (codes "system") m ≡ false
    → has_role (codes "user") m ≡ false
    → has_role (codes "tool") m ≡ false
    → has_role (codes "assistant") m ≡ false
    → ⊥
unfolding allowed_role
nobody index m h s u t a = ground arith

append_message-Textual :
    (lib : Tables) (last_query index : ℕ) (behind_tool before_tool : Bool) (prompt : Bytes)
    (m : ChatMessage) (content : Bytes)
    → allowed_role index m ≡ true
    → HasObjects m
    → Textual (append_message lib last_query index behind_tool before_tool prompt (m, content))
unfolding append_message
append_message-Textual lib last_query index behind_tool before_tool prompt m content h o =
    if-either Textual (has_role (codes "system") m)
      (λ s.
        if-either Textual (index == 0) (λ _. returns tt)
          (λ z. absurd (let first = system-first index m h s in ground arith)))
      (λ s.
        if-either Textual (has_role (codes "user") m) (λ _. returns tt)
          (λ u.
            if-either Textual (has_role (codes "tool") m) (λ _. returns tt)
              (λ t.
                if-either Textual (has_role (codes "assistant") m)
                  (λ _. append_assistant-Textual lib (ltb last_query index) prompt m content o)
                  (λ a. absurd (nobody index m h s u t a)))))

append_messages-Textual :
    (lib : Tables) (last_query index : ℕ) (behind_tool : Bool) (prompt : Bytes) (turns : List Turn)
    → all_allowed index (messages_of turns) ≡ true
    → All HasObjects (messages_of turns)
    → Textual (append_messages lib last_query index behind_tool prompt turns)
unfolding append_messages all_allowed
append_messages-Textual lib last_query index behind_tool prompt [] h o = returns tt
append_messages-Textual lib last_query index behind_tool prompt ((m, content) ∷ turns) h (o, os) =
    Outcome-bind
      (append_message-Textual lib last_query index behind_tool (is_tool_turn turns) prompt m content
        (ground arith) o)
      (λ longer _.
        append_messages-Textual lib last_query (index + 1) _ longer turns (ground arith) os)

append_tools-Textual :
    (lib : Tables) (prompt : Bytes) (tools : List Json) → Textual (append_tools lib prompt tools)
unfolding append_tools
append_tools-Textual lib prompt [] = returns tt
append_tools-Textual lib prompt (tool ∷ tools) =
    Outcome-bind (dumped-Textual lib tool) (λ text _. append_tools-Textual lib _ tools)

preamble-Textual :
    (lib : Tables) (turn : Turn) (tools : List Json) → Textual (preamble lib turn tools)
unfolding preamble
preamble-Textual lib (m, content) [] =
    if-either Textual (has_role (codes "system") m) (λ _. returns tt) (λ _. returns tt)
preamble-Textual lib (m, content) (tool ∷ tools) =
    Outcome-bind (append_tools-Textual lib _ (tool ∷ tools)) (λ prompt _. returns tt)

-- Behind the first message there is none of the system.
all_allowed-any_system :
    (index : ℕ) (messages : List ChatMessage)
    → all_allowed (suc index) messages ≡ true
    → any_system messages ≡ false
unfolding all_allowed any_system
all_allowed-any_system index [] h = refl
all_allowed-any_system index (m ∷ messages) h =
    let rest : all_allowed (suc (suc index)) messages ≡ true = ground arith in
    let later : any_system messages ≡ false = all_allowed-any_system (suc index) messages rest in
    elim (Bool-cases (has_role (codes "system") m)) [
      | inl s ↦ absurd (let first = system-first (suc index) m (ground arith) s in ground arith)
      | inr s ↦ ground arith
    ]

leading :
    (m : ChatMessage) (messages : List ChatMessage)
    → all_allowed 0 (m ∷ messages) ≡ true
    → has_role (codes "system") m || not (any_system (m ∷ messages)) ≡ true
unfolding all_allowed any_system
leading m messages h = let later = all_allowed-any_system 0 messages (ground arith) in ground arith

trim_contents-both :
    (lib : Tables) (messages : List ChatMessage)
    → Outcome (λ turns. messages_of turns ≡ messages) TextProblem (trim_contents lib messages)
unfolding trim_contents
trim_contents-both lib [] = returns refl
trim_contents-both lib (m ∷ messages) = Outcome-bind (trim-Textual lib (m.content)) (λ content _.
    Outcome-bind (trim_contents-both lib messages) (λ turns same. returns (ap (λ ms. m ∷ ms) same)))

prompt_of_turns-Textual :
    (lib : Tables) (first : Turn) (turns : List Turn) (tools : List Json)
    → all_allowed 0 (messages_of (first ∷ turns)) ≡ true
    → All HasObjects (messages_of (first ∷ turns))
    → Textual (prompt_of_turns lib (first ∷ turns) tools)
unfolding prompt_of_turns
prompt_of_turns-Textual lib first turns tools h o =
    option-either Textual (last_query_from 0 (first ∷ turns)) (throws refl) (λ n.
      Outcome-bind (preamble-Textual lib first tools) (λ opened _.
        Outcome-bind (append_messages-Textual lib n 0 false opened (first ∷ turns) h o)
          (λ prompt _. returns tt)))

trimmed-Textual :
    (lib : Tables) (m : ChatMessage) (messages : List ChatMessage) (tools : List Json)
    → all_allowed 0 (m ∷ messages) ≡ true
    → All HasObjects (m ∷ messages)
    → (turns : List Turn) → messages_of turns ≡ m ∷ messages
    → Textual (prompt_of_turns lib turns tools)
trimmed-Textual lib m messages tools h o [] e = absurd (ground arith)
trimmed-Textual lib m messages tools h o (first ∷ turns) e =
    prompt_of_turns-Textual lib first turns tools (subst (λ ms. all_allowed 0 ms ≡ true) (sym e) h)
      (subst (All HasObjects) (sym e) o)

-- The prompt of messages whose roles stand where they may, and whose calls have objects as their
-- arguments, fails for no other reason than a text that is not UTF-8, a number that cannot be
-- printed, or that there is no query of a user.
pub qwen35_chat_prompt-Textual :
    (lib : Tables) (m : ChatMessage) (messages : List ChatMessage) (tools : List Json)
    → all_allowed 0 (m ∷ messages) ≡ true
    → All HasObjects (m ∷ messages)
    → Textual (qwen35_chat_prompt lib (m ∷ messages) tools)
unfolding qwen35_chat_prompt
qwen35_chat_prompt-Textual lib m messages tools h o = rw (leading m messages h) (
    Outcome-bind (trim_contents-both lib (m ∷ messages))
      (λ turns same. trimmed-Textual lib m messages tools h o turns same))
