-- ===== src/Chat/Prompt/Accepted.antt =====
-- src/chat.cpp: the conversations that `qwen35_chat_prompt` accepts.
use adi.Base.{
  ℕ, ◌+◌, ◌≡◌, refl, ap, subst, Bool, true, false, not, ◌||◌, ◌&&◌, List, [], ◌∷◌, ◌++◌, some, ltb,
  ◌==◌, arith, Bool-cases, Option-cases, inl, inr,
}
use adi.Base.Result.{
  Ensures, holds, rejected, Ensures-of, Ensures-bind, Ensures-guard, Ensures-map, Ensures-after,
}
use adi.Base.Text.{codes}
use adi.Utf8.{Bytes}
use adi.Json.Value.{Json}
use adi.Chat.Text.{ChatMessage, Tables, misplaced_system_message, trim}
use package.adi.Chat.Prompt.{
  Turn, has_role, any_system, trim_contents, last_query_from, preamble, append_message,
  append_messages, append_assistant, prompt_of_turns, qwen35_chat_prompt, is_tool_turn,
}

-- The roles that a message may have: only the first one may be of the system.
unfoldable pub allowed_role : ℕ → ChatMessage → Bool
allowed_role index message =
    has_role (codes "system") message && index == 0
    || (has_role (codes "user") message
        || (has_role (codes "tool") message || has_role (codes "assistant") message))

unfoldable pub all_allowed : ℕ → List ChatMessage → Bool
all_allowed index [] = true
all_allowed index (message ∷ messages) =
    allowed_role index message && all_allowed (index + 1) messages

pub any_user : List ChatMessage → Bool
any_user [] = false
any_user (message ∷ messages) = has_role (codes "user") message || any_user messages

abbrev pub messages_of : List Turn → List ChatMessage
messages_of [] = []
messages_of ((message, content) ∷ turns) = message ∷ messages_of turns

append_message-allowed :
    (lib : Tables) (last_query index : ℕ) (behind_tool before_tool : Bool) (prompt : Bytes)
    (turn : Turn)
    → Ensures
        (λ longer. allowed_role index turn.0 ≡ true)
        (append_message lib last_query index behind_tool before_tool prompt turn)
unfolding append_message allowed_role
append_message-allowed lib last_query index behind_tool before_tool prompt (message, content) =
    elim (Bool-cases (has_role (codes "system") message)) [
      | inl s ↦ elim (Bool-cases (index == 0)) [
        | inl z ↦ rw (s, z) (holds refl)
        | inr z ↦ rw (s, z) rejected
      ]
      | inr s ↦ elim (Bool-cases (has_role (codes "user") message)) [
        | inl u ↦ rw (s, u) (holds refl)
        | inr u ↦ elim (Bool-cases (has_role (codes "tool") message)) [
          | inl t ↦ rw (s, u, t) (holds refl)
          | inr t ↦ elim (Bool-cases (has_role (codes "assistant") message)) [
            | inl a ↦
                rw (s, u, t, a)
                  (Ensures-of
                    (append_assistant lib (ltb last_query index) prompt (message, content))
                    (λ longer e. refl))
            | inr a ↦ rw (s, u, t, a) rejected
          ]
        ]
      ]
    ]

append_messages-allowed :
    (lib : Tables) (last_query index : ℕ) (behind_tool : Bool) (prompt : Bytes) (turns : List Turn)
    → Ensures
        (λ longer. all_allowed index (messages_of turns) ≡ true)
        (append_messages lib last_query index behind_tool prompt turns)
unfolding append_messages all_allowed
append_messages-allowed lib last_query index behind_tool prompt [] = holds refl
append_messages-allowed lib last_query index behind_tool prompt ((message, content) ∷ turns) =
    Ensures-bind
      (append_message-allowed lib last_query index behind_tool (is_tool_turn turns) prompt
        (message, content))
      (λ longer first.
        Ensures-map
          (append_messages-allowed lib last_query (index + 1) (has_role (codes "tool") message)
            longer turns)
          (λ prompt' rest. ground arith))

pub trim_contents-messages :
    (lib : Tables) (messages : List ChatMessage)
    → Ensures (λ turns. messages_of turns ≡ messages) (trim_contents lib messages)
unfolding trim_contents
trim_contents-messages lib [] = holds refl
trim_contents-messages lib (message ∷ messages) =
    Ensures-after (trim lib (message.content)) (λ content.
      Ensures-bind (trim_contents-messages lib messages)
        (λ turns same. holds (ap (λ ms. message ∷ ms) same)))

last_query_from-user :
    (index : ℕ) (turns : List Turn) (n : ℕ)
    → last_query_from index turns ≡ some n
    → any_user (messages_of turns) ≡ true
unfolding last_query_from any_user
last_query_from-user index [] n h = absurd (ground arith)
last_query_from-user index ((message, content) ∷ turns) n h =
    elim (Option-cases (last_query_from (index + 1) turns)) [
      | inr (later, e) ↦
          let user : any_user (messages_of turns) ≡ true =
            last_query_from-user (index + 1) turns later e in
          ground arith
      | inl e ↦ elim (Bool-cases (has_role (codes "user") message)) [
        | inl u ↦ ground arith
        | inr u ↦ absurd (ground arith)
      ]
    ]

abbrev pub assistant_opening : Bytes
assistant_opening = codes "<|im_start|>assistant\n<think>\n"

-- What an accepted conversation and its prompt are.
abbrev pub IsAccepted : List ChatMessage → Bytes → Type 0
IsAccepted messages prompt =
    (all_allowed 0 messages ≡ true)
    × (any_user messages ≡ true)
    × (body : Bytes) × (prompt ≡ body ++ assistant_opening)

prompt_of_turns-IsAccepted :
    (lib : Tables) (turns : List Turn) (tools : List Json)
    → Ensures (IsAccepted (messages_of turns)) (prompt_of_turns lib turns tools)
unfolding prompt_of_turns
prompt_of_turns-IsAccepted lib [] tools = rejected
prompt_of_turns-IsAccepted lib (first ∷ turns) tools =
    elim (Option-cases (last_query_from 0 (first ∷ turns))) [
      | inl e ↦ rw (e, prompt_of_turns) rejected
      | inr (n, e) ↦
          let user = last_query_from-user 0 (first ∷ turns) n e in
          rw (e, prompt_of_turns)
            (Ensures-after (preamble lib first tools) (λ opened.
              Ensures-bind (append_messages-allowed lib n 0 false opened (first ∷ turns))
                (λ prompt allowed. holds (allowed, user, prompt, refl))))
    ]

-- If `qwen35_chat_prompt` returns a prompt, then each message is of a user, a tool or an assistant, or is
-- the first one and of the system; there is a message of a user; and the prompt ends with the
-- opening of an assistant's thinking. A conversation of any other kind is an error.
pub qwen35_chat_prompt-IsAccepted :
    (lib : Tables) (messages : List ChatMessage) (tools : List Json)
    → Ensures (IsAccepted messages) (qwen35_chat_prompt lib messages tools)
unfolding qwen35_chat_prompt
qwen35_chat_prompt-IsAccepted lib [] tools = rejected
qwen35_chat_prompt-IsAccepted lib (first ∷ messages) tools =
    Ensures-guard (has_role (codes "system") first || not (any_system (first ∷ messages)))
      misplaced_system_message
      (λ _. Ensures-bind (trim_contents-messages lib (first ∷ messages)) (λ turns same.
        subst (λ ms. Ensures (IsAccepted ms) (prompt_of_turns lib turns tools)) same
          (prompt_of_turns-IsAccepted lib turns tools)))
