-- ===== src/Server/Request/Prepared.antt =====
-- src/server.cpp: what a prepared request promises.
use adi.Base.{
  ◌≤◌, ◌≡◌, refl, subst, Bool, true, not, ◌||◌, List, [], ◌∷◌, ◌++◌, ◌==◌, if◌then◌else◌, if-either,
  option-either, length, list_eq, arith, All,
}
use adi.Base.Result.{Result, err, Ensures, holds, rejected, Ensures-ok, Ensures-of, result-either}
use adi.Base.Outcome.{Outcome, returns, throws, Outcome-bind, Outcome-err, Outcome-guard}
use adi.Base.Text.{codes}
use adi.Utf8.{Bytes}
use adi.Json.Value.{Json, find, is_null, string_of}
use adi.ToolCall.Tools.{FunctionTool, parse_function_tools}
use adi.Chat.Text.{ChatMessage, Tables}
use adi.Chat.Prompt.{qwen35_chat_prompt}
use adi.Chat.Prompt.Accepted.{assistant_opening, all_allowed, qwen35_chat_prompt-IsAccepted}
use adi.Chat.Prompt.Textual.{HasObjects, TextProblem, qwen35_chat_prompt-Textual}
use adi.Server.Messages.{RequestError, previous_response, response_messages}
use adi.Server.Messages.Promptable.{ArePromptable, response_messages-ArePromptable}
use package.adi.Server.Request.{
  PrepareError, refused, prompt_problem, refusing, requested_parallel, continues_response,
  offers_tools, prompt_tools, PreparedRequest, requested_tools, requested_choice, request_prompt,
  prepare_request,
}
use adi.Server.Messages.Filled.{Filled, response_messages-Filled}
use adi.ToolCall.Tools.Valid.{AreValid, parse_function_tools-AreValid}

-- A choice of tools that the code knows.
abbrev pub is_choice : Bytes → Bool
is_choice text = list_eq text (codes "auto") || list_eq text (codes "none")

-- A request is refused for what is wrong with it; a prompt fails for its texts only.
abbrev pub IsClientProblem : PrepareError → Type 0
IsClientProblem (refused e) = Unit
IsClientProblem (prompt_problem e) = TextProblem e

refusing-IsClientProblem {ℓ κ} :
    {A : Type ℓ} {P : A → Type κ} {r : Result RequestError A}
    → Ensures P r
    → Outcome P IsClientProblem (refusing r)
refusing-IsClientProblem (holds h) = returns h
refusing-IsClientProblem rejected = throws tt

abbrev pub IsToolList : List FunctionTool → Type 0
IsToolList tools = AreValid tools × (length tools ≤ 128)

requested_tools-IsToolList : (root : Json) → Ensures IsToolList (requested_tools root)
unfolding requested_tools
requested_tools-IsToolList root =
    option-either (Ensures IsToolList) (find (codes "tools") root) (holds ((tt, tt), omega arith))
      (λ tools.
        if-either (Ensures IsToolList) (is_null tools) (λ _. holds ((tt, tt), omega arith))
          (λ _.
            result-either (Ensures IsToolList) (parse_function_tools tools) (λ e _. rejected)
              (λ parsed e.
                let (items, found, count, few, valid) =
                  parse_function_tools-AreValid tools parsed e in
                holds (valid, few))))

abbrev IsChoice : Bytes → Type 0
IsChoice text = is_choice text ≡ true

requested_choice-IsChoice :
    (root : Json) (tools : List FunctionTool) → Ensures IsChoice (requested_choice root tools)
unfolding requested_choice
requested_choice-IsChoice root tools =
    option-either (Ensures IsChoice) (find (codes "tool_choice") root)
      (holds (if-either IsChoice (length tools == 0) (λ _. refl) (λ _. refl)))
      (λ choice.
        option-either (Ensures IsChoice) (string_of choice) rejected
          (λ text. if-either (Ensures IsChoice) (is_choice text) (λ e. holds e) (λ _. rejected)))

response_messages-both :
    (lib : Tables) (root : Json)
    → Ensures
        (λ messages. ArePromptable messages × Filled messages)
        (response_messages (lib.charconv) root)
response_messages-both lib root = Ensures-of (response_messages (lib.charconv) root) (λ messages e.
    (
      Ensures-ok (response_messages-ArePromptable (lib.charconv) root) e,
      Ensures-ok (response_messages-Filled (lib.charconv) root) e,
    ))

-- The messages' prompt, and that it is one.
abbrev pub IsPrompt : Bytes → Type 0
IsPrompt prompt = (body : Bytes) × (prompt ≡ body ++ assistant_opening)

request_prompt-IsPrompt :
    (lib : Tables) (messages : List ChatMessage) (tool_choice : Bytes) (tools : List FunctionTool)
    → ArePromptable messages
    → Filled messages
    → Outcome IsPrompt IsClientProblem (request_prompt lib messages tool_choice tools)
unfolding request_prompt
request_prompt-IsPrompt lib messages tool_choice tools (allowed, objects) (first, rest, e) =
    let offered = if offers_tools tool_choice tools then prompt_tools tools else [] in
    let allowed' : all_allowed 0 (first ∷ rest) ≡ true =
      subst (λ ms. all_allowed 0 ms ≡ true) e allowed in
    let objects' : All HasObjects (first ∷ rest) = subst (All HasObjects) e objects in
    let textual = qwen35_chat_prompt-Textual lib first rest offered allowed' objects' in
    let accepted = qwen35_chat_prompt-IsAccepted lib messages offered in
    result-either (Outcome IsPrompt IsClientProblem) (qwen35_chat_prompt lib messages offered)
      (λ problem f.
        throws
          (Outcome-err textual (subst (λ ms. qwen35_chat_prompt lib ms offered ≡ err problem) e f)))
      (λ prompt f. returns (let (_, _, body, same) = Ensures-ok accepted f in (body, same)))

-- What a prepared request has.
abbrev pub IsPrepared : PreparedRequest → Type 0
IsPrepared request =
    IsToolList (request.tools)
    × (is_choice (request.tool_choice) ≡ true)
    × IsPrompt (request.prompt)

-- A request that is accepted has at most 128 tools, valid and of different names, its tool choice is
-- "auto" or "none", and its prompt ends with the opening of an assistant's thinking. One that is
-- refused where its prompt is made is so for a text that is not UTF-8, a number that cannot be
-- printed, or because no user asks anything: never for its messages' roles or calls.
pub prepare_request-IsPrepared :
    (lib : Tables) (root : Json) → Outcome IsPrepared IsClientProblem (prepare_request lib root)
unfolding prepare_request
prepare_request-IsPrepared lib root =
    Outcome-guard (not (continues_response root)) (refused previous_response) tt (λ _.
      Outcome-bind (refusing-IsClientProblem (requested_tools-IsToolList root)) (λ tools valid.
        Outcome-bind (refusing-IsClientProblem (requested_choice-IsChoice root tools))
          (λ choice known.
            Outcome-bind
              (refusing-IsClientProblem (Ensures-of (requested_parallel root tools) (λ b e. e)))
              (λ parallel _.
                Outcome-bind (refusing-IsClientProblem (response_messages-both lib root))
                  (λ messages (promptable, filled).
                    Outcome-bind
                      (request_prompt-IsPrompt lib messages choice tools promptable filled)
                      (λ prompt is_prompt. returns (valid, known, is_prompt)))))))
