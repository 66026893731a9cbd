-- ===== src/Generation/Batch/Limits.antt =====
-- src/generation.cpp: the requests in progress keep to their limits, and come to an end.
use adi.Base.{
  ℕ, ◌+◌, ◌-◌, ◌≤◌, ◌<◌, ◌≡◌, refl, Bool, ◌||◌, List, [], ◌∷◌, ◌++◌, Option, none, some, ◌==◌,
  if-either, length, arith, All, All-append, length-append,
}
use adi.Base.Result.{result-either}
use adi.Utf8.{Bytes}
use adi.Generation.Engine.{
  Engine, Problem, Request, Answer, FinishReason, generation_cancelled, stop_token, length_reached,
  finished, failed,
}
use package.adi.Generation.Batch.{
  Log, Active, answer_request, has_answer, fail, publish, finish, keep_token, stream_token,
  sample_item,
}

-- An answer with a result keeps within the context.
abbrev pub IsWithin : ℕ → ℕ × Answer → Type 0
IsWithin context (address, finished result) = result.input_tokens + result.output_tokens ≤ context
IsWithin context (address, failed problem) = Unit

abbrev pub AreWithin : ℕ → Log → Type 0
AreWithin context log = All (IsWithin context) (log.answers)

answer_request-AreWithin :
    (context address : ℕ) (answer : Answer) (log : Log)
    → IsWithin context (address, answer)
    → AreWithin context log
    → AreWithin context (answer_request address answer log)
unfolding answer_request
answer_request-AreWithin context address answer log w h =
    if-either (All (IsWithin context)) (has_answer address (log.answers)) (λ _. h)
      (λ _. All-append (IsWithin context) (log.answers) ((address, answer) ∷ []) h (w, tt))

pub fail-AreWithin :
    (context : ℕ) (problem : Problem) (request : Request) (log : Log)
    → AreWithin context log
    → AreWithin context (fail problem request log)
unfolding fail
fail-AreWithin context problem request log h =
    answer_request-AreWithin context (request.address) (failed problem) log tt h

publish-AreWithin :
    (context : ℕ) (request : Request) (piece : Bytes) (log : Log)
    → AreWithin context log
    → AreWithin context (publish request piece log)
unfolding publish
publish-AreWithin context request piece log h =
    if-either (AreWithin context) (request.stream_tokens) (λ _. h) (λ _. h)

module _ (engine : Engine) where
  -- There is at least one token more to be generated, and all that may be generated fit in the context.
  abbrev pub IsRunning : Active engine → Type 0
  IsRunning item =
      (length (item.output_tokens) < item.max_output_tokens)
      × (item.input_tokens + item.max_output_tokens ≤ engine.context)

  -- How many tokens an item may still generate.
  abbrev pub left : Active engine → ℕ
  left item = item.max_output_tokens - length (item.output_tokens)

  -- The item goes on with the same request, and may generate fewer tokens.
  abbrev pub GoesOn : Active engine → Option (Active engine × ℕ) → Type 0
  GoesOn item none = Unit
  GoesOn item (some (next, token)) =
      IsRunning next × (next.request ≡ item.request) × (left next + 1 ≤ left item)

  abbrev pub Follows : Active engine → Log × Option (Active engine × ℕ) → Type 0
  Follows item (log, next) = AreWithin (engine.context) log × GoesOn item next

  finish-AreWithin :
      (item : Active engine) (reason : FinishReason) (log : Log)
      → item.input_tokens + length (item.output_tokens) ≤ engine.context
      → AreWithin (engine.context) log
      → AreWithin (engine.context) (finish engine item reason log)
  unfolding finish
  finish-AreWithin item reason log w h =
      result-either (AreWithin (engine.context)) (engine.decode (item.output_tokens))
        (λ problem _. fail-AreWithin (engine.context) problem (item.request) log h)
        (λ text _. answer_request-AreWithin (engine.context) (item.request.address) _ log w h)

  keep_token-Follows :
      (item : Active engine) (token : ℕ) (random : engine.Random) (log : Log)
      → IsRunning item
      → AreWithin (engine.context) log
      → Follows item (keep_token engine item token random log)
  unfolding keep_token
  keep_token-Follows item token random log (more, fits) h =
      let longer = length-append (item.output_tokens) (token ∷ []) in
      if-either (Follows item) (length (item.output_tokens ++ token ∷ []) == item.max_output_tokens)
        (λ e. (
          finish-AreWithin
              (record item { output_tokens = item.output_tokens ++ token ∷ []; random = random })
              length_reached log (omega arith) h,
          tt,
        ))
        (λ e.
          let less : length (item.output_tokens ++ token ∷ []) < item.max_output_tokens =
            ground arith in
          (h, ((less, fits), refl, (omega arith))))

  stream_token-Follows :
      (item : Active engine) (token : ℕ) (random : engine.Random) (log : Log)
      → IsRunning item
      → AreWithin (engine.context) log
      → Follows item (stream_token engine item token random log)
  unfolding stream_token
  stream_token-Follows item token random log r h =
      if-either (Follows item) (item.request.stream_tokens)
        (λ _.
          result-either (Follows item) (engine.token_text token)
            (λ problem _. (fail-AreWithin (engine.context) problem (item.request) log h, tt))
            (λ piece _.
              keep_token-Follows item token random (publish (item.request) piece log) r
                (publish-AreWithin (engine.context) (item.request) piece log h)))
        (λ _. keep_token-Follows item token random log r h)

  pub sample_item-Follows :
      (im_end : ℕ) (is_cancelled : Bool) (row : List ℕ) (item : Active engine) (log : Log)
      → IsRunning item
      → AreWithin (engine.context) log
      → Follows item (sample_item engine im_end is_cancelled row item log)
  unfolding sample_item
  sample_item-Follows im_end is_cancelled row item log (more, fits) h =
      if-either (Follows item) is_cancelled
        (λ _. (fail-AreWithin (engine.context) generation_cancelled (item.request) log h, tt))
        (λ _.
          result-either (Follows item)
            (engine.sample_token row (item.request.options.temperature) (item.request.options.top_p)
              (item.random))
            (λ problem _. (fail-AreWithin (engine.context) problem (item.request) log h, tt))
            (λ (token, random) _.
              if-either (Follows item) (token == engine.eos_token || token == im_end)
                (λ _. (finish-AreWithin item stop_token log (omega arith) h, tt))
                (λ _. stream_token-Follows item token random log (more, fits) h)))
