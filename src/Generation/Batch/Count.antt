-- ===== src/Generation/Batch/Count.antt =====
-- src/generation.cpp: how often a request is answered, in progress and waiting, over a round.
use adi.Base.{
  ℕ, ◌+◌, ◌≤◌, ◌≡◌, refl, ap, subst, ◌∙◌, Bool, false, ◌||◌, List, [], ◌∷◌, ◌++◌, Option, none,
  some, ◌==◌, if◌then◌else◌, if-either, length, take, drop, arith, Bool-cases, inl, inr,
}
use adi.Base.Result.{result-either}
use adi.Utf8.{Bytes}
use adi.Generation.Engine.{
  Engine, Problem, Request, Answer, FinishReason, generation_cancelled, stop_token, length_reached,
  failed,
}
use package.adi.Generation.Batch.{
  Log, Active, Round, has_answer, answer_request, fail, publish, finish, keep_token, stream_token,
  sample_item, sample_items, going_on, fail_all, fail_remaining,
}

abbrev pub hits : ℕ → ℕ → ℕ
hits a b = if a == b then 1 else 0

-- How often the promise of a request is set.
abbrev pub answered : ℕ → List (ℕ × Answer) → ℕ
answered address [] = 0
answered address ((candidate, answer) ∷ answers) = hits candidate address + answered address answers

abbrev pub waiting : ℕ → List Request → ℕ
waiting address [] = 0
waiting address (request ∷ pending) = hits (request.address) address + waiting address pending

hits_refl : (a : ℕ) → hits a a ≡ 1
hits_refl a = ground arith

answered-append :
    (address : ℕ) (xs ys : List (ℕ × Answer))
    → answered address (xs ++ ys) ≡ answered address xs + answered address ys
answered-append address [] ys = omega arith
answered-append address ((a, x) ∷ xs) ys = omega (arith, answered-append address xs ys)

pub waiting-append :
    (address : ℕ) (xs ys : List Request)
    → waiting address (xs ++ ys) ≡ waiting address xs + waiting address ys
waiting-append address [] ys = omega arith
waiting-append address (x ∷ xs) ys = omega (arith, waiting-append address xs ys)

has_answer-false :
    (address : ℕ) (answers : List (ℕ × Answer))
    → answered address answers ≡ 0
    → has_answer address answers ≡ false
unfolding has_answer
has_answer-false address [] h = refl
has_answer-false address ((a, x) ∷ xs) h = elim (Bool-cases (a == address)) [
  | inl e ↦ absurd (ground arith)
  | inr e ↦ let rest = has_answer-false address xs (ground arith) in ground arith
]

answer_request-answered :
    (address : ℕ) (candidate : ℕ) (answer : Answer) (log : Log)
    → answered candidate (log.answers) ≡ 0
    → answered address ((answer_request candidate answer log).answers)
      ≡ answered address (log.answers) + hits candidate address
unfolding answer_request
answer_request-answered address candidate answer log h =
    rw (has_answer-false candidate (log.answers) h)
      (answered-append address (log.answers) ((candidate, answer) ∷ []) ∙ (omega arith))

publish-answers :
    (request : Request) (piece : Bytes) (log : Log)
    → (publish request piece log).answers ≡ log.answers
unfolding publish
publish-answers request piece log =
    if-either (λ (seen : Log). seen.answers ≡ log.answers) (request.stream_tokens) (λ _. refl)
      (λ _. refl)

module _ (engine : Engine) where
  abbrev pub serving : ℕ → List (Active engine) → ℕ
  serving address [] = 0
  serving address (item ∷ active) = hits (item.request.address) address + serving address active

  abbrev going : ℕ → Option (Active engine × ℕ) → ℕ
  going address none = 0
  going address (some (item, token)) = hits (item.request.address) address

  -- The request is answered, or it goes on.
  abbrev Moves : ℕ → List (ℕ × Answer) → Log × Option (Active engine × ℕ) → Type 0
  Moves candidate answers (log, next) =
      (address : ℕ)
      → answered address (log.answers) + going address next
        ≡ answered address answers + hits candidate address

  fail-Moves :
      (problem : Problem) (request : Request) (log : Log)
      → answered (request.address) (log.answers) ≡ 0
      → Moves (request.address) (log.answers) (fail problem request log, none)
  unfolding fail
  fail-Moves problem request log h address =
      omega (arith, answer_request-answered address (request.address) (failed problem) log h)

  finish-Moves :
      (item : Active engine) (reason : FinishReason) (log : Log)
      → answered (item.request.address) (log.answers) ≡ 0
      → Moves (item.request.address) (log.answers) (finish engine item reason log, none)
  unfolding finish
  finish-Moves item reason log h =
      result-either (λ seen. Moves (item.request.address) (log.answers) (seen, none))
        (engine.decode (item.output_tokens)) (λ problem _. fail-Moves problem (item.request) log h)
        (λ text _ address.
          omega (arith, answer_request-answered address (item.request.address) _ log h))

  keep_token-Moves :
      (item : Active engine) (token : ℕ) (random : engine.Random) (log : Log)
      → answered (item.request.address) (log.answers) ≡ 0
      → Moves (item.request.address) (log.answers) (keep_token engine item token random log)
  unfolding keep_token
  keep_token-Moves item token random log h =
      if-either (Moves (item.request.address) (log.answers))
        (length (item.output_tokens ++ token ∷ []) == item.max_output_tokens)
        (λ _.
          finish-Moves
            (record item { output_tokens = item.output_tokens ++ token ∷ []; random = random })
            length_reached log h)
        (λ _ address. refl)

  stream_token-Moves :
      (item : Active engine) (token : ℕ) (random : engine.Random) (log : Log)
      → answered (item.request.address) (log.answers) ≡ 0
      → Moves (item.request.address) (log.answers) (stream_token engine item token random log)
  unfolding stream_token
  stream_token-Moves item token random log h =
      if-either (Moves (item.request.address) (log.answers)) (item.request.stream_tokens)
        (λ _.
          result-either (Moves (item.request.address) (log.answers)) (engine.token_text token)
            (λ problem _. fail-Moves problem (item.request) log h)
            (λ piece _.
              let same = publish-answers (item.request) piece log in
              subst
                (λ answers.
                  Moves (item.request.address) answers
                    (keep_token engine item token random (publish (item.request) piece log)))
                same
                (keep_token-Moves item token random (publish (item.request) piece log)
                  (ap (answered (item.request.address)) same ∙ h))))
        (λ _. keep_token-Moves item token random log h)

  sample_item-Moves :
      (im_end : ℕ) (is_cancelled : Bool) (row : List ℕ) (item : Active engine) (log : Log)
      → answered (item.request.address) (log.answers) ≡ 0
      → Moves
          (item.request.address)
          (log.answers)
          (sample_item engine im_end is_cancelled row item log)
  unfolding sample_item
  sample_item-Moves im_end is_cancelled row item log h =
      if-either (Moves (item.request.address) (log.answers)) is_cancelled
        (λ _. fail-Moves generation_cancelled (item.request) log h)
        (λ _.
          result-either (Moves (item.request.address) (log.answers))
            (engine.sample_token row (item.request.options.temperature) (item.request.options.top_p)
              (item.random))
            (λ problem _. fail-Moves problem (item.request) log h)
            (λ (token, random) _.
              if-either (Moves (item.request.address) (log.answers))
                (token == engine.eos_token || token == im_end)
                (λ _. finish-Moves item stop_token log h)
                (λ _. stream_token-Moves item token random log h)))

  -- No request is answered and in progress, or twice so.
  abbrev pub AtMostOnce : List (ℕ × Answer) → List (Active engine) → Type 0
  AtMostOnce answers active = (address : ℕ) → answered address answers + serving address active ≤ 1

  -- Each request is as often answered or in progress as it was before.
  abbrev pub Conserves :
      List (ℕ × Answer) → List (Active engine) → Log → List (Active engine) → Type 0
  Conserves answers active log next =
      (address : ℕ)
      → answered address (log.answers) + serving address next
        ≡ answered address answers + serving address active

  going_on-serving :
      (address : ℕ) (next : Option (Active engine × ℕ)) (state : engine.State)
      (scratch : engine.Scratch) (rest : Round engine)
      → serving address ((going_on engine next state scratch rest).next_active)
        ≡ going address next + serving address (rest.next_active)
  going_on-serving address none state scratch rest = omega arith
  going_on-serving address (some (item, token)) state scratch rest = refl

  going_on-log :
      (next : Option (Active engine × ℕ)) (state : engine.State) (scratch : engine.Scratch)
      (rest : Round engine)
      → (going_on engine next state scratch rest).next_log ≡ rest.next_log
  going_on-log none state scratch rest = refl
  going_on-log (some (item, token)) state scratch rest = refl

  unanswered :
      (answers : List (ℕ × Answer)) (item : Active engine) (active : List (Active engine))
      → AtMostOnce answers (item ∷ active)
      → answered (item.request.address) answers ≡ 0
  unanswered answers item active h =
      let own = h (item.request.address) in
      let same = hits_refl (item.request.address) in omega arith

  pub sample_items-Conserves :
      (im_end : ℕ) (cancelled : ℕ → Bool) (log : Log) (active : List (Active engine))
      (states : List (engine.State)) (scratches : List (engine.Scratch)) (logits : List ℕ)
      → length states ≡ length active
      → length scratches ≡ length active
      → AtMostOnce (log.answers) active
      → (let next = sample_items engine im_end cancelled log active states scratches logits in
          Conserves (log.answers) active (next.next_log) (next.next_active))
  unfolding sample_items
  sample_items-Conserves im_end cancelled log [] states scratches logits s c h address = refl
  sample_items-Conserves im_end cancelled log (item ∷ active) [] scratches logits s c h address =
      absurd (omega arith)
  sample_items-Conserves im_end cancelled log (item ∷ active) (state ∷ states) [] logits s c h
        address =
      absurd (omega arith)
  sample_items-Conserves im_end cancelled log (item ∷ active) (state ∷ states) (scratch ∷ scratches)
        logits s c h address =
      let once = unanswered (log.answers) item active h in
      let one =
        sample_item engine im_end (cancelled (item.request.address))
          (take (engine.vocabulary) logits) item log in
      let moved : Moves (item.request.address) (log.answers) one =
        sample_item-Moves im_end (cancelled (item.request.address))
          (take (engine.vocabulary) logits) item log once in
      let kept : AtMostOnce (one.0.answers) active =
        λ a. (let m = moved a in let b = h a in omega arith) in
      let rest =
        sample_items engine im_end cancelled (one.0) active states scratches
          (drop (engine.vocabulary) logits) in
      let conserved =
        sample_items-Conserves im_end cancelled (one.0) active states scratches
          (drop (engine.vocabulary) logits) (omega arith) (omega arith) kept address in
      let m = moved address in
      let g = going_on-serving address (one.1) state scratch rest in
      let l : answered address ((going_on engine (one.1) state scratch rest).next_log.answers)
          ≡ answered address (rest.next_log.answers) =
        ap (λ (seen : Log). answered address (seen.answers))
          (going_on-log (one.1) state scratch rest) in
      omega arith

  pub fail_all-Conserves :
      (problem : Problem) (log : Log) (active : List (Active engine))
      → AtMostOnce (log.answers) active
      → Conserves (log.answers) active (fail_all engine problem active log) []
  unfolding fail_all
  fail_all-Conserves problem log [] h address = refl
  fail_all-Conserves problem log (item ∷ active) h address =
      let once = unanswered (log.answers) item active h in
      let moved = fail-Moves problem (item.request) log once in
      let kept : AtMostOnce ((fail problem (item.request) log).answers) active =
        λ a. (let m = moved a in let b = h a in omega arith) in
      let m = moved address in
      let rest = fail_all-Conserves problem (fail problem (item.request) log) active kept address in
      omega arith

pub fail-answered :
    (problem : Problem) (request : Request) (log : Log) (address : ℕ)
    → answered (request.address) (log.answers) ≡ 0
    → answered address ((fail problem request log).answers)
      ≡ answered address (log.answers) + hits (request.address) address
unfolding fail
fail-answered problem request log address h =
    answer_request-answered address (request.address) (failed problem) log h

-- The requests that still wait fail, once each.
pub fail_remaining-answered :
    (problem : Problem) (log : Log) (pending : List Request)
    → ((address : ℕ) → answered address (log.answers) + waiting address pending ≤ 1)
    → (address : ℕ)
    → answered address ((fail_remaining problem pending log).answers)
      ≡ answered address (log.answers) + waiting address pending
unfolding fail_remaining fail
fail_remaining-answered problem log [] h address = omega arith
fail_remaining-answered problem log (request ∷ pending) h address =
    let own = h (request.address) in
    let same = hits_refl (request.address) in
    let once : answered (request.address) (log.answers) ≡ 0 = omega arith in
    let next = fail problem request log in
    let moved : (a : ℕ)
        → answered a (next.answers) ≡ answered a (log.answers) + hits (request.address) a =
      λ a. answer_request-answered a (request.address) (failed problem) log once in
    let rest =
      fail_remaining-answered problem next pending
        (λ a. (let m = moved a in let b = h a in omega arith)) address in
    let m = moved address in omega arith
