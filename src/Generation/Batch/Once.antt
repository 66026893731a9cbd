-- ===== src/Generation/Batch/Once.antt =====
-- src/generation.cpp: each request that is submitted is answered once.
use adi.Base.{
  ℕ, ◌+◌, ◌≤◌, ◌≡◌, refl, ap, subst, Bool, false, List, [], ◌∷◌, ◌++◌, list-either, arith,
}
use adi.Base.Result.{◌>>=◌, Ensures, holds, Ensures-ok, Ensures-bind, Ensures-after, result-either}
use adi.Base.Text.{codes}
use adi.Generation.Engine.{Engine, Problem, Request, batcher_stopped}
use adi.Generation.Prefill.{throw_if_cancelled, prefill_prompt}
use package.adi.Generation.Batch.{
  Log, Active, Batch, Batcher, Round, Polls, Event, submitted, round, sample_items, fail_all,
  prepare, admit, admit_pending, decode_round, worker_round, happen, happen_all, submit, submit_all,
  terminate, single, run, nonempty, limited, idle,
}
use package.adi.Generation.Batch.Count.{
  hits, answered, waiting, serving, waiting-append, AtMostOnce, Conserves, sample_items-Conserves,
  fail_all-Conserves, fail-answered, fail_remaining-answered,
}
use package.adi.Generation.Batch.Steps.{
  EngineLaws, IsInStep, admit_pending-IsInStep, happen-IsInStep,
}

-- How often the address of a request is submitted.
abbrev pub submissions : ℕ → List Event → ℕ
submissions address [] = 0
submissions address (submitted request ∷ events) =
    hits (request.address) address + submissions address events
submissions address (round polls cancelled ∷ events) = submissions address events

abbrev no_polls : Polls
no_polls = record { at_start = false; encoding = λ poll. false; prefilling = λ poll. false }

module _ (engine : Engine) where
  -- How often a request is answered, in progress or waiting.
  abbrev pub known : ℕ → Batcher engine → ℕ
  known address batcher =
      answered address (batcher.log.answers)
      + serving engine address (batcher.batch.active)
      + waiting address (batcher.pending)

  abbrev pub Keeps : Batcher engine → Batcher engine → Type 0
  Keeps before after = (address : ℕ) → known address after ≡ known address before

  abbrev pub AllOnce : Batcher engine → Type 0
  AllOnce batcher = (address : ℕ) → known address batcher ≤ 1

  serving-append :
      (address : ℕ) (xs ys : List (Active engine))
      → serving engine address (xs ++ ys) ≡ serving engine address xs + serving engine address ys
  serving-append address [] ys = omega arith
  serving-append address (x ∷ xs) ys = omega (arith, serving-append address xs ys)

  prepare-request :
      (prefill_ubatch : ℕ) (polls : Polls) (request : Request)
      → Ensures
          (λ prepared. prepared.0.request ≡ request)
          (prepare engine prefill_ubatch polls request)
  unfolding prepare
  prepare-request prefill_ubatch polls request =
      Ensures-after (throw_if_cancelled (polls.at_start)) (λ _.
        Ensures-after (engine.encode (polls.encoding) (request.prompt)) (λ tokens.
          Ensures-after (nonempty engine tokens) (λ _.
            Ensures-after (limited engine request tokens) (λ limit.
              Ensures-after
                (prefill_prompt engine (polls.prefilling) prefill_ubatch tokens
                  (engine.initial_state) (engine.initial_logits))
                (λ (state, logits). holds refl)))))

  admit-serving :
      (prefill_ubatch : ℕ) (polls : Polls) (request : Request) (batch : Batch engine)
      → Ensures
          (λ (after : Batch engine).
            (address : ℕ)
            → serving engine address (after.active)
              ≡ serving engine address (batch.active) + hits (request.address) address)
          (admit engine prefill_ubatch polls request batch)
  unfolding admit
  admit-serving prefill_ubatch polls request batch =
      Ensures-bind (prepare-request prefill_ubatch polls request) (λ (admitted, state, logits) same.
        holds (λ address.
          let more = serving-append address (batch.active) (admitted ∷ []) in
          let own = ap (λ (r : Request). hits (r.address) address) same in omega arith))

  admit_pending-Keeps :
      (prefill_ubatch : ℕ) (polls : Polls) (batcher : Batcher engine)
      → AllOnce batcher
      → Keeps batcher (admit_pending engine prefill_ubatch polls batcher)
  unfolding admit_pending
  admit_pending-Keeps prefill_ubatch polls batcher h =
      list-either (Keeps batcher) (batcher.pending) (λ _ address. refl)
        (λ request pending e.
          let w : (a : ℕ)
              → waiting a (batcher.pending) ≡ hits (request.address) a + waiting a pending =
            λ a. ap (waiting a) e in
          result-either (Keeps batcher) (admit engine prefill_ubatch polls request (batcher.batch))
            (λ problem _ address.
              let own = h (request.address) in
              let once : answered (request.address) (batcher.log.answers) ≡ 0 =
                let wo = w (request.address) in ground arith in
              let f = fail-answered problem request (batcher.log) address once in
              let wa = w address in omega arith)
            (λ batch f address.
              let s =
                Ensures-ok (admit-serving prefill_ubatch polls request (batcher.batch)) f address in
              let wa = w address in omega arith))

  decode_round-Keeps :
      (pending : List Request) (next : Round engine)
      → AtMostOnce engine (next.next_log.answers) (next.next_active)
      → (address : ℕ)
      → known address (decode_round engine pending next)
        ≡ answered address (next.next_log.answers)
          + serving engine address (next.next_active)
          + waiting address pending
  unfolding decode_round
  decode_round-Keeps pending next h address =
      list-either
        (λ (after : Batcher engine).
          known address after
          ≡ answered address (next.next_log.answers)
            + serving engine address (next.next_active)
            + waiting address pending)
        (next.next_active) (λ e. let none = ap (serving engine address) e in omega arith)
        (λ item active e.
          let some = ap (serving engine address) e in
          result-either
            (λ (after : Batcher engine).
              known address after
              ≡ answered address (next.next_log.answers)
                + serving engine address (next.next_active)
                + waiting address pending)
            (engine.decode_batch (next.next_tokens) (next.next_states) (next.next_scratches))
            (λ problem _.
              let h' : AtMostOnce engine (next.next_log.answers) (item ∷ active) =
                subst (λ items. AtMostOnce engine (next.next_log.answers) items) e h in
              let f =
                fail_all-Conserves engine problem (next.next_log) (item ∷ active) h' address in
              omega arith)
            (λ decoded _. omega arith))

  terminate-answered :
      (problem : Problem) (batcher : Batcher engine)
      → AllOnce batcher
      → (address : ℕ)
      → answered address ((terminate engine problem batcher).answers) ≡ known address batcher
  unfolding terminate
  terminate-answered problem batcher h address =
      let at_most_once : AtMostOnce engine (batcher.log.answers) (batcher.batch.active) =
        λ a. (let b = h a in omega arith) in
      let failed =
        fail_all-Conserves engine problem (batcher.log) (batcher.batch.active) at_most_once in
      let later =
        fail_remaining-answered problem
          (fail_all engine problem (batcher.batch.active) (batcher.log)) (batcher.pending)
          (λ a. (let f = failed a in let b = h a in omega arith)) address in
      let f = failed address in omega arith

  pub submit-known :
      (request : Request) (batcher : Batcher engine) (address : ℕ)
      → known address (submit engine request batcher)
        ≡ known address batcher + hits (request.address) address
  unfolding submit
  submit-known request batcher address =
      let w = waiting-append address (batcher.pending) (request ∷ []) in omega arith

  submit_all-known :
      (events : List Event) (batcher : Batcher engine) (address : ℕ)
      → known address (submit_all engine events batcher)
        ≡ known address batcher + submissions address events
  unfolding submit_all
  submit_all-known [] batcher address = omega arith
  submit_all-known (submitted request ∷ events) batcher address = omega (
    arith,
    submit-known request batcher address,
    submit_all-known events (submit engine request batcher) address,
  )
  submit_all-known (round polls cancelled ∷ events) batcher address =
      submit_all-known events batcher address

module _ (engine : Engine) (laws : EngineLaws engine) where
  pub worker_round-Keeps :
      (prefill_ubatch im_end : ℕ) (polls : Polls) (cancelled : ℕ → Bool) (batcher : Batcher engine)
      → IsInStep engine laws (batcher.batch)
      → AllOnce engine batcher
      → Keeps engine batcher (worker_round engine prefill_ubatch im_end polls cancelled batcher)
  unfolding worker_round
  worker_round-Keeps prefill_ubatch im_end polls cancelled batcher in_step h address =
      let admitted = admit_pending engine prefill_ubatch polls batcher in
      let kept : Keeps engine batcher admitted =
        admit_pending-Keeps engine prefill_ubatch polls batcher h in
      let (s, c, l) = admit_pending-IsInStep engine laws prefill_ubatch polls batcher in_step in
      let at_most_once : AtMostOnce engine (admitted.log.answers) (admitted.batch.active) =
        λ a. (let k = kept a in let b = h a in omega arith) in
      let next =
        sample_items engine im_end cancelled (admitted.log) (admitted.batch.active)
          (admitted.batch.states) (admitted.batch.scratches) (admitted.batch.logits) in
      let conserved : Conserves engine (admitted.log.answers) (admitted.batch.active)
          (next.next_log) (next.next_active) =
        sample_items-Conserves engine im_end cancelled (admitted.log) (admitted.batch.active)
          (admitted.batch.states) (admitted.batch.scratches) (admitted.batch.logits) s c
          at_most_once in
      let next_once : AtMostOnce engine (next.next_log.answers) (next.next_active) =
        λ a. (let k = conserved a in let b = at_most_once a in omega arith) in
      let d = decode_round-Keeps engine (admitted.pending) next next_once address in
      let k = kept address in let k' = conserved address in omega arith

  -- The events that are to come submit no request that is known already, and none twice.
  abbrev AllNew : List Event → Batcher engine → Type 0
  AllNew events batcher =
      (address : ℕ) → known engine address batcher + submissions address events ≤ 1

  happen_all-known :
      (prefill_ubatch im_end : ℕ) (events : List Event) (batcher : Batcher engine)
      → IsInStep engine laws (batcher.batch)
      → AllNew events batcher
      → (address : ℕ)
      → known engine address (happen_all engine prefill_ubatch im_end events batcher)
        ≡ known engine address batcher + submissions address events
  unfolding happen_all happen
  happen_all-known prefill_ubatch im_end [] batcher in_step h address = omega arith
  happen_all-known prefill_ubatch im_end (submitted request ∷ events) batcher in_step h address =
      let after = submit engine request batcher in
      let known_after : (a : ℕ)
          → known engine a after ≡ known engine a batcher + hits (request.address) a =
        submit-known engine request batcher in
      let (in_step', _) =
        happen-IsInStep engine laws prefill_ubatch im_end (submitted request) no_polls batcher
          in_step in
      let rest =
        happen_all-known prefill_ubatch im_end events after in_step'
          (λ a. (let k = known_after a in let b = h a in omega arith)) address in
      let k = known_after address in omega arith
  happen_all-known prefill_ubatch im_end (round polls cancelled ∷ events) batcher in_step h
        address =
      let after = worker_round engine prefill_ubatch im_end polls cancelled batcher in
      let kept : Keeps engine batcher after =
        worker_round-Keeps prefill_ubatch im_end polls cancelled batcher in_step
          (λ a. (let b = h a in omega arith)) in
      let (in_step', _) =
        happen-IsInStep engine laws prefill_ubatch im_end (round polls cancelled) polls batcher
          in_step in
      let rest =
        happen_all-known prefill_ubatch im_end events after in_step'
          (λ a. (let k = kept a in let b = h a in omega arith)) address in
      let k = kept address in omega arith

  idle-known : (address : ℕ) → known engine address (idle engine) ≡ 0
  idle-known address = omega arith

  -- If no address is submitted twice, then from the start of the worker to its end, whatever is
  -- cancelled, fails or is interrupted, the promise of each submitted request is set once, and no
  -- other promise is set.
  pub run-answered :
      (prefill_ubatch : ℕ) (events : List Event)
      → ((address : ℕ) → submissions address events ≤ 1)
      → (address : ℕ)
      → answered address ((run engine prefill_ubatch events).answers) ≡ submissions address events
  unfolding run
  run-answered prefill_ubatch events h address =
      result-either (λ (log : Log). answered address (log.answers) ≡ submissions address events)
        (engine.encode (λ poll. false) (codes "<|im_end|>") >>= λ im_end_tokens.
          single engine im_end_tokens)
        (λ problem _.
          let all = submit_all-known engine events (idle engine) in
          let t =
            terminate-answered engine problem (submit_all engine events (idle engine))
              (λ a. (let k = all a in let z = idle-known a in let b = h a in omega arith))
              address in
          let k = all address in let z = idle-known address in omega arith)
        (λ im_end _.
          let new : AllNew events (idle engine) =
            λ a. (let z = idle-known a in let b = h a in omega arith) in
          let all =
            happen_all-known prefill_ubatch im_end events (idle engine) (refl, refl, (omega arith))
              new in
          let t =
            terminate-answered engine batcher_stopped
              (happen_all engine prefill_ubatch im_end events (idle engine))
              (λ a. (let k = all a in let b = new a in omega arith)) address in
          let k = all address in let z = idle-known address in omega arith)
