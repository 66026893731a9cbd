-- ===== src/Generation/Batch/Ends.antt =====
-- src/generation.cpp: the requests in progress are answered after as many rounds as they may generate
-- tokens, and every result keeps within the context.
use adi.Base.{
  ℕ, ◌+◌, ◌^◌, ◌≤◌, ◌<◌, ◌≡◌, refl, ap, ◌∙◌, Bool, false, List, [], ◌∷◌, ◌++◌, ◌==◌, list-either,
  arith, Bool-cases, inl, inr, All, All-append,
}
use adi.Base.Result.{◌>>=◌, Ensures, holds, Ensures-ok, Ensures-bind, result-either}
use adi.Base.Text.{codes}
use adi.Generation.Engine.{Engine, Problem, Request, batcher_stopped}
use package.adi.Generation.Batch.{
  Active, Batch, Batcher, Polls, Event, submitted, round, sample_items, fail_all, admit,
  admit_pending, worker_round, happen, happen_all, submit, submit_all, terminate, single, run, idle,
}
use package.adi.Generation.Batch.Count.{hits, answered, waiting, waiting-append, serving}
use package.adi.Generation.Batch.Steps.{EngineLaws, IsInStep, happen-IsInStep}
use package.adi.Generation.Batch.Once.{submissions, known, Keeps, worker_round-Keeps, submit-known}
use package.adi.Generation.Batch.Limits.{AreWithin, fail-AreWithin, IsRunning}
use package.adi.Generation.Batch.Progress.{
  budget, IsSound, sample_items-IsLeft, decode_round-IsSound, prepare-IsRunning, fail_all-AreWithin,
  fail_remaining-AreWithin,
}

module _ (engine : Engine) where
  -- A request that may still generate a token, for one that is in progress.
  serving-budget :
      (address : ℕ) (active : List (Active engine))
      → All (IsRunning engine) active
      → serving engine address active ≤ budget engine address active
  serving-budget address [] r = omega arith
  serving-budget address (item ∷ active) ((more, fits), r) =
      let rest = serving-budget address active r in ground arith

  budget-append :
      (address : ℕ) (xs ys : List (Active engine))
      → budget engine address (xs ++ ys) ≡ budget engine address xs + budget engine address ys
  budget-append address [] ys = omega arith
  budget-append address (x ∷ xs) ys = omega (arith, budget-append address xs ys)

  -- A request is admitted in its own place only.
  abbrev Admits : Request → Batch engine → Batch engine → Type 0
  Admits request before after =
      All (IsRunning engine) (after.active)
      × ((address : ℕ)
          → hits (request.address) address ≡ 0
          → budget engine address (after.active) ≡ budget engine address (before.active))

  admit-Admits :
      (prefill_ubatch : ℕ) (polls : Polls) (request : Request) (batch : Batch engine)
      → engine.context < 2 ^ 32
      → All (IsRunning engine) (batch.active)
      → Ensures (Admits request batch) (admit engine prefill_ubatch polls request batch)
  unfolding admit
  admit-Admits prefill_ubatch polls request batch small r =
      Ensures-bind (prepare-IsRunning engine prefill_ubatch polls request small)
        (λ (admitted, state, logits) (running, same). holds (
          All-append (IsRunning engine) (batch.active) (admitted ∷ []) r (running, tt),
          (λ address other.
              let more = budget-append address (batch.active) (admitted ∷ []) in
              let own : (admitted.request.address == address) ≡ (request.address == address) =
                ap (λ (q : Request). q.address == address) same in
              ground arith),
        ))

  -- What becomes of the batcher when a round begins.
  abbrev Begins : Batcher engine → Batcher engine → Type 0
  Begins before after =
      IsSound engine after
      × ((address : ℕ)
          → waiting address (before.pending) ≡ 0
          → (budget engine address (after.batch.active)
              ≡ budget engine address (before.batch.active))
            × (waiting address (after.pending) ≡ 0))

  admit_pending-Begins :
      (prefill_ubatch : ℕ) (polls : Polls) (batcher : Batcher engine)
      → engine.context < 2 ^ 32
      → IsSound engine batcher
      → Begins batcher (admit_pending engine prefill_ubatch polls batcher)
  unfolding admit_pending
  admit_pending-Begins prefill_ubatch polls batcher small (w, r) =
      list-either (Begins batcher) (batcher.pending) (λ _. ((w, r), λ address z. (refl, z)))
        (λ request pending e.
          let waits : (a : ℕ)
              → waiting a (batcher.pending) ≡ hits (request.address) a + waiting a pending =
            λ a. ap (waiting a) e in
          result-either (Begins batcher) (admit engine prefill_ubatch polls request (batcher.batch))
            (λ problem _. (
              (fail-AreWithin (engine.context) problem request (batcher.log) w, r),
              λ address z. (refl, (let wa = waits address in omega arith)),
            ))
            (λ batch f.
              let (r', same) =
                Ensures-ok (admit-Admits prefill_ubatch polls request (batcher.batch) small r) f in
              (
                (w, r'),
                λ address z.
                    (let wa = waits address in (same address (omega arith), (omega arith))),
              )))

  -- A round: sound again, and each request that does not wait may generate fewer tokens.
  abbrev pub Advances : Batcher engine → Batcher engine → Type 0
  Advances before after =
      IsSound engine after
      × ((address : ℕ)
          → waiting address (before.pending) ≡ 0
          → (budget engine address (after.batch.active)
                + serving engine address (after.batch.active)
              ≤ budget engine address (before.batch.active))
            × (waiting address (after.pending) ≡ 0))

  worker_round-Advances :
      (prefill_ubatch im_end : ℕ) (polls : Polls) (cancelled : ℕ → Bool) (batcher : Batcher engine)
      → engine.context < 2 ^ 32
      → IsSound engine batcher
      → Advances batcher (worker_round engine prefill_ubatch im_end polls cancelled batcher)
  unfolding worker_round
  worker_round-Advances prefill_ubatch im_end polls cancelled batcher small h =
      let admitted = admit_pending engine prefill_ubatch polls batcher in
      let ((w, r), begins) = admit_pending-Begins prefill_ubatch polls batcher small h in
      let next =
        sample_items engine im_end cancelled (admitted.log) (admitted.batch.active)
          (admitted.batch.states) (admitted.batch.scratches) (admitted.batch.logits) in
      let is_left =
        sample_items-IsLeft engine im_end cancelled (admitted.log) (admitted.batch.active)
          (admitted.batch.states) (admitted.batch.scratches) (admitted.batch.logits) w r in
      let (sound, progress, pending) =
        decode_round-IsSound engine (admitted.batch.active) (admitted.pending) next is_left in
      (
        sound,
        λ address z.
            (let (same, still) = begins address z in
              let p = progress address in ((omega arith), ap (waiting address) pending ∙ still)),
      )

  happen_all-IsSound :
      (prefill_ubatch im_end : ℕ) (events : List Event) (batcher : Batcher engine)
      → engine.context < 2 ^ 32
      → IsSound engine batcher
      → IsSound engine (happen_all engine prefill_ubatch im_end events batcher)
  unfolding happen_all happen submit
  happen_all-IsSound prefill_ubatch im_end [] batcher small h = h
  happen_all-IsSound prefill_ubatch im_end (submitted request ∷ events) batcher small h =
      happen_all-IsSound prefill_ubatch im_end events (submit engine request batcher) small h
  happen_all-IsSound prefill_ubatch im_end (round polls cancelled ∷ events) batcher small h =
      happen_all-IsSound prefill_ubatch im_end events
        (worker_round engine prefill_ubatch im_end polls cancelled batcher) small
        ((worker_round-Advances prefill_ubatch im_end polls cancelled batcher small h).0)

  terminate-AreWithin :
      (problem : Problem) (batcher : Batcher engine)
      → IsSound engine batcher
      → AreWithin (engine.context) (terminate engine problem batcher)
  unfolding terminate
  terminate-AreWithin problem batcher (w, r) =
      fail_remaining-AreWithin (engine.context) problem
        (fail_all engine problem (batcher.batch.active) (batcher.log)) (batcher.pending)
        (fail_all-AreWithin engine problem (batcher.log) (batcher.batch.active) w)

  submit_all-IsSound :
      (events : List Event) (batcher : Batcher engine)
      → IsSound engine batcher
      → IsSound engine (submit_all engine events batcher)
  unfolding submit_all submit
  submit_all-IsSound [] batcher h = h
  submit_all-IsSound (submitted request ∷ events) batcher h =
      submit_all-IsSound events (submit engine request batcher) h
  submit_all-IsSound (round polls cancelled ∷ events) batcher h =
      submit_all-IsSound events batcher h

  -- For a 32-bit context size: in whatever order requests are submitted and rounds are done, the tokens
  -- of the prompt and of the output of each result fit in the model's context together.
  pub run-AreWithin :
      (prefill_ubatch : ℕ) (events : List Event)
      → engine.context < 2 ^ 32
      → AreWithin (engine.context) (run engine prefill_ubatch events)
  unfolding run
  run-AreWithin prefill_ubatch events small =
      result-either (AreWithin (engine.context))
        (engine.encode (λ poll. false) (codes "<|im_end|>") >>= λ im_end_tokens.
          single engine im_end_tokens)
        (λ problem _.
          terminate-AreWithin problem (submit_all engine events (idle engine))
            (submit_all-IsSound events (idle engine) (tt, tt)))
        (λ im_end _.
          terminate-AreWithin batcher_stopped
            (happen_all engine prefill_ubatch im_end events (idle engine))
            (happen_all-IsSound prefill_ubatch im_end events (idle engine) small (tt, tt)))

-- The rounds among the events.
abbrev pub rounds : List Event → ℕ
rounds [] = 0
rounds (submitted request ∷ events) = rounds events
rounds (round polls cancelled ∷ events) = 1 + rounds events

module _ (engine : Engine) (laws : EngineLaws engine) where
  served-at_end :
      (address : ℕ) (batcher : Batcher engine)
      → IsSound engine batcher
      → known engine address batcher ≡ 1
      → waiting address (batcher.pending) ≡ 0
      → budget engine address (batcher.batch.active) ≤ 0
      → answered address (batcher.log.answers) ≡ 1
  served-at_end address batcher (w, r) k z b =
      let s = serving-budget engine address (batcher.batch.active) r in omega arith

  serving-nothing :
      (address : ℕ) (active : List (Active engine))
      → serving engine address active ≡ 0
      → budget engine address active ≡ 0
  serving-nothing address [] h = refl
  serving-nothing address (item ∷ active) h =
      let none : serving engine address active ≡ 0 = omega arith in
      let rest = serving-nothing address active none in ground arith

  -- What is in progress has one less to generate; what is not has nothing.
  one-less :
      (address : ℕ) (batcher : Batcher engine) {before n : ℕ}
      → budget engine address (batcher.batch.active) + serving engine address (batcher.batch.active)
        ≤ before
      → before ≤ 1 + n
      → budget engine address (batcher.batch.active) ≤ n
  one-less address batcher f b =
      elim (Bool-cases (serving engine address (batcher.batch.active) == 0)) [
        | inl e ↦
            (let none = serving-nothing address (batcher.batch.active) (ground arith) in
              omega arith)
        | inr e ↦
            (let some : 1 ≤ serving engine address (batcher.batch.active) = ground arith in
              omega arith)
      ]

  -- A request that is known and does not wait any more is answered once as many rounds are done as it
  -- may still generate tokens, whatever else is submitted in between.
  pub happen_all-answered :
      (prefill_ubatch im_end : ℕ) (events : List Event) (batcher : Batcher engine) (address : ℕ)
      → engine.context < 2 ^ 32
      → IsInStep engine laws (batcher.batch)
      → IsSound engine batcher
      → ((a : ℕ) → known engine a batcher + submissions a events ≤ 1)
      → known engine address batcher ≡ 1
      → waiting address (batcher.pending) ≡ 0
      → budget engine address (batcher.batch.active) ≤ rounds events
      → answered address ((happen_all engine prefill_ubatch im_end events batcher).log.answers) ≡ 1
  unfolding happen_all happen submit
  happen_all-answered prefill_ubatch im_end [] batcher address small in_step sound new k z b =
      served-at_end address batcher sound k z b
  happen_all-answered prefill_ubatch im_end (submitted request ∷ events) batcher address small
        in_step sound new k z b =
      let after = submit engine request batcher in
      let known_after : (a : ℕ)
          → known engine a after ≡ known engine a batcher + hits (request.address) a =
        submit-known engine request batcher in
      let here = new address in
      let ka = known_after address in
      let w : waiting address (after.pending)
          ≡ waiting address (batcher.pending) + waiting address (request ∷ []) =
        waiting-append address (batcher.pending) (request ∷ []) in
      happen_all-answered prefill_ubatch im_end events after address small in_step sound
        (λ a. (let k' = known_after a in let n = new a in omega arith)) (omega arith) (omega arith)
        b
  happen_all-answered prefill_ubatch im_end (round polls cancelled ∷ events) batcher address small
        in_step sound new k z b =
      let after = worker_round engine prefill_ubatch im_end polls cancelled batcher in
      let kept : Keeps engine batcher after =
        worker_round-Keeps engine laws prefill_ubatch im_end polls cancelled batcher in_step
          (λ a. (let n = new a in omega arith)) in
      let (in_step', _) =
        happen-IsInStep engine laws prefill_ubatch im_end (round polls cancelled) polls batcher
          in_step in
      let (sound', advance) =
        worker_round-Advances engine prefill_ubatch im_end polls cancelled batcher small sound in
      let (fewer, z') = advance address z in
      happen_all-answered prefill_ubatch im_end events after address small in_step' sound'
        (λ a. (let k' = kept a in let n = new a in omega arith)) (kept address ∙ k) z'
        (one-less address after fewer b)
