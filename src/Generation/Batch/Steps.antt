-- ===== src/Generation/Batch/Steps.antt =====
-- src/generation.cpp: the arrays of the requests in progress stay in step.
use adi.Base.{
  ℕ, suc, ◌+◌, ◌*◌, ◌≡◌, refl, ap, sym, ◌∙◌, Bool, true, false, List, [], ◌∷◌, ◌++◌, Option, none,
  some, list-either, length, take, drop, arith, length-append, length-take, length-drop,
}
use adi.Base.Result.{
  Ensures, holds, Ensures-ok, Ensures-map, Ensures-bind, Ensures-after, result-either,
}
use adi.Generation.Engine.{Engine, Request}
use adi.Generation.Prefill.{throw_if_cancelled, prefill_chunks, prefill_prompt, prompt_chunks}
use package.adi.Generation.Batch.{
  Log, Active, Batch, Batcher, Round, Polls, Event, submitted, round, sample_item, sample_items,
  going_on, mask_rows, prepare, admit, admit_pending, decode_round, worker_round, happen, submit,
  nonempty, limited,
}

-- What is written in place keeps its length.
pub record EngineLaws (engine : Engine) : Type 0 where
  pub length-initial_logits : length (engine.initial_logits) ≡ engine.vocabulary
  pub length-mask : (logits : List ℕ) → length (engine.mask_unused_logits logits) ≡ length logits
  pub length-prefill :
      (tokens : List ℕ) (state : engine.State) (logits : List ℕ)
      → Ensures (λ written. length (written.1) ≡ length logits) (engine.prefill tokens state logits)
  pub length-decode_batch :
      (tokens : List ℕ) (states : List (engine.State)) (scratches : List (engine.Scratch))
      → Ensures
          (λ decoded.
            (length (decoded.0) ≡ length states)
            × (length (decoded.1) ≡ length scratches)
            × (length (decoded.2) ≡ length tokens * engine.vocabulary))
          (engine.decode_batch tokens states scratches)

one-more : (n v m : ℕ) {k : ℕ} → m ≡ n + 1 → k ≡ n * v + v → k ≡ m * v
one-more n v m e f = f ∙ sym (ap (λ x. x * v) e ∙ (omega arith))

module _ (engine : Engine) (laws : EngineLaws engine) where
  -- A state, a scratch memory and a row of logits for each request in progress.
  abbrev pub IsInStep : Batch engine → Type 0
  IsInStep batch =
      (length (batch.states) ≡ length (batch.active))
      × (length (batch.scratches) ≡ length (batch.active))
      × (length (batch.logits) ≡ length (batch.active) * engine.vocabulary)

  prefill_chunks-length :
      (cancelled : ℕ → Bool) (poll : ℕ) (chunks : List (List ℕ × Bool)) (state : engine.State)
      (logits : List ℕ)
      → Ensures
          (λ written. length (written.1) ≡ length logits)
          (prefill_chunks engine cancelled poll chunks state logits)
  unfolding prefill_chunks
  prefill_chunks-length cancelled poll [] state logits =
      Ensures-after (throw_if_cancelled (cancelled poll)) (λ _. holds refl)
  prefill_chunks-length cancelled poll ((chunk, true) ∷ chunks) state logits =
      Ensures-after (throw_if_cancelled (cancelled poll)) (λ _.
        Ensures-bind (laws.length-prefill chunk state logits) (λ (advanced, written) same.
          Ensures-map (prefill_chunks-length cancelled (suc poll) chunks advanced written)
            (λ r e. e ∙ same)))
  prefill_chunks-length cancelled poll ((chunk, false) ∷ chunks) state logits =
      Ensures-after (throw_if_cancelled (cancelled poll)) (λ _.
        Ensures-after (engine.prefill chunk state []) (λ (advanced, written).
          prefill_chunks-length cancelled (suc poll) chunks advanced logits))

  prepare-length :
      (prefill_ubatch : ℕ) (polls : Polls) (request : Request)
      → Ensures
          (λ prepared. length (prepared.2) ≡ engine.vocabulary)
          (prepare engine prefill_ubatch polls request)
  unfolding prepare prefill_prompt
  prepare-length prefill_ubatch polls request =
      Ensures-after (throw_if_cancelled (polls.at_start)) (λ _.
        Ensures-after (engine.encode (polls.encoding) (request.prompt)) (λ tokens.
          Ensures-after (nonempty engine tokens) (λ _.
            Ensures-after (limited engine request tokens) (λ limit.
              Ensures-bind
                (prefill_chunks-length (polls.prefilling) 0 (prompt_chunks prefill_ubatch tokens)
                  (engine.initial_state) (engine.initial_logits))
                (λ (state, logits) same.
                  holds (laws.length-mask logits ∙ same ∙ laws.length-initial_logits))))))

  admit-IsInStep :
      (prefill_ubatch : ℕ) (polls : Polls) (request : Request) (batch : Batch engine)
      → IsInStep batch
      → Ensures IsInStep (admit engine prefill_ubatch polls request batch)
  unfolding admit
  admit-IsInStep prefill_ubatch polls request batch (s, c, l) =
      Ensures-bind (prepare-length prefill_ubatch polls request) (λ (admitted, state, logits) row.
        let a = length-append (batch.active) (admitted ∷ []) in
        let s' = length-append (batch.states) (state ∷ []) in
        let c' = length-append (batch.scratches) (engine.initial_scratch ∷ []) in
        let l' = length-append (batch.logits) logits in
        holds (
          omega arith,
          omega arith,
          one-more (length (batch.active)) (engine.vocabulary)
              (length (batch.active ++ admitted ∷ [])) a (omega arith),
        ))

  pub admit_pending-IsInStep :
      (prefill_ubatch : ℕ) (polls : Polls) (batcher : Batcher engine)
      → IsInStep (batcher.batch)
      → IsInStep ((admit_pending engine prefill_ubatch polls batcher).batch)
  unfolding admit_pending
  admit_pending-IsInStep prefill_ubatch polls batcher h =
      list-either (λ (after : Batcher engine). IsInStep (after.batch)) (batcher.pending) (λ _. h)
        (λ request pending _.
          result-either (λ (after : Batcher engine). IsInStep (after.batch))
            (admit engine prefill_ubatch polls request (batcher.batch)) (λ problem _. h)
            (λ batch e.
              Ensures-ok (admit-IsInStep prefill_ubatch polls request (batcher.batch) h) e))

  -- The arrays that a round leaves.
  abbrev IsLeftInStep : Round engine → Type 0
  IsLeftInStep next =
      (length (next.next_states) ≡ length (next.next_active))
      × (length (next.next_scratches) ≡ length (next.next_active))
      × (length (next.next_tokens) ≡ length (next.next_active))

  going_on-IsLeftInStep :
      (next : Option (Active engine × ℕ)) (state : engine.State) (scratch : engine.Scratch)
      (rest : Round engine)
      → IsLeftInStep rest
      → IsLeftInStep (going_on engine next state scratch rest)
  going_on-IsLeftInStep none state scratch rest h = h
  going_on-IsLeftInStep (some (item, token)) state scratch rest (s, c, t) =
      (ap suc s, ap suc c, ap suc t)

  sample_items-IsLeftInStep :
      (im_end : ℕ) (cancelled : ℕ → Bool) (log : Log) (active : List (Active engine))
      (states : List (engine.State)) (scratches : List (engine.Scratch)) (logits : List ℕ)
      → IsLeftInStep (sample_items engine im_end cancelled log active states scratches logits)
  unfolding sample_items
  sample_items-IsLeftInStep im_end cancelled log [] states scratches logits = (refl, refl, refl)
  sample_items-IsLeftInStep im_end cancelled log (item ∷ active) [] scratches logits =
      (refl, refl, refl)
  sample_items-IsLeftInStep im_end cancelled log (item ∷ active) (state ∷ states) [] logits =
      (refl, refl, refl)
  sample_items-IsLeftInStep im_end cancelled log (item ∷ active) (state ∷ states)
        (scratch ∷ scratches) logits =
      let (seen, next) =
        sample_item engine im_end (cancelled (item.request.address))
          (take (engine.vocabulary) logits) item log in
      going_on-IsLeftInStep next state scratch
        (sample_items engine im_end cancelled seen active states scratches
          (drop (engine.vocabulary) logits))
        (sample_items-IsLeftInStep im_end cancelled seen active states scratches
          (drop (engine.vocabulary) logits))

  length-mask_rows :
      (active : List (Active engine)) (logits : List ℕ)
      → length logits ≡ length active * engine.vocabulary
      → length (mask_rows engine active logits) ≡ length active * engine.vocabulary
  unfolding mask_rows
  length-mask_rows [] logits h = omega arith
  length-mask_rows (item ∷ active) logits h =
      let row = take (engine.vocabulary) logits in
      let rest = drop (engine.vocabulary) logits in
      let t = length-take (engine.vocabulary) logits in
      let d = length-drop (engine.vocabulary) logits in
      let masked = laws.length-mask row in
      let later = length-mask_rows active rest (omega arith) in
      let both = length-append (engine.mask_unused_logits row) (mask_rows engine active rest) in
      omega arith

  decode_round-IsInStep :
      (pending : List Request) (next : Round engine)
      → IsLeftInStep next
      → IsInStep ((decode_round engine pending next).batch)
  unfolding decode_round
  decode_round-IsInStep pending next (s, c, t) =
      list-either (λ (after : Batcher engine). IsInStep (after.batch)) (next.next_active)
        (λ _. (refl, refl, (omega arith)))
        (λ item active e.
          result-either (λ (after : Batcher engine). IsInStep (after.batch))
            (engine.decode_batch (next.next_tokens) (next.next_states) (next.next_scratches))
            (λ problem _. (refl, refl, (omega arith)))
            (λ (states, scratches, logits) f.
              let (s', c', l') =
                Ensures-ok
                  (laws.length-decode_batch (next.next_tokens) (next.next_states)
                    (next.next_scratches))
                  f in
              let n : length (next.next_active) ≡ length (item ∷ active) = ap length e in
              let rows : length (next.next_tokens) * engine.vocabulary
                  ≡ length (item ∷ active) * engine.vocabulary =
                ap (λ k. k * engine.vocabulary) (t ∙ n) in
              (s' ∙ s ∙ n, c' ∙ c ∙ n, length-mask_rows (item ∷ active) logits (l' ∙ rows))))

  worker_round-IsInStep :
      (prefill_ubatch im_end : ℕ) (polls : Polls) (cancelled : ℕ → Bool) (batcher : Batcher engine)
      → IsInStep ((worker_round engine prefill_ubatch im_end polls cancelled batcher).batch)
  unfolding worker_round
  worker_round-IsInStep prefill_ubatch im_end polls cancelled batcher =
      let admitted = admit_pending engine prefill_ubatch polls batcher in
      decode_round-IsInStep (admitted.pending)
        (sample_items engine im_end cancelled (admitted.log) (admitted.batch.active)
          (admitted.batch.states) (admitted.batch.scratches) (admitted.batch.logits))
        (sample_items-IsLeftInStep im_end cancelled (admitted.log) (admitted.batch.active)
          (admitted.batch.states) (admitted.batch.scratches) (admitted.batch.logits))

  -- Whatever happens to the worker, there is a state, a scratch memory and a row of logits for each
  -- request in progress, also once a further request is admitted.
  pub happen-IsInStep :
      (prefill_ubatch im_end : ℕ) (event : Event) (polls : Polls) (batcher : Batcher engine)
      → IsInStep (batcher.batch)
      → (let after = happen engine prefill_ubatch im_end event batcher in
          IsInStep (after.batch)
          × IsInStep ((admit_pending engine prefill_ubatch polls after).batch))
  unfolding happen submit
  happen-IsInStep prefill_ubatch im_end (submitted request) polls batcher h =
      (h, admit_pending-IsInStep prefill_ubatch polls (submit engine request batcher) h)
  happen-IsInStep prefill_ubatch im_end (round now cancelled) polls batcher h =
      let after = worker_round-IsInStep prefill_ubatch im_end now cancelled batcher in
      (
        after,
        admit_pending-IsInStep prefill_ubatch polls
            (worker_round engine prefill_ubatch im_end now cancelled batcher) after,
      )
