-- ===== src/Generation/Batch/Progress.antt =====
-- src/generation.cpp: what a run of the worker keeps to, and that requests come to an end.
use adi.Base.{
  ℕ, ◌+◌, ◌^◌, ◌≤◌, ◌<◌, ◌≡◌, refl, ap, subst, Bool, List, [], ◌∷◌, Option, none, some, ◌==◌,
  if◌then◌else◌, list-either, length, take, drop, arith, All,
}
use adi.Base.Result.{Ensures, holds, rejected, Ensures-bind, Ensures-after, result-either}
use adi.Generation.{resolved_output_limit}
use adi.Generation.Limit.{resolved_output_limit_iff, IsLimit}
use adi.Generation.Engine.{Engine, Problem, Request}
use adi.Generation.Prefill.{throw_if_cancelled, prefill_prompt}
use package.adi.Generation.Batch.{
  Log, Active, Batcher, Round, Polls, fail, sample_item, sample_items, going_on, fail_all,
  fail_remaining, prepare, limited, nonempty, decode_round,
}
use package.adi.Generation.Batch.Count.{hits, serving}
use package.adi.Generation.Batch.Limits.{
  AreWithin, fail-AreWithin, IsRunning, left, GoesOn, sample_item-Follows,
}

pub fail_remaining-AreWithin :
    (context : ℕ) (problem : Problem) (log : Log) (pending : List Request)
    → AreWithin context log
    → AreWithin context (fail_remaining problem pending log)
unfolding fail_remaining
fail_remaining-AreWithin context problem log [] h = h
fail_remaining-AreWithin context problem log (request ∷ pending) h =
    fail_remaining-AreWithin context problem (fail problem request log) pending
      (fail-AreWithin context problem request log h)

module _ (engine : Engine) where
  -- What the requests of an address may still generate.
  abbrev pub owed : ℕ → Active engine → ℕ
  owed address item = if item.request.address == address then left engine item else 0

  abbrev pub budget : ℕ → List (Active engine) → ℕ
  budget address [] = 0
  budget address (item ∷ active) = owed address item + budget address active

  -- Each request that goes on may generate fewer tokens than before.
  abbrev pub Progresses : List (Active engine) → List (Active engine) → Type 0
  Progresses before after =
      (address : ℕ) → budget address after + serving engine address after ≤ budget address before

  abbrev pub IsLeft : List (Active engine) → Round engine → Type 0
  IsLeft active next =
      AreWithin (engine.context) (next.next_log)
      × All (IsRunning engine) (next.next_active)
      × Progresses active (next.next_active)

  going_on-budget :
      (address : ℕ) (item longer : Active engine) (after before others : ℕ)
      → (longer.request.address == address) ≡ (item.request.address == address)
      → left engine longer + 1 ≤ left engine item
      → after + others ≤ before
      → (owed address longer + after) + (hits (longer.request.address) address + others)
        ≤ owed address item + before
  going_on-budget address item longer after before others own less b = ground arith

  going_on-IsLeft :
      (item : Active engine) (active : List (Active engine)) (next : Option (Active engine × ℕ))
      (state : engine.State) (scratch : engine.Scratch) (rest : Round engine)
      → GoesOn engine item next
      → IsLeft active rest
      → IsLeft (item ∷ active) (going_on engine next state scratch rest)
  going_on-IsLeft item active none state scratch rest g (w, r, p) =
      (w, r, (λ address. (let b = p address in omega arith)))
  going_on-IsLeft item active (some (longer, token)) state scratch rest (running, same, less)
        (w, r, p) =
      (
        w,
        (running, r),
        (λ address.
            let b = p address in
            let own : (longer.request.address == address) ≡ (item.request.address == address) =
              ap (λ (q : Request). q.address == address) same in
            going_on-budget address item longer _ _ _ own less b),
      )

  pub sample_items-IsLeft :
      (im_end : ℕ) (cancelled : ℕ → Bool) (log : Log) (active : List (Active engine))
      (states : List (engine.State)) (scratches : List (engine.Scratch)) (logits : List ℕ)
      → AreWithin (engine.context) log
      → All (IsRunning engine) active
      → IsLeft active (sample_items engine im_end cancelled log active states scratches logits)
  unfolding sample_items
  sample_items-IsLeft im_end cancelled log [] states scratches logits h r =
      (h, tt, λ address. (omega arith))
  sample_items-IsLeft im_end cancelled log (item ∷ active) [] scratches logits h r =
      (h, tt, λ address. (omega arith))
  sample_items-IsLeft im_end cancelled log (item ∷ active) (state ∷ states) [] logits h r =
      (h, tt, λ address. (omega arith))
  sample_items-IsLeft im_end cancelled log (item ∷ active) (state ∷ states) (scratch ∷ scratches)
        logits h (r, rs) =
      let (seen, next) =
        sample_item engine im_end (cancelled (item.request.address))
          (take (engine.vocabulary) logits) item log in
      let (w, g) =
        sample_item-Follows engine im_end (cancelled (item.request.address))
          (take (engine.vocabulary) logits) item log r h in
      going_on-IsLeft item active next state scratch
        (sample_items engine im_end cancelled seen active states scratches
          (drop (engine.vocabulary) logits))
        g
        (sample_items-IsLeft im_end cancelled seen active states scratches
          (drop (engine.vocabulary) logits) w rs)

  pub fail_all-AreWithin :
      (problem : Problem) (log : Log) (active : List (Active engine))
      → AreWithin (engine.context) log
      → AreWithin (engine.context) (fail_all engine problem active log)
  unfolding fail_all
  fail_all-AreWithin problem log [] h = h
  fail_all-AreWithin problem log (item ∷ active) h =
      fail_all-AreWithin problem (fail problem (item.request) log) active
        (fail-AreWithin (engine.context) problem (item.request) log h)

  -- The answers keep within the context, and all that are in progress may still generate a token.
  abbrev pub IsSound : Batcher engine → Type 0
  IsSound batcher =
      AreWithin (engine.context) (batcher.log) × All (IsRunning engine) (batcher.batch.active)

  pub decode_round-IsSound :
      (active : List (Active engine)) (pending : List Request) (next : Round engine)
      → IsLeft active next
      → (let after = decode_round engine pending next in
          IsSound after × Progresses active (after.batch.active) × (after.pending ≡ pending))
  unfolding decode_round
  decode_round-IsSound active pending next (w, r, p) =
      list-either
        (λ (after : Batcher engine).
          IsSound after × Progresses active (after.batch.active) × (after.pending ≡ pending))
        (next.next_active) (λ e. ((w, tt), (λ address. (omega arith)), refl))
        (λ item items e.
          let r' : All (IsRunning engine) (item ∷ items) = subst (All (IsRunning engine)) e r in
          let p' : Progresses active (item ∷ items) = subst (Progresses active) e p in
          result-either
            (λ (after : Batcher engine).
              IsSound after × Progresses active (after.batch.active) × (after.pending ≡ pending))
            (engine.decode_batch (next.next_tokens) (next.next_states) (next.next_scratches))
            (λ problem _. (
              (fail_all-AreWithin problem (next.next_log) (item ∷ items) w, tt),
              (λ address. (omega arith)),
              refl,
            ))
            (λ decoded _. ((w, r'), p', refl)))

  of_limit :
      (requested : Option ℕ) (limit prompt : ℕ)
      → IsLimit (engine.context) prompt requested limit
      → (1 ≤ limit) × (prompt + limit ≤ engine.context)
  of_limit none limit prompt h = ((omega arith), (omega arith))
  of_limit (some requested) limit prompt h = ((omega arith), (omega arith))

  limited-IsRunning :
      (request : Request) (tokens : List ℕ)
      → engine.context < 2 ^ 32
      → Ensures
          (λ limit. (1 ≤ limit) × (length tokens + limit ≤ engine.context))
          (limited engine request tokens)
  limited-IsRunning request tokens small =
      result-either (Ensures (λ limit. (1 ≤ limit) × (length tokens + limit ≤ engine.context)))
        (resolved_output_limit (engine.context) (length tokens) (request.options.max_output_tokens))
        (λ problem _. rejected)
        (λ limit e. holds (
          of_limit (request.options.max_output_tokens) limit (length tokens) (
            (resolved_output_limit_iff (engine.context) (length tokens)
                (request.options.max_output_tokens) limit small).0
              e)))

  pub prepare-IsRunning :
      (prefill_ubatch : ℕ) (polls : Polls) (request : Request)
      → engine.context < 2 ^ 32
      → Ensures
          (λ prepared. IsRunning engine (prepared.0) × (prepared.0.request ≡ request))
          (prepare engine prefill_ubatch polls request)
  unfolding prepare
  prepare-IsRunning prefill_ubatch polls request small =
      Ensures-after (throw_if_cancelled (polls.at_start)) (λ _.
        Ensures-after (engine.encode (polls.encoding) (request.prompt)) (λ tokens.
          Ensures-after (nonempty engine tokens) (λ _.
            Ensures-bind (limited-IsRunning request tokens small) (λ limit (positive, fits).
              Ensures-after
                (prefill_prompt engine (polls.prefilling) prefill_ubatch tokens
                  (engine.initial_state) (engine.initial_logits))
                (λ (state, logits). holds (((omega arith), fits), refl))))))
