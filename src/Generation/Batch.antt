-- ===== src/Generation/Batch.antt =====
-- src/generation.cpp: `ContinuousBatcher`, the worker that generates for several requests at once.
-- What other threads do to it (a submitted request, a cancelled one) are inputs of its steps.
pub mod Count
pub mod Steps
pub mod Once
pub mod Limits
pub mod Progress
pub mod Ends
use adi.Base.{
  ℕ, ◌+◌, ◌*◌, Bool, true, false, ◌||◌, List, [], ◌∷◌, ◌++◌, Option, none, some, ◌==◌,
  if◌then◌else◌, length, take, drop,
}
use adi.Base.Result.{Result, ok, err, ◌>>=◌, ◌>>◌}
use adi.Base.Text.{codes}
use adi.Utf8.{Bytes}
use adi.Generation.{resolved_output_limit}
use adi.Generation.Engine.{
  Engine, Problem, Request, GenerationResult, FinishReason, Answer, generation_cancelled,
  empty_prompt, output_limit, invalid_im_end, batcher_stopped, stop_token, length_reached, finished,
  failed,
}
use adi.Generation.Prefill.{throw_if_cancelled, prefill_prompt}

-- What the clients see: the promises that are set, by their requests' addresses; the pieces that are
-- published; and the streams that are finished.
pub record Log : Type 0 where
  pub answers : List (ℕ × Answer)
  pub pieces : List (ℕ × Bytes)
  pub finished_streams : List ℕ

-- The polls of a request while it is admitted.
pub record Polls : Type 0 where
  pub at_start : Bool
  pub encoding : ℕ → Bool
  pub prefilling : ℕ → Bool

-- What happens to the worker between two of its rounds, and the polls of the next round's requests.
pub data Event : Type 0 where
  submitted : Request → Event
  round : Polls → (ℕ → Bool) → Event

pub has_answer : ℕ → List (ℕ × Answer) → Bool
has_answer address [] = false
has_answer address ((candidate, answer) ∷ answers) =
    candidate == address || has_answer address answers

-- `promise.set_value` and `promise.set_exception`, which throw when the promise is set already, and
-- the end of the stream that follows in either case.
pub answer_request : ℕ → Answer → Log → Log
answer_request address answer log = record {
  answers =
      if has_answer address (log.answers)
      then log.answers
      else (log.answers ++ (address, answer) ∷ []);
  pieces = log.pieces;
  finished_streams = log.finished_streams ++ address ∷ [];
}

pub fail : Problem → Request → Log → Log
fail problem request log = answer_request (request.address) (failed problem) log

pub publish : Request → Bytes → Log → Log
publish request piece log =
    if request.stream_tokens
    then record log { pieces = log.pieces ++ (request.address, piece) ∷ [] }
    else log

pub fail_remaining : Problem → List Request → Log → Log
fail_remaining problem [] log = log
fail_remaining problem (request ∷ pending) log =
    fail_remaining problem pending (fail problem request log)

module _ (engine : Engine) where
  pub record Active : Type 0 where
    pub request : Request
    pub input_tokens : ℕ
    pub max_output_tokens : ℕ
    pub output_tokens : List ℕ
    pub random : engine.Random

  -- The arrays of the requests in progress; the logits are one row behind the other.
  pub record Batch : Type 0 where
    pub active : List Active
    pub states : List (engine.State)
    pub scratches : List (engine.Scratch)
    pub logits : List ℕ

  pub record Batcher : Type 0 where
    pub pending : List Request
    pub batch : Batch
    pub log : Log

  abbrev pub empty_batch : Batch
  empty_batch = record { active = []; states = []; scratches = []; logits = [] }

  pub finish : Active → FinishReason → Log → Log
  finish item reason log = elim (engine.decode (item.output_tokens)) [
    | err problem ↦ fail problem (item.request) log
    | ok text ↦
        answer_request (item.request.address)
          (finished (record {
            text = text;
            input_tokens = item.input_tokens;
            output_tokens = length (item.output_tokens);
            finish_reason = reason;
          }))
          log
  ]

  abbrev pub limited : Request → List ℕ → Result Problem ℕ
  limited request tokens =
      elim (resolved_output_limit (engine.context) (length tokens)
        (request.options.max_output_tokens)) [
          | err problem ↦ err (output_limit problem)
          | ok limit ↦ ok limit
        ]

  abbrev pub nonempty : List ℕ → Result Problem (Unit {0})
  nonempty [] = err empty_prompt
  nonempty (token ∷ tokens) = ok tt

  -- The part of `admit` that can throw.
  pub prepare : ℕ → Polls → Request → Result Problem (Active × engine.State × List ℕ)
  prepare prefill_ubatch polls request = do
    throw_if_cancelled (polls.at_start)
    prompt_tokens ← engine.encode (polls.encoding) (request.prompt)
    nonempty prompt_tokens
    limit ← limited request prompt_tokens
    (state, logits) ←
        prefill_prompt engine (polls.prefilling) prefill_ubatch prompt_tokens (engine.initial_state)
          (engine.initial_logits)
    ok (
      record {
        request = request;
        input_tokens = length prompt_tokens;
        max_output_tokens = limit;
        output_tokens = [];
        random = engine.seeded (request.options.seed);
      },
      state,
      engine.mask_unused_logits logits,
    )

  pub admit : ℕ → Polls → Request → Batch → Result Problem Batch
  admit prefill_ubatch polls request batch = do
    (admitted, state, logits) ← prepare prefill_ubatch polls request
    ok (record {
      active = batch.active ++ admitted ∷ [];
      states = batch.states ++ state ∷ [];
      scratches = batch.scratches ++ engine.initial_scratch ∷ [];
      logits = batch.logits ++ logits;
    })

  pub admit_pending : ℕ → Polls → Batcher → Batcher
  admit_pending prefill_ubatch polls batcher = elim (batcher.pending) [
    | [] ↦ batcher
    | request ∷ pending ↦ elim (admit prefill_ubatch polls request (batcher.batch)) [
      | err problem ↦ record {
        pending = pending;
        batch = batcher.batch;
        log = fail problem request (batcher.log);
      }
      | ok batch ↦ record { pending = pending; batch = batch; log = batcher.log }
    ]
  ]

  -- One item's part of a round: what the clients see, and the item and its token where it goes on.
  pub keep_token : Active → ℕ → engine.Random → Log → Log × Option (Active × ℕ)
  keep_token item token random log =
      let longer = record item {
        output_tokens = item.output_tokens ++ token ∷ [];
        random = random;
      } in
      if length (longer.output_tokens) == item.max_output_tokens
      then (finish longer length_reached log, none)
      else (log, some (longer, token))

  pub stream_token : Active → ℕ → engine.Random → Log → Log × Option (Active × ℕ)
  stream_token item token random log =
      if item.request.stream_tokens
      then elim (engine.token_text token) [
        | err problem ↦ (fail problem (item.request) log, none)
        | ok piece ↦ keep_token item token random (publish (item.request) piece log)
      ]
      else keep_token item token random log

  pub sample_item : ℕ → Bool → List ℕ → Active → Log → Log × Option (Active × ℕ)
  sample_item im_end is_cancelled row item log =
      if is_cancelled
      then (fail generation_cancelled (item.request) log, none)
      else elim (engine.sample_token row (item.request.options.temperature)
          (item.request.options.top_p) (item.random)) [
            | err problem ↦ (fail problem (item.request) log, none)
            | ok (token, random) ↦
                if token == engine.eos_token || token == im_end
                then (finish item stop_token log, none)
                else stream_token item token random log
          ]

  -- What a round leaves of the arrays, and the tokens to be decoded.
  pub record Round : Type 0 where
    pub next_active : List Active
    pub next_states : List (engine.State)
    pub next_scratches : List (engine.Scratch)
    pub next_tokens : List ℕ
    pub next_log : Log

  abbrev pub nothing_left : Log → Round
  nothing_left log = record {
    next_active = [];
    next_states = [];
    next_scratches = [];
    next_tokens = [];
    next_log = log;
  }

  abbrev pub going_on : Option (Active × ℕ) → engine.State → engine.Scratch → Round → Round
  going_on none state scratch rest = rest
  going_on (some (item, token)) state scratch rest = record {
    next_active = item ∷ rest.next_active;
    next_states = state ∷ rest.next_states;
    next_scratches = scratch ∷ rest.next_scratches;
    next_tokens = token ∷ rest.next_tokens;
    next_log = rest.next_log;
  }

  -- The loop over the items, with their places in the other arrays, which are as long.
  pub sample_items :
      ℕ
      → (ℕ → Bool)
      → Log
      → List Active
      → List (engine.State)
      → List (engine.Scratch)
      → List ℕ
      → Round
  sample_items im_end cancelled log (item ∷ active) (state ∷ states) (scratch ∷ scratches) logits =
      let (seen, next) =
        sample_item im_end (cancelled (item.request.address)) (take (engine.vocabulary) logits) item
          log in
      going_on next state scratch (
        sample_items im_end cancelled seen active states scratches
          (drop (engine.vocabulary) logits))
  sample_items im_end cancelled log _ _ _ logits = nothing_left log

  -- `fail` for each of the items, in order.
  pub fail_all : Problem → List Active → Log → Log
  fail_all problem [] log = log
  fail_all problem (item ∷ active) log = fail_all problem active (fail problem (item.request) log)

  -- The mask of each row.
  pub mask_rows : List Active → List ℕ → List ℕ
  mask_rows [] logits = []
  mask_rows (item ∷ active) logits =
      engine.mask_unused_logits (take (engine.vocabulary) logits)
      ++ mask_rows active (drop (engine.vocabulary) logits)

  -- The next logits of all that go on; a problem fails them all.
  pub decode_round : List Request → Round → Batcher
  decode_round pending next = elim (next.next_active) [
    | [] ↦ record { pending = pending; batch = empty_batch; log = next.next_log }
    | item ∷ active ↦
        elim (engine.decode_batch (next.next_tokens) (next.next_states) (next.next_scratches)) [
          | err problem ↦ record {
            pending = pending;
            batch = empty_batch;
            log = fail_all problem (item ∷ active) (next.next_log);
          }
          | ok (states, scratches, logits) ↦ record {
            pending = pending;
            batch = record {
              active = item ∷ active;
              states = states;
              scratches = scratches;
              logits = mask_rows (item ∷ active) logits;
            };
            log = next.next_log;
          }
        ]
  ]

  -- One round of the worker's loop behind the wait.
  pub worker_round : ℕ → ℕ → Polls → (ℕ → Bool) → Batcher → Batcher
  worker_round prefill_ubatch im_end polls cancelled batcher =
      let admitted = admit_pending prefill_ubatch polls batcher in
      decode_round (admitted.pending) (
        sample_items im_end cancelled (admitted.log) (admitted.batch.active) (admitted.batch.states)
          (admitted.batch.scratches) (admitted.batch.logits))

  pub submit : Request → Batcher → Batcher
  submit request batcher = record batcher { pending = batcher.pending ++ request ∷ [] }

  pub happen : ℕ → ℕ → Event → Batcher → Batcher
  happen prefill_ubatch im_end (submitted request) batcher = submit request batcher
  happen prefill_ubatch im_end (round polls cancelled) batcher =
      worker_round prefill_ubatch im_end polls cancelled batcher

  pub happen_all : ℕ → ℕ → List Event → Batcher → Batcher
  happen_all prefill_ubatch im_end [] batcher = batcher
  happen_all prefill_ubatch im_end (event ∷ events) batcher =
      happen_all prefill_ubatch im_end events (happen prefill_ubatch im_end event batcher)

  -- What the worker does when it ends.
  pub terminate : Problem → Batcher → Log
  terminate problem batcher =
      fail_remaining problem (batcher.pending)
        (fail_all problem (batcher.batch.active) (batcher.log))

  abbrev pub single : List ℕ → Result Problem ℕ
  single (token ∷ []) = ok token
  single _ = err invalid_im_end

  abbrev pub idle : Batcher
  idle = record {
    pending = [];
    batch = empty_batch;
    log = record { answers = []; pieces = []; finished_streams = [] };
  }

  pub submit_all : List Event → Batcher → Batcher
  submit_all [] batcher = batcher
  submit_all (submitted request ∷ events) batcher = submit_all events (submit request batcher)
  submit_all (round polls cancelled ∷ events) batcher = submit_all events batcher

  -- The worker from its start to its end; without the token that ends a message it does no round.
  pub run : ℕ → List Event → Log
  run prefill_ubatch events =
      elim (engine.encode (λ poll. false) (codes "<|im_end|>") >>= λ im_end_tokens.
      single im_end_tokens) [
        | err problem ↦ terminate problem (submit_all events idle)
        | ok im_end ↦ terminate batcher_stopped (happen_all prefill_ubatch im_end events idle)
      ]
