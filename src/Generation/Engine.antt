-- ===== src/Generation/Engine.antt =====
-- src/generation.cpp: what the generation of tokens takes from the model and the tokenizer, and the
-- requests that it serves. A float is the number of its bits.
use adi.Base.{ℕ, Bool, List, Option}
use adi.Base.Result.{Result}
use adi.Utf8.{Bytes}
use adi.Generation.{LimitError}

-- What a request can fail with; the other components have problems of their own.
pub data Problem : Type 0 where
  generation_cancelled : Problem
  empty_prompt : Problem
  output_limit : LimitError → Problem
  invalid_im_end : Problem
  batcher_stopped : Problem
  other_problem : Bytes → Problem

-- The model (its states, and the scratch memory of a request), the tokenizer, and the sampler. The
-- logits of a request are as many as the vocabulary is large.
pub record Engine : Type 1 where
  pub State : Type 0
  pub Scratch : Type 0
  pub Random : Type 0
  pub initial_state : State
  pub initial_scratch : Scratch
  pub initial_logits : List ℕ
  pub seeded : ℕ → Random
  pub context : ℕ
  pub vocabulary : ℕ
  pub eos_token : ℕ
  -- The polls say whether the request is cancelled, each time that is asked.
  pub encode : (ℕ → Bool) → Bytes → Result Problem (List ℕ)
  -- The tokens, the state and the logits to be written; no logits where none are wanted.
  pub prefill : List ℕ → State → List ℕ → Result Problem (State × List ℕ)
  pub mask_unused_logits : List ℕ → List ℕ
  pub sample_token : List ℕ → ℕ → ℕ → Random → Result Problem (ℕ × Random)
  pub token_text : ℕ → Result Problem Bytes
  -- `sanitize_utf8(tokenizer.decode(tokens))`
  pub decode : List ℕ → Result Problem Bytes
  -- One token for each state.
  pub decode_batch :
      List ℕ → List State → List Scratch → Result Problem (List State × List Scratch × List ℕ)

pub record GenerationOptions : Type 0 where
  pub max_output_tokens : Option ℕ
  pub temperature : ℕ
  pub top_p : ℕ
  pub seed : ℕ

-- A request is known by its address.
pub record Request : Type 0 where
  pub address : ℕ
  pub prompt : Bytes
  pub options : GenerationOptions
  pub stream_tokens : Bool

pub data FinishReason : Type 0 where
  stop_token : FinishReason
  length_reached : FinishReason

pub record GenerationResult : Type 0 where
  pub text : Bytes
  pub input_tokens : ℕ
  pub output_tokens : ℕ
  pub finish_reason : FinishReason

-- What a promise is set to.
pub data Answer : Type 0 where
  finished : GenerationResult → Answer
  failed : Problem → Answer
