-- ===== src/Generation.antt =====
-- src/generation.cpp: the number of tokens that a request may generate.
pub mod Limit
pub mod Engine
pub mod Prefill
pub mod Batch
use adi.Base.{ℕ, ◌-◌, ◌%◌, ◌^◌, Option, none, some, ltb, leb, ◌==◌, if◌then◌else◌}
use adi.Base.Result.{Result, ok, err, ◌>>=◌, ◌>>◌}

pub data LimitError : Type 0 where
  prompt_exceeds_context : LimitError
  limit_not_positive : LimitError
  limit_exceeds_context : LimitError

pub resolved_output_limit : ℕ → ℕ → Option ℕ → Result LimitError ℕ
resolved_output_limit context prompt_tokens requested_limit =
    if leb context prompt_tokens
    then err prompt_exceeds_context
    else (let remaining_context = (context - prompt_tokens) % 2 ^ 32 in
        elim requested_limit [
          | none ↦ ok remaining_context
          | some limit ↦
              if limit == 0
              then err limit_not_positive
              else if ltb remaining_context limit
              then err limit_exceeds_context
              else ok limit
        ])
