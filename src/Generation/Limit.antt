-- ===== src/Generation/Limit.antt =====
-- src/generation.cpp: the limit that is resolved, for every context, prompt and request.
use adi.Base.{ℕ, ◌+◌, ◌^◌, ◌≤◌, ◌<◌, ◌≡◌, ◌↔◌, Option, none, some, arith}
use adi.Base.Result.{ok}
use adi.Generation.{resolved_output_limit}

-- The limits that a request allows: the prompt and the limit fit in the context together, at least one
-- token is generated, and the limit is the requested one, or all that is left where none is requested.
abbrev pub IsLimit : ℕ → ℕ → Option ℕ → ℕ → Type 0
IsLimit context prompt none limit = (prompt < context) × (prompt + limit ≡ context)
IsLimit context prompt (some requested) limit =
    (limit ≡ requested) × (1 ≤ limit) × (prompt + limit ≤ context)

-- For a 32-bit context size, `resolved_output_limit` returns a limit exactly when the limit is one
-- that the request allows; otherwise it fails.
pub resolved_output_limit_iff :
    (context prompt : ℕ) (requested : Option ℕ) (limit : ℕ)
    → context < 2 ^ 32
    → (resolved_output_limit context prompt requested ≡ ok limit)
      ↔ IsLimit context prompt requested limit
unfolding resolved_output_limit
resolved_output_limit_iff context prompt none limit h = (ground arith, ground arith)
resolved_output_limit_iff context prompt (some n) limit h = (ground arith, ground arith)
