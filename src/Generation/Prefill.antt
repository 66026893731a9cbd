-- ===== src/Generation/Prefill.antt =====
-- src/generation.cpp: `prefill_prompt`, the prompt in chunks.
pub mod Chunks
use adi.Base.{
  ℕ, zero, suc, ◌-◌, Bool, true, false, List, [], ◌∷◌, leb, ltb, if◌then◌else◌, length, take, drop,
}
use adi.Base.Result.{Result, ok, err, ◌>>=◌, ◌>>◌, guard}
use adi.Generation.Engine.{Engine, Problem, generation_cancelled}

abbrev pub throw_if_cancelled : Bool → Result Problem (Unit {0})
throw_if_cancelled true = err generation_cancelled
throw_if_cancelled false = ok tt

-- The chunks of the loop over the offsets, and whether a chunk is the final one; `fuel` bounds the
-- number of rounds.
pub chunks_of : ℕ → ℕ → List ℕ → List (List ℕ × Bool)
chunks_of zero chunk_tokens tokens = []
chunks_of (suc fuel) chunk_tokens [] = []
chunks_of (suc fuel) chunk_tokens (token ∷ tokens) =
    (take chunk_tokens (token ∷ tokens), leb (length (token ∷ tokens)) chunk_tokens)
    ∷ chunks_of fuel chunk_tokens (drop chunk_tokens (token ∷ tokens))

-- A chunk that is not empty takes a token at least: no more rounds than tokens.
pub prompt_chunks : ℕ → List ℕ → List (List ℕ × Bool)
prompt_chunks chunk_tokens tokens = chunks_of (length tokens) chunk_tokens tokens

-- The rounds; `poll` numbers the tests whether the request is cancelled. Only the final chunk writes
-- the logits.
unfoldable pub prefill_chunks :
    (engine : Engine)
    → (ℕ → Bool)
    → ℕ
    → List (List ℕ × Bool)
    → engine.State
    → List ℕ
    → Result Problem (engine.State × List ℕ)
prefill_chunks engine cancelled poll [] state logits = do
  throw_if_cancelled (cancelled poll)
  ok (state, logits)
prefill_chunks engine cancelled poll ((chunk, final_chunk) ∷ chunks) state logits = do
  throw_if_cancelled (cancelled poll)
  (advanced, written) ← engine.prefill chunk state (if final_chunk then logits else [])
  prefill_chunks engine cancelled (suc poll) chunks advanced
      (if final_chunk then written else logits)

unfoldable pub prefill_prompt :
    (engine : Engine)
    → (ℕ → Bool)
    → ℕ
    → List ℕ
    → engine.State
    → List ℕ
    → Result Problem (engine.State × List ℕ)
prefill_prompt engine cancelled chunk_tokens tokens state logits =
    prefill_chunks engine cancelled 0 (prompt_chunks chunk_tokens tokens) state logits
