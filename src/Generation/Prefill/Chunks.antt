-- ===== src/Generation/Prefill/Chunks.antt =====
-- src/generation.cpp: the chunks of a prompt.
use adi.Base.{
  ℕ, zero, suc, ◌≤◌, ◌<◌, ◌≡◌, refl, ap, ◌∙◌, Bool, true, false, not, ◌&&◌, List, [], ◌∷◌, ◌++◌,
  leb, leb→le, length, take, drop, arith, map, All, length-take, length-drop, concat,
  take-append-drop,
}
use package.adi.Generation.Prefill.{chunks_of, prompt_chunks}

-- A chunk holds a token at least, and no more than the limit.
abbrev pub IsChunk : ℕ → List ℕ × Bool → Type 0
IsChunk chunk_tokens (chunk, final_chunk) = (1 ≤ length chunk) × (length chunk ≤ chunk_tokens)

-- The last chunk is the final one, and no other.
abbrev pub only_last_final : List (List ℕ × Bool) → Bool
only_last_final [] = true
only_last_final ((chunk, final_chunk) ∷ []) = final_chunk
only_last_final ((chunk, final_chunk) ∷ next ∷ chunks) =
    not final_chunk && only_last_final (next ∷ chunks)

chunks_of-IsChunk :
    (fuel chunk_tokens : ℕ) (tokens : List ℕ)
    → 1 ≤ chunk_tokens
    → All (IsChunk chunk_tokens) (chunks_of fuel chunk_tokens tokens)
unfolding chunks_of
chunks_of-IsChunk zero chunk_tokens tokens h = tt
chunks_of-IsChunk (suc fuel) chunk_tokens [] h = tt
chunks_of-IsChunk (suc fuel) chunk_tokens (t ∷ ts) h =
    let size = length-take chunk_tokens (t ∷ ts) in
    ((omega arith, omega arith), chunks_of-IsChunk fuel chunk_tokens (drop chunk_tokens (t ∷ ts)) h)

chunks_of-concat :
    (fuel chunk_tokens : ℕ) (tokens : List ℕ)
    → 1 ≤ chunk_tokens
    → length tokens ≤ fuel
    → concat (map (λ chunk. chunk.0) (chunks_of fuel chunk_tokens tokens)) ≡ tokens
unfolding chunks_of
chunks_of-concat zero chunk_tokens [] h k = refl
chunks_of-concat zero chunk_tokens (t ∷ ts) h k = absurd (omega arith)
chunks_of-concat (suc fuel) chunk_tokens [] h k = refl
chunks_of-concat (suc fuel) chunk_tokens (t ∷ ts) h k =
    let size = length-drop chunk_tokens (t ∷ ts) in
    ap (λ rest. take chunk_tokens (t ∷ ts) ++ rest)
      (chunks_of-concat fuel chunk_tokens (drop chunk_tokens (t ∷ ts)) h (omega arith))
    ∙ take-append-drop chunk_tokens (t ∷ ts)

chunks_of-nil :
    (fuel chunk_tokens : ℕ) (tokens : List ℕ)
    → length tokens ≡ 0
    → chunks_of fuel chunk_tokens tokens ≡ []
unfolding chunks_of
chunks_of-nil zero chunk_tokens tokens h = refl
chunks_of-nil (suc fuel) chunk_tokens [] h = refl
chunks_of-nil (suc fuel) chunk_tokens (t ∷ ts) h = absurd (omega arith)

chunks_of-cons :
    (fuel chunk_tokens : ℕ) (tokens : List ℕ)
    → 1 ≤ length tokens
    → length tokens ≤ fuel
    → 1 ≤ length (chunks_of fuel chunk_tokens tokens)
unfolding chunks_of
chunks_of-cons zero chunk_tokens tokens h k = absurd (omega arith)
chunks_of-cons (suc fuel) chunk_tokens [] h k = absurd (omega arith)
chunks_of-cons (suc fuel) chunk_tokens (t ∷ ts) h k = omega arith

in-front-only_last_final :
    (chunk : List ℕ) (final_chunk : Bool) (chunks : List (List ℕ × Bool))
    → (final_chunk ≡ true → chunks ≡ [])
    → (final_chunk ≡ false → 1 ≤ length chunks)
    → only_last_final chunks ≡ true
    → only_last_final ((chunk, final_chunk) ∷ chunks) ≡ true
in-front-only_last_final chunk true [] h k o = refl
in-front-only_last_final chunk false [] h k o = absurd (let some = k refl in omega arith)
in-front-only_last_final chunk true (c ∷ cs) h k o = absurd (let none = h refl in ground arith)
in-front-only_last_final chunk false (c ∷ cs) h k o = o

chunks_of-only_last_final :
    (fuel chunk_tokens : ℕ) (tokens : List ℕ)
    → 1 ≤ chunk_tokens
    → length tokens ≤ fuel
    → only_last_final (chunks_of fuel chunk_tokens tokens) ≡ true
unfolding chunks_of
chunks_of-only_last_final zero chunk_tokens tokens h k = refl
chunks_of-only_last_final (suc fuel) chunk_tokens [] h k = refl
chunks_of-only_last_final (suc fuel) chunk_tokens (t ∷ ts) h k =
    let size = length-drop chunk_tokens (t ∷ ts) in
    let rest = drop chunk_tokens (t ∷ ts) in
    in-front-only_last_final (take chunk_tokens (t ∷ ts)) (leb (length (t ∷ ts)) chunk_tokens)
      (chunks_of fuel chunk_tokens rest)
      (λ e.
        chunks_of-nil fuel chunk_tokens rest
          (let few = leb→le (length (t ∷ ts)) chunk_tokens e in omega arith))
      (λ e.
        chunks_of-cons fuel chunk_tokens rest
          (let many : chunk_tokens < length (t ∷ ts) = ground arith in omega arith) (omega arith))
      (chunks_of-only_last_final fuel chunk_tokens rest h (omega arith))

-- For a positive chunk size, the chunks that the prompt is processed in are the prompt when they are
-- put together; each has a token at least and no more than the size; and the last one is marked
-- final, which is the one whose logits are wanted, and no other.
pub prompt_chunks-concat :
    (chunk_tokens : ℕ) (tokens : List ℕ)
    → 1 ≤ chunk_tokens
    → (concat (map (λ chunk. chunk.0) (prompt_chunks chunk_tokens tokens)) ≡ tokens)
      × All (IsChunk chunk_tokens) (prompt_chunks chunk_tokens tokens)
      × (only_last_final (prompt_chunks chunk_tokens tokens) ≡ true)
unfolding prompt_chunks
prompt_chunks-concat chunk_tokens tokens h =
    let enough : length tokens ≤ length tokens = omega arith in
    (
      chunks_of-concat (length tokens) chunk_tokens tokens h enough,
      chunks_of-IsChunk (length tokens) chunk_tokens tokens h,
      chunks_of-only_last_final (length tokens) chunk_tokens tokens h enough,
    )
