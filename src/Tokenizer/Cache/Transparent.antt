-- ===== src/Tokenizer/Cache/Transparent.antt =====
-- src/tokenizer.cpp: the cache changes no result.
use adi.Base.{
  ℕ, zero, suc, ◌-◌, ◌≤◌, ◌≡◌, refl, ap, sym, subst, ◌∙◌, List, [], ◌∷◌, ◌++◌, some, leb, ◌==◌,
  if-either, length, list_eq, take, arith, Bool-cases, Option-cases, inl, inr, All, list_eq→eq,
  length-take,
}
use adi.Base.Result.{Result, ok, err, ◌>>=◌, Result-cases}
use package.adi.Tokenizer.{Text, TokenizerError, Vocabulary, encode_bytes}
use package.adi.Tokenizer.Cache.{
  CacheEntry, TokenCache, find_entry, remove_entry, add_entry, maximum_cache_entries,
  maximum_cacheable_piece_bytes, merged_tokens, encode_missing, encode_piece, encode_pieces,
  merge_pieces,
}

module _ (merge : List ℕ → List ℕ) (vocabulary : Vocabulary) where
  -- An entry holds the tokens that its piece has.
  abbrev pub IsEntry : CacheEntry → Type 0
  IsEntry (encoded, tokens) = merged_tokens merge vocabulary encoded ≡ ok tokens

  abbrev pub IsCache : TokenCache → Type 0
  IsCache cache = All IsEntry cache × (length cache ≤ maximum_cache_entries)

  find_entry-IsEntry :
      (key : Text) (cache : TokenCache) (tokens : List ℕ)
      → All IsEntry cache
      → find_entry key cache ≡ some tokens
      → merged_tokens merge vocabulary key ≡ ok tokens
  unfolding find_entry
  find_entry-IsEntry key [] tokens h e = absurd (ground arith)
  find_entry-IsEntry key ((candidate, found) ∷ cache) tokens (h, hs) e =
      elim (Bool-cases (list_eq candidate key)) [
        | inl s ↦
            let same = list_eq→eq candidate key s in
            let here : found ≡ tokens = ground arith in
            subst (λ k. merged_tokens merge vocabulary k ≡ ok tokens) same (h ∙ ap ok here)
        | inr s ↦ find_entry-IsEntry key cache tokens hs (ground arith)
      ]

  remove_entry-All :
      (key : Text) (cache : TokenCache) → All IsEntry cache → All IsEntry (remove_entry key cache)
  unfolding remove_entry
  remove_entry-All key [] h = tt
  remove_entry-All key ((candidate, found) ∷ cache) (h, hs) =
      if-either (All IsEntry) (list_eq candidate key) (λ _. hs)
        (λ _. (h, remove_entry-All key cache hs))

  length-remove_entry :
      (key : Text) (cache : TokenCache) (tokens : List ℕ)
      → find_entry key cache ≡ some tokens
      → suc (length (remove_entry key cache)) ≡ length cache
  unfolding remove_entry find_entry
  length-remove_entry key [] tokens e = absurd (ground arith)
  length-remove_entry key ((candidate, found) ∷ cache) tokens e =
      elim (Bool-cases (list_eq candidate key)) [
        | inl s ↦ ground arith
        | inr s ↦ let k = length-remove_entry key cache tokens (ground arith) in ground arith
      ]

  take-All : (n : ℕ) (cache : TokenCache) → All IsEntry cache → All IsEntry (take n cache)
  take-All zero cache h = tt
  take-All (suc n) [] h = tt
  take-All (suc n) (e ∷ cache) (h, hs) = (h, take-All n cache hs)

  add_entry-IsCache :
      (entry : CacheEntry) (cache : TokenCache)
      → IsEntry entry
      → IsCache cache
      → IsCache (add_entry entry cache)
  unfolding add_entry
  add_entry-IsCache entry cache h (hs, few) =
      if-either IsCache (length cache == maximum_cache_entries)
        (λ e. (
          (h, take-All (length cache - 1) cache hs),
          (let t = length-take (length cache - 1) cache in ground arith),
        ))
        (λ e. ((h, hs), ground arith))

  -- With a cache the result is the same, and the cache is one again.
  abbrev pub Agrees :
      Result TokenizerError (List ℕ × TokenCache) → Result TokenizerError (List ℕ) → Type 0
  Agrees (ok (tokens, cache)) expected = (expected ≡ ok tokens) × IsCache cache
  Agrees (err e) expected = expected ≡ err e

  encode_missing-Agrees :
      (piece encoded : Text) (cache : TokenCache)
      → IsCache cache
      → Agrees
          (encode_missing merge vocabulary piece encoded cache)
          (merged_tokens merge vocabulary encoded)
  unfolding encode_missing
  encode_missing-Agrees piece encoded cache h =
      elim (Result-cases (merged_tokens merge vocabulary encoded)) [
        | inr (e, f) ↦ rw (f) refl
        | inl (ids, f) ↦ rw (f) (
          refl,
          if-either IsCache (leb (length piece) maximum_cacheable_piece_bytes)
              (λ _. add_entry-IsCache (encoded, ids) cache f h) (λ _. h),
        )
      ]

  encode_piece-Agrees :
      (piece : Text) (cache : TokenCache)
      → IsCache cache
      → Agrees
          (encode_piece merge vocabulary piece cache)
          (merged_tokens merge vocabulary (encode_bytes piece))
  unfolding encode_piece
  encode_piece-Agrees piece cache (hs, few) =
      elim (Option-cases (find_entry (encode_bytes piece) cache)) [
        | inl e ↦
            rw (e, encode_piece) (encode_missing-Agrees piece (encode_bytes piece) cache (hs, few))
        | inr (tokens, e) ↦
            let found = find_entry-IsEntry (encode_bytes piece) cache tokens hs e in
            let same = length-remove_entry (encode_bytes piece) cache tokens e in
            rw (e, encode_piece)
              (found, ((found, remove_entry-All (encode_bytes piece) cache hs), (omega arith)))
      ]

  Agrees-bind :
      (r : Result TokenizerError (List ℕ × TokenCache)) (r' : Result TokenizerError (List ℕ))
      (next : List ℕ × TokenCache → Result TokenizerError (List ℕ × TokenCache))
      (next' : List ℕ → Result TokenizerError (List ℕ))
      → Agrees r r'
      → ((tokens : List ℕ) (later : TokenCache)
          → IsCache later
          → Agrees (next (tokens, later)) (next' tokens))
      → Agrees (r >>= next) (r' >>= next')
  Agrees-bind (ok (tokens, later)) r' next next' (e, h) k =
      subst (λ x. Agrees (next (tokens, later)) (x >>= next')) (sym e) (k tokens later h)
  Agrees-bind (err e) r' next next' h k = ap (λ x. x >>= next') h

  -- From a cache whose entries are right, and which has 4096 entries at most, the tokens of a sequence
  -- of pieces are those that merging each of them anew gives, in the same order, or the same error;
  -- and the cache afterwards is again one whose entries are right, with 4096 entries at most.
  pub encode_pieces-Agrees :
      (pieces : List Text) (output : List ℕ) (cache : TokenCache)
      → IsCache cache
      → Agrees
          (encode_pieces merge vocabulary pieces output cache)
          (merge_pieces merge vocabulary pieces output)
  unfolding encode_pieces merge_pieces
  encode_pieces-Agrees [] output cache h = (refl, h)
  encode_pieces-Agrees (piece ∷ pieces) output cache h =
      Agrees-bind (encode_piece merge vocabulary piece cache)
        (merged_tokens merge vocabulary (encode_bytes piece))
        (λ (tokens, later). encode_pieces merge vocabulary pieces (output ++ tokens) later)
        (λ tokens. merge_pieces merge vocabulary pieces (output ++ tokens))
        (encode_piece-Agrees piece cache h)
        (λ tokens later k. encode_pieces-Agrees pieces (output ++ tokens) later k)
