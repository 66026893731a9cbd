-- ===== src/Tokenizer/Cache.antt =====
-- src/tokenizer.cpp: the cache of encoded pieces. The map and the list of its keys by recency are one
-- list here, the most recent entry first.
pub mod Transparent
use adi.Base.{
  ℕ, suc, ◌-◌, Bool, true, false, List, [], ◌∷◌, ◌++◌, Option, none, some, leb, ◌==◌, if◌then◌else◌,
  length, list_eq, take,
}
use adi.Base.Result.{Result, ok, err, ◌>>=◌}
use adi.Utf8.{append_utf8}
use adi.Unicode.{utf8_codepoints}
use adi.Unicode.Data.{UnicodeData}
use adi.Unicode.Normalize.{normalize_nfc}
use adi.Unicode.Pretokenize.{qwen35_pretokenize}
use package.adi.Tokenizer.{Text, TokenizerError, Vocabulary, invalid_text, token_id, encode_bytes}

-- The encoded piece and its tokens.
abbrev pub CacheEntry : Type 0
CacheEntry = Text × List ℕ

abbrev pub TokenCache : Type 0
TokenCache = List CacheEntry

pub find_entry : Text → TokenCache → Option (List ℕ)
find_entry key [] = none
find_entry key ((candidate, tokens) ∷ cache) =
    if list_eq candidate key then some tokens else find_entry key cache

pub remove_entry : Text → TokenCache → TokenCache
remove_entry key [] = []
remove_entry key ((candidate, tokens) ∷ cache) =
    if list_eq candidate key then cache else (candidate, tokens) ∷ remove_entry key cache

abbrev pub maximum_cache_entries : ℕ
maximum_cache_entries = 4096

abbrev pub maximum_cacheable_piece_bytes : ℕ
maximum_cacheable_piece_bytes = 256

-- A further entry, in the place of the least recent one where the cache is full.
pub add_entry : CacheEntry → TokenCache → TokenCache
add_entry entry cache =
    if length cache == maximum_cache_entries
    then entry ∷ take (length cache - 1) cache
    else entry ∷ cache

-- The symbol of each code point of an encoded piece.
unfoldable pub symbols_of : Vocabulary → List ℕ → Result TokenizerError (List ℕ)
symbols_of vocabulary [] = ok []
symbols_of vocabulary (codepoint ∷ codepoints) = elim (append_utf8 [] codepoint) [
  | err e ↦ err invalid_text
  | ok symbol ↦ token_id (vocabulary.tokens) symbol >>= λ id.
      symbols_of vocabulary codepoints >>= λ symbols. ok (id ∷ symbols)
]

module _ (merge : List ℕ → List ℕ) (vocabulary : Vocabulary) where
  -- The tokens of an encoded piece without the cache; `merge` is `bpe_merge` with the vocabulary's rules.
  unfoldable pub merged_tokens : Text → Result TokenizerError (List ℕ)
  merged_tokens encoded = elim (utf8_codepoints encoded) [
    | err e ↦ err invalid_text
    | ok codepoints ↦ symbols_of vocabulary codepoints >>= λ symbols. ok (merge symbols)
  ]

  pub encode_missing : Text → Text → TokenCache → Result TokenizerError (List ℕ × TokenCache)
  encode_missing piece encoded cache = merged_tokens encoded >>= λ ids. ok (
    ids,
    (if leb (length piece) maximum_cacheable_piece_bytes
        then add_entry (encoded, ids) cache
        else cache),
  )

  -- The tokens of a piece, and the cache afterwards.
  pub encode_piece : Text → TokenCache → Result TokenizerError (List ℕ × TokenCache)
  encode_piece piece cache =
      let encoded = encode_bytes piece in
      elim (find_entry encoded cache) [
        | some tokens ↦ ok (tokens, (encoded, tokens) ∷ remove_entry encoded cache)
        | none ↦ encode_missing piece encoded cache
      ]

  -- The loop over the pieces; `output` holds the tokens so far.
  pub encode_pieces : List Text → List ℕ → TokenCache → Result TokenizerError (List ℕ × TokenCache)
  encode_pieces [] output cache = ok (output, cache)
  encode_pieces (piece ∷ pieces) output cache = do
    (tokens, later) ← encode_piece piece cache
    encode_pieces pieces (output ++ tokens) later

  unfoldable pub encode_normal :
      UnicodeData → Text → List ℕ → TokenCache → Result TokenizerError (List ℕ × TokenCache)
  encode_normal tables text output cache = elim (normalize_nfc tables text) [
    | err e ↦ err invalid_text
    | ok normalized ↦ elim (qwen35_pretokenize tables normalized) [
      | err e ↦ err invalid_text
      | ok pieces ↦ encode_pieces pieces output cache
    ]
  ]

  -- The same without a cache.
  unfoldable pub merge_pieces : List Text → List ℕ → Result TokenizerError (List ℕ)
  merge_pieces [] output = ok output
  merge_pieces (piece ∷ pieces) output = do
    tokens ← merged_tokens (encode_bytes piece)
    merge_pieces pieces (output ++ tokens)
