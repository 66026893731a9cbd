-- ===== src/Tokenizer/RoundTrip/Normal.antt =====
-- src/tokenizer.cpp: text between special tokens, encoded and decoded again.
use adi.Base.{ℕ, ◌^◌, ◌<◌, ◌≡◌, sym, subst, true, List, [], length, arith, inl, inr, All, concat}
use adi.Base.Result.{
  Result, ok, err, Ensures, holds, rejected, Ensures-map, Ensures-ok, Result-cases,
}
use adi.Utf8.{IsByte, valid_utf8}
use adi.Utf8.Repair.{Encodes-valid}
use adi.Unicode.{utf8_codepoints, codepoints_utf8}
use adi.Unicode.Data.{UnicodeData}
use adi.Unicode.Normalize.{normalize_nfc, decompose, canonical_order, compose}
use adi.Unicode.Pretokenize.Pieces.{qwen35_pretokenize-concat}
use adi.Unicode.RoundTrip.{codepoints_utf8-Encodes}
use adi.Tokenizer.{Text, TokenizerError, Vocabulary, Metadata, decode, load_tokenizer}
use adi.Tokenizer.Loaded.{IsMerge, load_tokenizer-IsLoaded}
use adi.Tokenizer.Cache.{TokenCache, encode_pieces, encode_normal, merge_pieces}
use adi.Tokenizer.Cache.Transparent.{IsCache, Agrees, encode_pieces-Agrees}
use package.adi.Tokenizer.RoundTrip.{Encodes-IsByte, merge_with, merge_pieces-decode}

abbrev IsText : Text → Type 0
IsText s = All IsByte s × (valid_utf8 s ≡ true)

normalize_nfc-IsText :
    (tables : UnicodeData) (text : Text) → Ensures IsText (normalize_nfc tables text)
unfolding normalize_nfc
normalize_nfc-IsText tables text = elim (Result-cases (utf8_codepoints text)) [
  | inr (e, f) ↦ rw (f, normalize_nfc) rejected
  | inl (source, f) ↦
      let codepoints = compose tables (canonical_order tables (decompose tables source)) in
      elim (Result-cases (codepoints_utf8 codepoints)) [
        | inr (e, g) ↦ rw (f, normalize_nfc, g) rejected
        | inl (s, g) ↦
            let encodes = codepoints_utf8-Encodes codepoints s g in
            rw (f, normalize_nfc, g) (holds (Encodes-IsByte encodes, Encodes-valid encodes))
      ]
]

module _ (vocabulary : Vocabulary) (small : length (vocabulary.tokens) < 2 ^ 32)
    (merges : All (IsMerge (vocabulary.tokens)) (vocabulary.merge_rules)) where
  -- The tokens decode to the text, and the cache is again one.
  abbrev pub AreTokensOf : Text → List ℕ × TokenCache → Type 0
  AreTokensOf text (ids, later) =
      (decode vocabulary ids ≡ ok text)
      × IsCache (merge_with (vocabulary.merge_rules)) vocabulary later

  agreed :
      (text : Text) (r : Result TokenizerError (List ℕ × TokenCache))
      (r' : Result TokenizerError (List ℕ))
      → Agrees (merge_with (vocabulary.merge_rules)) vocabulary r r'
      → Ensures (λ ids. decode vocabulary ids ≡ ok text) r'
      → Ensures (AreTokensOf text) r
  agreed text (ok (ids, later)) r' (e, c) h = holds (Ensures-ok h e, c)
  agreed text (err e) r' a h = rejected

  encode_pieces-decode :
      (pieces : List Text) (cache : TokenCache)
      → All IsByte (concat pieces)
      → IsCache (merge_with (vocabulary.merge_rules)) vocabulary cache
      → Ensures
          (AreTokensOf (concat pieces))
          (encode_pieces (merge_with (vocabulary.merge_rules)) vocabulary pieces [] cache)
  encode_pieces-decode pieces cache b c =
      agreed (concat pieces)
        (encode_pieces (merge_with (vocabulary.merge_rules)) vocabulary pieces [] cache)
        (merge_pieces (merge_with (vocabulary.merge_rules)) vocabulary pieces [])
        (encode_pieces-Agrees (merge_with (vocabulary.merge_rules)) vocabulary pieces [] cache c)
        (merge_pieces-decode vocabulary small merges pieces b)

  encode_normalized :
      (tables : UnicodeData) (text normalized : Text) (cache : TokenCache)
      → normalize_nfc tables text ≡ ok normalized
      → IsCache (merge_with (vocabulary.merge_rules)) vocabulary cache
      → Ensures
          (AreTokensOf normalized)
          (encode_normal (merge_with (vocabulary.merge_rules)) vocabulary tables text [] cache)
  unfolding encode_normal
  encode_normalized tables text normalized cache e c =
      let (b, valid) = Ensures-ok (normalize_nfc-IsText tables text) e in
      let (pieces, split, whole, _) = qwen35_pretokenize-concat tables normalized b valid in
      rw (e, encode_normal, split)
        (subst
          (λ t.
            Ensures (AreTokensOf t)
              (encode_pieces (merge_with (vocabulary.merge_rules)) vocabulary pieces [] cache))
          whole (encode_pieces-decode pieces cache (subst (All IsByte) (sym whole) b) c))

-- With the vocabulary of a file whose metadata are accepted, of fewer than 2^32 tokens: where a text
-- between special tokens is encoded, it has a normal form and the tokens decode to that form; and from
-- a cache whose entries are right, with 4096 at most, the cache afterwards is one again.
pub encode_normal-decode :
    (size : ℕ) (file : Metadata) (vocabulary : Vocabulary) (tables : UnicodeData) (text : Text)
    (cache : TokenCache)
    → size < 2 ^ 32
    → load_tokenizer size file ≡ ok vocabulary
    → IsCache (merge_with (vocabulary.merge_rules)) vocabulary cache
    → Ensures
        (λ (ids, later).
          (normalized : Text) × (normalize_nfc tables text ≡ ok normalized)
          × (decode vocabulary ids ≡ ok normalized)
          × IsCache (merge_with (vocabulary.merge_rules)) vocabulary later)
        (encode_normal (merge_with (vocabulary.merge_rules)) vocabulary tables text [] cache)
unfolding encode_normal
encode_normal-decode size file vocabulary tables text cache below loaded c =
    let (count, _, _, (merges, _), _) = Ensures-ok (load_tokenizer-IsLoaded size file) loaded in
    elim (Result-cases (normalize_nfc tables text)) [
      | inr (e, f) ↦ rw (f, encode_normal) rejected
      | inl (normalized, f) ↦
          Ensures-map
            (encode_normalized vocabulary (omega arith) merges tables text normalized cache f c)
            (λ (ids, later) (same, again). (normalized, f, same, again))
    ]
