-- ===== src/Tokenizer/RoundTrip.antt =====
-- src/tokenizer.cpp, src/bpe.cpp: what is encoded with a loaded vocabulary, is decoded to the same text.
pub mod Normal
use adi.Base.{
  ℕ, zero, suc, ◌^◌, ◌<◌, ◌≡◌, refl, ap, sym, subst, ◌∙◌, List, [], ◌∷◌, ◌++◌, Option, none, some,
  length, arith, Option-cases, inl, inr, map, All, All-append, append-nil, append_assoc, concat,
  get_elem?,
}
use adi.Base.Result.{ok, Ensures, holds, Ensures-map, Ensures-bind}
use adi.Utf8.{IsByte, append_utf8}
use adi.Utf8.Text.{Encodes, end, next, Form, one, two, three, four, encode-Form}
use adi.Unicode.{utf8_codepoints}
use adi.Unicode.RoundTrip.{decode-Encodes}
use adi.Utf8.Repair.{Encodes-valid}
use adi.Bpe.{bpe_merge}
use adi.Bpe.Kept.{IsTextRule}
use adi.Bpe.Ends.{symbols_text, bpe_merge-returns}
use adi.Tokenizer.{
  Text, Vocabulary, MergeRule, bpe_pair_key, utf8, byte_codepoint, encode_bytes, decode_text,
  token_texts_of, decode,
}
use adi.Tokenizer.Bytes.{encode_bytes-Encodes, decode_text-encode_bytes}
use adi.Tokenizer.Loaded.{HasText, token_id-HasText, IsMerge}
use adi.Tokenizer.Cache.{symbols_of, merged_tokens, merge_pieces}

All-parts {ℓ κ} :
    {A : Type ℓ} (P : A → Type κ) (xs ys : List A) → All P (xs ++ ys) → All P xs × All P ys
All-parts P [] ys h = (tt, h)
All-parts P (x ∷ xs) ys (p, h) = let (a, b) = All-parts P xs ys h in ((p, a), b)

Form-IsByte : (c : ℕ) (bs : Text) → Form c bs → All IsByte bs
Form-IsByte c bs (one h e) = subst (All IsByte) (sym e) ((omega arith), tt)
Form-IsByte c bs (two h k e) = subst (All IsByte) (sym e) ((omega arith), ((omega arith), tt))
Form-IsByte c bs (three h k s e) =
    subst (All IsByte) (sym e) ((omega arith), ((omega arith), ((omega arith), tt)))
Form-IsByte c bs (four h k e) =
    subst (All IsByte) (sym e)
      ((omega arith), ((omega arith), ((omega arith), ((omega arith), tt))))

pub Encodes-IsByte : {cs : List ℕ} {s : Text} → Encodes cs s → All IsByte s
Encodes-IsByte end = tt
Encodes-IsByte (next {c = c} {bs = bs} {t = t} e q r) =
    subst (All IsByte) (sym q)
      (All-append IsByte bs t (Form-IsByte c bs (encode-Form c bs e)) (Encodes-IsByte r))

-- The text of a token; no byte where there is no such token.
abbrev pub own_text : List Text → ℕ → Text
own_text tokens id = elim (get_elem? tokens id) [ none ↦ 256 ∷ [] | some text ↦ text ]

own_text-HasText :
    (tokens : List Text) (id : ℕ) (text : Text) → HasText tokens id text → own_text tokens id ≡ text
own_text-HasText tokens id text h =
    ap (λ (o : Option Text). elim o [ none ↦ 256 ∷ [] | some t ↦ t ]) h

HasText-below :
    (tokens : List Text) (id : ℕ) (text : Text) → HasText tokens id text → id < length tokens
HasText-below [] id text h = absurd (ground arith)
HasText-below (t ∷ tokens) zero text h = omega arith
HasText-below (t ∷ tokens) (suc id) text h =
    let below = HasText-below tokens id text h in omega arith

-- A pair is known by its key.
pair-parts :
    (l r left right : ℕ)
    → l < 2 ^ 32
    → r < 2 ^ 32
    → left < 2 ^ 32
    → right < 2 ^ 32
    → bpe_pair_key l r ≡ bpe_pair_key left right
    → (l ≡ left) × (r ≡ right)
unfolding bpe_pair_key
pair-parts l r left right a b c d e = ((omega arith), (omega arith))

module _ (tokens : List Text) (small : length tokens < 2 ^ 32) where
  IsMerge-IsTextRule : (rule : MergeRule) → IsMerge tokens rule → IsTextRule (own_text tokens) rule
  IsMerge-IsTextRule rule (left, right, left_text, right_text, key, l, r, c) =
      let cb = HasText-below tokens (rule.combined) (left_text ++ right_text) c in
      let lb = HasText-below tokens left left_text l in
      let rb = HasText-below tokens right right_text r in
      (
        (omega arith),
        λ l' r' a b e.
            (let (same_left, same_right) =
                pair-parts l' r' left right a b (omega arith) (omega arith) (e ∙ key) in
              own_text-HasText tokens (rule.combined) (left_text ++ right_text) c
              ∙ ap (λ t. t ++ right_text)
                  (sym (ap (own_text tokens) same_left ∙ own_text-HasText tokens left left_text l))
              ∙ ap (λ t. own_text tokens l' ++ t)
                  (sym (
                    ap (own_text tokens) same_right ∙ own_text-HasText tokens right right_text r))),
      )

  IsMerges-AreTextRules :
      (rules : List MergeRule)
      → All (IsMerge tokens) rules
      → All (IsTextRule (own_text tokens)) rules
  IsMerges-AreTextRules [] h = tt
  IsMerges-AreTextRules (rule ∷ rules) (h, hs) =
      (IsMerge-IsTextRule rule h, IsMerges-AreTextRules rules hs)

-- `bpe_merge`, which always returns.
abbrev pub merge_with : List MergeRule → List ℕ → List ℕ
merge_with rules symbols = elim (bpe_merge symbols rules) [ none ↦ symbols | some merged ↦ merged ]

encode_bytes-append : (xs ys : Text) → encode_bytes (xs ++ ys) ≡ encode_bytes xs ++ encode_bytes ys
unfolding encode_bytes
encode_bytes-append [] ys = refl
encode_bytes-append (x ∷ xs) ys =
    ap (λ t. utf8 (byte_codepoint x) ++ t) (encode_bytes-append xs ys)
    ∙ sym (append_assoc (utf8 (byte_codepoint x)) (encode_bytes xs) (encode_bytes ys))

module _ (vocabulary : Vocabulary) (small : length (vocabulary.tokens) < 2 ^ 32)
    (merges : All (IsMerge (vocabulary.tokens)) (vocabulary.merge_rules)) where
  abbrev texts : List ℕ → Text
  texts ids = symbols_text (own_text (vocabulary.tokens)) ids

  symbols_of-texts :
      {cs : List ℕ} {s : Text}
      → Encodes cs s
      → Ensures
          (λ symbols. (texts symbols ≡ s) × All (λ id. id < 2 ^ 32) symbols)
          (symbols_of vocabulary cs)
  unfolding symbols_of append_utf8
  symbols_of-texts end = holds (refl, tt)
  symbols_of-texts (next {c = c} {cs = cs} {bs = bs} {t = t} {s = s} e q r) =
      rw (symbols_of, append_utf8, e)
        (Ensures-bind (token_id-HasText (vocabulary.tokens) bs) (λ id has.
          Ensures-bind (symbols_of-texts r) (λ symbols (same, all).
            let below = HasText-below (vocabulary.tokens) id bs has in
            holds (
              ap (λ u. u ++ texts symbols) (own_text-HasText (vocabulary.tokens) id bs has)
                  ∙ ap (λ u. bs ++ u) same
                  ∙ sym q,
              ((omega arith), all),
            ))))

  merge_with-texts :
      (symbols : List ℕ)
      → All (λ id. id < 2 ^ 32) symbols
      → texts (merge_with (vocabulary.merge_rules) symbols) ≡ texts symbols
  merge_with-texts symbols all =
      let (merged, e, same) =
        bpe_merge-returns (own_text (vocabulary.tokens)) symbols (vocabulary.merge_rules) all
          (IsMerges-AreTextRules (vocabulary.tokens) small (vocabulary.merge_rules) merges) in
      ap (λ (o : Option (List ℕ)). texts (elim o [ none ↦ symbols | some m ↦ m ])) e ∙ same

  merged_tokens-texts :
      (piece : Text)
      → All IsByte piece
      → Ensures
          (λ ids. texts ids ≡ encode_bytes piece)
          (merged_tokens (merge_with (vocabulary.merge_rules)) vocabulary (encode_bytes piece))
  unfolding merged_tokens
  merged_tokens-texts piece b =
      let encodes = encode_bytes-Encodes piece b in
      let read : utf8_codepoints (encode_bytes piece) ≡ ok (map byte_codepoint piece) =
        unfold utf8_codepoints in rw (Encodes-valid encodes, decode-Encodes encodes) refl in
      rw (read, merged_tokens)
        (Ensures-bind (symbols_of-texts encodes)
          (λ symbols (same, all). holds (merge_with-texts symbols all ∙ same)))

  token_texts_step :
      (id : ℕ) (ids : List ℕ) (text rest : Text)
      → get_elem? (vocabulary.tokens) id ≡ some text
      → token_texts_of vocabulary ids ≡ ok rest
      → token_texts_of vocabulary (id ∷ ids) ≡ ok (text ++ rest)
  unfolding token_texts_of
  token_texts_step id ids text rest e f = rw (e, f, token_texts_of) refl

  -- Tokens whose texts are bytes are there.
  token_texts_of-texts :
      (ids : List ℕ) → All IsByte (texts ids) → token_texts_of vocabulary ids ≡ ok (texts ids)
  unfolding token_texts_of
  token_texts_of-texts [] h = refl
  token_texts_of-texts (id ∷ ids) h =
      let (own, rest) = All-parts IsByte (own_text (vocabulary.tokens) id) (texts ids) h in
      let later = token_texts_of-texts ids rest in
      elim (Option-cases (get_elem? (vocabulary.tokens) id)) [
        | inl e ↦
            let none_there : own_text (vocabulary.tokens) id ≡ 256 ∷ [] =
              ap (λ (o : Option Text). elim o [ none ↦ 256 ∷ [] | some t ↦ t ]) e in
            absurd (let (big, _) = subst (All IsByte) none_there own in omega arith)
        | inr (text, e) ↦
            let there = own_text-HasText (vocabulary.tokens) id text e in
            token_texts_step id ids text (texts ids) e later
            ∙ ap (λ t. ok (t ++ texts ids)) (sym there)
      ]

  texts-append : (xs ys : List ℕ) → texts (xs ++ ys) ≡ texts xs ++ texts ys
  texts-append [] ys = refl
  texts-append (x ∷ xs) ys =
      ap (λ t. own_text (vocabulary.tokens) x ++ t) (texts-append xs ys)
      ∙ sym (append_assoc (own_text (vocabulary.tokens) x) (texts xs) (texts ys))

  merge_pieces-texts :
      (pieces : List Text) (done : Text) (output : List ℕ)
      → All (All IsByte) pieces
      → texts output ≡ encode_bytes done
      → Ensures
          (λ ids. texts ids ≡ encode_bytes (done ++ concat pieces))
          (merge_pieces (merge_with (vocabulary.merge_rules)) vocabulary pieces output)
  unfolding merge_pieces
  merge_pieces-texts [] done output b h = holds (h ∙ ap encode_bytes (sym (append-nil done)))
  merge_pieces-texts (piece ∷ pieces) done output (b, bs) h =
      Ensures-bind (merged_tokens-texts piece b) (λ tokens same.
        Ensures-map
          (merge_pieces-texts pieces (done ++ piece) (output ++ tokens) bs (
            texts-append output tokens
            ∙ ap (λ t. t ++ texts tokens) h
            ∙ ap (λ t. encode_bytes done ++ t) same
            ∙ sym (encode_bytes-append done piece)))
          (λ ids e. e ∙ ap encode_bytes (append_assoc done piece (concat pieces))))

  concat-IsByte : (pieces : List Text) → All IsByte (concat pieces) → All (All IsByte) pieces
  concat-IsByte [] h = tt
  concat-IsByte (piece ∷ pieces) h =
      let (a, b) = All-parts IsByte piece (concat pieces) h in (a, concat-IsByte pieces b)

  -- For a vocabulary of fewer than 2^32 tokens, whose merge rules have the texts of their pairs: where
  -- pieces of bytes are encoded, the tokens decode to the pieces, put together in order.
  pub merge_pieces-decode :
      (pieces : List Text)
      → All IsByte (concat pieces)
      → Ensures
          (λ ids. decode vocabulary ids ≡ ok (concat pieces))
          (merge_pieces (merge_with (vocabulary.merge_rules)) vocabulary pieces [])
  unfolding decode
  merge_pieces-decode pieces b =
      Ensures-map
        (merge_pieces-texts pieces [] [] (concat-IsByte pieces b) (unfold encode_bytes in refl))
        (λ ids same.
          let bytes : All IsByte (texts ids) =
            subst (All IsByte) (sym same)
              (Encodes-IsByte (encode_bytes-Encodes (concat pieces) b)) in
          let read = token_texts_of-texts ids bytes in
          rw (read) (ap decode_text same ∙ decode_text-encode_bytes (concat pieces) b))
