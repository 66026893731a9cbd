-- ===== src/Unicode/Pretokenize/Pieces.antt =====
-- src/unicode.cpp: the pieces of a text, put together again, are the text.
use adi.Base.{
  ℕ, zero, suc, ◌+◌, ◌≤◌, ◌<◌, ◌≡◌, refl, ap, sym, subst, ◌∙◌, Bool, true, List, [], ◌∷◌, ◌++◌,
  length, drop, arith, All, append_assoc, length-append, length-take, length-drop, concat,
  take-append-drop,
}
use adi.Base.Result.{ok}
use adi.Utf8.{Bytes, IsByte, valid_utf8, encode_utf8}
use adi.Utf8.Text.{Encodes, end, next}
use adi.Utf8.Repair.{valid_utf8_iff}
use adi.Unicode.{utf8_codepoints, codepoints_utf8}
use adi.Unicode.RoundTrip.{decode-Encodes, append_all-Encodes}
use adi.Unicode.Data.{UnicodeData}
use package.adi.Unicode.Pretokenize.{
  run_length, is_word, is_punctuation, punctuation_length, space_length, plain_length, piece_length,
  split_pieces, encode_pieces, qwen35_pretokenize,
}

run_length-positive :
    (test : ℕ → Bool) (c : ℕ) (cs : List ℕ) → test c ≡ true → 0 < run_length test (c ∷ cs)
unfolding run_length
run_length-positive test c cs h = rw h (omega arith)

space_length-positive : (tables : UnicodeData) (cs : List ℕ) → 0 < space_length tables cs
unfolding space_length
space_length-positive tables cs = ground arith

plain_length-positive : (tables : UnicodeData) (c : ℕ) (cs : List ℕ) → 0 < plain_length tables c cs
unfolding plain_length punctuation_length
plain_length-positive tables c cs = ground (
  arith,
  space_length-positive tables (c ∷ cs),
  run_length-positive (is_word tables) c cs,
  run_length-positive (is_punctuation tables) c cs,
)

piece_length-positive : (tables : UnicodeData) (c : ℕ) (cs : List ℕ) → 0 < piece_length tables c cs
unfolding piece_length
piece_length-positive tables c cs = ground (arith, plain_length-positive tables c cs)

abbrev pub NonEmpty {ℓ} : {A : Type ℓ} → List A → Type 0
NonEmpty xs = 0 < length xs

split_pieces-concat :
    (tables : UnicodeData) (rounds : ℕ) (cs : List ℕ)
    → length cs ≤ rounds
    → (concat (split_pieces tables rounds cs) ≡ cs) × All NonEmpty (split_pieces tables rounds cs)
unfolding split_pieces
split_pieces-concat tables rounds [] h = (refl, tt)
split_pieces-concat tables zero (c ∷ cs) h = absurd (omega arith)
split_pieces-concat tables (suc rounds) (c ∷ cs) h =
    let count : ℕ = piece_length tables c cs in
    let positive : 0 < count = piece_length-positive tables c cs in
    let (whole, parts) =
      split_pieces-concat tables rounds (drop count (c ∷ cs))
        (omega (arith, length-drop count (c ∷ cs))) in
    (rw whole (take-append-drop count (c ∷ cs)), (omega (arith, length-take count (c ∷ cs)), parts))

-- An encoding of two lists of code points is that of the first and that of the second.
Encodes-split :
    (xs ys : List ℕ) (s : Bytes)
    → Encodes (xs ++ ys) s
    → (a : Bytes) × (b : Bytes) × (s ≡ a ++ b) × Encodes xs a × Encodes ys b
Encodes-split [] ys s e = ([], s, refl, end, e)
Encodes-split (x ∷ xs) ys s (next {bs = bs} {t = t} q split e) =
    let (a, b, both, first, second) = Encodes-split xs ys t e in
    (
      bs ++ a,
      b,
      split ∙ ap (λ u. bs ++ u) both ∙ sym (append_assoc bs a b),
      next q refl first,
      second,
    )

Encodes-NonEmpty : {c : ℕ} {cs : List ℕ} {s : Bytes} → Encodes (c ∷ cs) s → NonEmpty s
Encodes-NonEmpty (next {c = c} {bs = bs} {t = t} q split e) =
    let more : length (bs ++ t) ≡ length bs + length t = length-append bs t in
    let some_byte : 0 < length bs = unfold encode_utf8 in ground arith in rw split (omega arith)

encoded : {cs : List ℕ} {s : Bytes} → Encodes cs s → codepoints_utf8 cs ≡ ok s
unfolding codepoints_utf8
encoded e = append_all-Encodes [] e

encode_pieces_step :
    (piece : List ℕ) (pieces : List (List ℕ)) (a : Bytes) (texts : List Bytes)
    → codepoints_utf8 piece ≡ ok a
    → encode_pieces pieces ≡ ok texts
    → encode_pieces (piece ∷ pieces) ≡ ok (a ∷ texts)
unfolding encode_pieces
encode_pieces_step piece pieces a texts p q = ground arith

no_bytes : {cs : List ℕ} {s : Bytes} {b : ℕ} {t : Bytes} → Encodes cs s → cs ≡ [] → s ≡ b ∷ t → ⊥
no_bytes end p q = cc
no_bytes (next r split e) p q = cc

encode_pieces-concat :
    (pieces : List (List ℕ)) (s : Bytes)
    → Encodes (concat pieces) s
    → All NonEmpty pieces
    → (texts : List Bytes) × (encode_pieces pieces ≡ ok texts)
      × (concat texts ≡ s)
      × All NonEmpty texts
unfolding encode_pieces
encode_pieces-concat [] [] e h = ([], refl, refl, tt)
encode_pieces-concat [] (b ∷ s) e h = absurd (no_bytes e refl refl)
encode_pieces-concat ([] ∷ pieces) s e (h, hs) = absurd (omega arith)
encode_pieces-concat ((c ∷ cs) ∷ pieces) s e (h, hs) =
    let (a, b, both, first, second) = Encodes-split (c ∷ cs) (concat pieces) s e in
    let (texts, q, whole, parts) = encode_pieces-concat pieces b second hs in
    (
      a ∷ texts,
      encode_pieces_step (c ∷ cs) pieces a texts (encoded first) q,
      ap (λ u. a ++ u) whole ∙ sym both,
      (Encodes-NonEmpty first, parts),
    )

decoded : {cs : List ℕ} {s : Bytes} → valid_utf8 s ≡ true → Encodes cs s → utf8_codepoints s ≡ ok cs
unfolding utf8_codepoints
decoded valid e = rw valid (ap ok (decode-Encodes e))

pretokenize_step :
    (tables : UnicodeData) (s : Bytes) (cs : List ℕ)
    → utf8_codepoints s ≡ ok cs
    → qwen35_pretokenize tables s ≡ encode_pieces (split_pieces tables (length cs) cs)
unfolding qwen35_pretokenize
pretokenize_step tables s cs e = rw (e, qwen35_pretokenize) refl

-- A valid byte string is split into non-empty pieces that are the byte string when they are put
-- together again in order, whatever the tables hold: no round fails, and none takes nothing.
pub qwen35_pretokenize-concat :
    (tables : UnicodeData) (s : Bytes)
    → All IsByte s
    → valid_utf8 s ≡ true
    → (texts : List Bytes) × (qwen35_pretokenize tables s ≡ ok texts)
      × (concat texts ≡ s)
      × All NonEmpty texts
qwen35_pretokenize-concat tables s b valid =
    let (cs, encodes) = (valid_utf8_iff s b).0 valid in
    let (whole, parts) = split_pieces-concat tables (length cs) cs (omega arith) in
    let again : Encodes (concat (split_pieces tables (length cs) cs)) s =
      subst (λ l. Encodes l s) (sym whole) encodes in
    let (texts, q, joined, non_empty) =
      encode_pieces-concat (split_pieces tables (length cs) cs) s again parts in
    (texts, pretokenize_step tables s cs (decoded valid encodes) ∙ q, joined, non_empty)
