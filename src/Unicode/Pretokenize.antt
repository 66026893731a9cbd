-- ===== src/Unicode/Pretokenize.antt =====
-- src/unicode.cpp: the split of a text into the pieces that are merged on their own. The position
-- is the code points that are left; a round says how many of them its piece takes.
pub mod Pieces
use adi.Base.{
  ℕ, zero, suc, ◌+◌, ◌-◌, Bool, true, false, not, ◌&&◌, ◌||◌, List, [], ◌∷◌, ◌==◌, ltb,
  if◌then◌else◌, length, take, drop,
}
use adi.Base.Result.{Result, ok, err, ◌>>=◌}
use adi.Utf8.{Bytes}
use adi.Unicode.{utf8_codepoints, codepoints_utf8}
use adi.Unicode.Data.{
  UnicodeData, UnicodeProperties, unicode_properties, no_properties, contraction_char,
}

-- `properties(position)`: none beyond the end.
abbrev pub head_properties : UnicodeData → List ℕ → UnicodeProperties
head_properties tables [] = no_properties
head_properties tables (c ∷ cs) = unicode_properties tables c

abbrev pub is_break : ℕ → Bool
is_break c = c == 0x0D || c == 0x0A

-- The length of the contraction at the code points behind an apostrophe, 0 if there is none.
pub contraction_tail : UnicodeData → List ℕ → ℕ
contraction_tail tables [] = 0
contraction_tail tables (c ∷ cs) =
    if contraction_char tables c b's'
      || (contraction_char tables c b't'
          || (contraction_char tables c b'm' || contraction_char tables c b'd'))
    then 1
    else elim cs [
      | [] ↦ 0
      | d ∷ rest ↦
          if contraction_char tables c b'r' && contraction_char tables d b'e'
            || (contraction_char tables c b'v' && contraction_char tables d b'e'
                || contraction_char tables c b'l' && contraction_char tables d b'l')
          then 2
          else 0
    ]

-- How many code points at the front pass the test.
pub run_length : (ℕ → Bool) → List ℕ → ℕ
run_length test [] = 0
run_length test (c ∷ cs) = if test c then suc (run_length test cs) else 0

abbrev pub is_word : UnicodeData → ℕ → Bool
is_word tables c = let p = unicode_properties tables c in p.letter || p.mark

abbrev pub is_punctuation : UnicodeData → ℕ → Bool
is_punctuation tables c =
    let p = unicode_properties tables c in
    not p.whitespace && (not p.letter && (not p.mark && not p.number))

abbrev pub is_space : UnicodeData → ℕ → Bool
is_space tables c = (unicode_properties tables c).whitespace

-- A letter may stand behind any code point that is no break, letter or number.
pub optional_letter_prefix : UnicodeData → ℕ → List ℕ → Bool
optional_letter_prefix tables c cs =
    let flags = unicode_properties tables c in
    let next = head_properties tables cs in
    not (is_break c) && (not flags.letter && (not flags.number && (next.letter || next.mark)))

-- Punctuation and the breaks behind it.
pub punctuation_length : UnicodeData → List ℕ → ℕ
punctuation_length tables cs =
    let count = run_length (is_punctuation tables) cs in count + run_length is_break (drop count cs)

abbrev pub head_is_punctuation : UnicodeData → List ℕ → Bool
head_is_punctuation tables [] = false
head_is_punctuation tables (c ∷ cs) = is_punctuation tables c

-- `last_newline_end`: how many code points of the blanks at the front the last break ends, 0 if
-- there is no break.
pub last_newline_end : UnicodeData → List ℕ → ℕ
last_newline_end tables [] = 0
last_newline_end tables (c ∷ cs) =
    if is_space tables c
    then (let later = last_newline_end tables cs in
        if later == 0 then (if is_break c then 1 else 0) else suc later)
    else 0

pub space_length : UnicodeData → List ℕ → ℕ
space_length tables cs =
    let whitespace_count = run_length (is_space tables) cs in
    let newline_end = last_newline_end tables cs in
    if not (newline_end == 0)
    then newline_end
    else if ltb 1 whitespace_count && ltb whitespace_count (length cs)
    then whitespace_count - 1
    else if not (whitespace_count == 0)
    then whitespace_count
    else 1

pub plain_length : UnicodeData → ℕ → List ℕ → ℕ
plain_length tables c cs =
    let flags = unicode_properties tables c in
    let prefix = optional_letter_prefix tables c cs in
    if flags.letter || (flags.mark || prefix)
    then (if prefix
        then suc (run_length (is_word tables) cs)
        else run_length (is_word tables) (c ∷ cs))
    else if flags.number
    then 1
    else if c == 0x20 && head_is_punctuation tables cs
    then suc (punctuation_length tables cs)
    else if not (c == 0x20) && is_punctuation tables c
    then punctuation_length tables (c ∷ cs)
    else space_length tables (c ∷ cs)

-- One round, at the code point `c`.
pub piece_length : UnicodeData → ℕ → List ℕ → ℕ
piece_length tables c cs =
    let contraction = if c == 0x27 then contraction_tail tables cs else 0 in
    if contraction == 0 then plain_length tables c cs else suc contraction

pub split_pieces : UnicodeData → ℕ → List ℕ → List (List ℕ)
split_pieces tables rounds [] = []
split_pieces tables zero (c ∷ cs) = []
split_pieces tables (suc rounds) (c ∷ cs) =
    let count = piece_length tables c cs in
    take count (c ∷ cs) ∷ split_pieces tables rounds (drop count (c ∷ cs))

pub data PretokenizeError : Type 0 where
  invalid_text : PretokenizeError
  not_a_scalar : PretokenizeError

-- `add` for each piece
pub encode_pieces : List (List ℕ) → Result PretokenizeError (List Bytes)
encode_pieces [] = ok []
encode_pieces (piece ∷ pieces) = elim (codepoints_utf8 piece) [
  | err e ↦ err not_a_scalar
  | ok text ↦ encode_pieces pieces >>= λ texts. ok (text ∷ texts)
]

pub qwen35_pretokenize : UnicodeData → Bytes → Result PretokenizeError (List Bytes)
qwen35_pretokenize tables normalized_text = elim (utf8_codepoints normalized_text) [
  | err e ↦ err invalid_text
  | ok codepoints ↦ encode_pieces (split_pieces tables (length codepoints) codepoints)
]
