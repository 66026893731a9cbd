-- ===== src/Unicode/Normalize.antt =====
-- src/unicode.cpp: `normalize_nfc`. The decomposed code points are an array in the source; here what
-- is in front of the position is held in reverse where the loop walks back over it.
pub mod Order
pub mod Kept
pub mod Canonical
pub mod Hangul
use adi.Base.{
  ℕ, zero, suc, ◌+◌, Bool, true, false, not, ◌&&◌, ◌||◌, List, [], ◌∷◌, ◌++◌, leb, ltb, ◌==◌,
  if◌then◌else◌, length, set,
}
use mathlib.Core.List.{reverse}
use adi.Base.Result.{Result, ok, err, ◌>>=◌}
use adi.Utf8.{Bytes}
use adi.Unicode.{utf8_codepoints, codepoints_utf8}
use adi.Unicode.Data.{UnicodeData, combining_class_of, compose_pair, decomposed_of}

pub decompose : UnicodeData → List ℕ → List ℕ
decompose tables [] = []
decompose tables (codepoint ∷ rest) = decomposed_of tables codepoint ++ decompose tables rest

-- The inner loop: `codepoint` is swapped back over those of a greater class.
unfoldable pub swap_back : UnicodeData → ℕ → List ℕ → List ℕ
swap_back tables codepoint [] = codepoint ∷ []
swap_back tables codepoint (previous ∷ before) =
    let previous_class = combining_class_of tables previous in
    if previous_class == 0 || leb previous_class (combining_class_of tables codepoint)
    then codepoint ∷ previous ∷ before
    else previous ∷ swap_back tables codepoint before

-- One round of the outer loop.
unfoldable pub insert_ordered : UnicodeData → ℕ → List ℕ → List ℕ
insert_ordered tables codepoint before =
    if combining_class_of tables codepoint == 0
    then codepoint ∷ before
    else swap_back tables codepoint before

-- The outer loop; `before` is what is ordered, in reverse.
unfoldable pub order_from : UnicodeData → List ℕ → List ℕ → List ℕ
order_from tables before [] = before
order_from tables before (codepoint ∷ rest) =
    order_from tables (insert_ordered tables codepoint before) rest

unfoldable pub canonical_order : UnicodeData → List ℕ → List ℕ
canonical_order tables decomposed = reverse (order_from tables [] decomposed)

pub record Composition : Type 0 where
  pub composed : List ℕ
  pub starter_position : ℕ
  pub starter : ℕ
  pub previous_class : ℕ

-- One round of the composing loop.
pub compose_step : UnicodeData → Composition → ℕ → Composition
compose_step tables s codepoint =
    let current_class = combining_class_of tables codepoint in
    let combined =
      if s.previous_class == 0 || ltb s.previous_class current_class
      then compose_pair tables s.starter codepoint
      else 0 in
    if not (combined == 0)
    then record s { composed = set s.composed s.starter_position combined; starter = combined }
    else record {
      composed = s.composed ++ codepoint ∷ [];
      starter_position = if current_class == 0 then length s.composed else s.starter_position;
      starter = if current_class == 0 then codepoint else s.starter;
      previous_class = current_class;
    }

pub compose_from : UnicodeData → Composition → List ℕ → Composition
compose_from tables s [] = s
compose_from tables s (codepoint ∷ rest) =
    compose_from tables (compose_step tables s codepoint) rest

pub compose : UnicodeData → List ℕ → List ℕ
compose tables [] = []
compose tables (first ∷ rest) =
    (compose_from tables
      (record { composed = first ∷ []; starter_position = 0; starter = first; previous_class = 0 })
      rest).composed

pub data NormalizeError : Type 0 where
  invalid_text : NormalizeError
  not_a_scalar : NormalizeError

unfoldable pub normalize_nfc : UnicodeData → Bytes → Result NormalizeError Bytes
normalize_nfc tables text = elim (utf8_codepoints text) [
  | err e ↦ err invalid_text
  | ok source ↦
      elim (codepoints_utf8 (compose tables (canonical_order tables (decompose tables source)))) [
        | err e ↦ err not_a_scalar
        | ok normalized ↦ ok normalized
      ]
]
