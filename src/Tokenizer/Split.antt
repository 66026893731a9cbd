-- ===== src/Tokenizer/Split.antt =====
-- src/tokenizer.cpp: the split of a text at its special tokens.
pub mod Whole
use adi.Base.{
  ℕ, zero, suc, ◌+◌, Bool, true, false, List, [], ◌∷◌, ◌++◌, Option, none, some, ltb, ◌==◌,
  if◌then◌else◌, length, drop,
}
use adi.Base.Result.{Result, ok, err, ◌>>=◌}
use adi.ToolCall.Calls.{find_text}
use adi.Unicode.Data.{UnicodeData}
use package.adi.Tokenizer.{Text, TokenizerError, Vocabulary}
use package.adi.Tokenizer.Cache.{TokenCache, encode_normal}

-- A part of the text that is encoded on its own, or a special token.
pub data Segment : Type 0 where
  normal : Text → Segment
  special : Text → ℕ → Segment

-- The text in front of a special token, the token's text, and its id.
abbrev pub Occurrence : Type 0
Occurrence = Text × Text × ℕ

-- The earlier of two occurrences, the first of two at the same place.
pub earlier : Option Occurrence → Option Occurrence → Option Occurrence
earlier none other = other
earlier (some best) none = some best
earlier (some (front, text, id)) (some (front', text', id')) =
    if ltb (length front') (length front) then some (front', text', id') else some (front, text, id)

pub occurrence_of : Text → Text × ℕ → Option Occurrence
occurrence_of text (candidate, id) = elim (find_text candidate text) [
  | none ↦ none
  | some (front, found) ↦ some (front, candidate, id)
]

-- The loop over the special tokens.
pub first_special : Text → Option Occurrence → List (Text × ℕ) → Option Occurrence
first_special text best [] = best
first_special text best (candidate ∷ candidates) =
    first_special text (earlier best (occurrence_of text candidate)) candidates

abbrev pub normal_segment : Text → List Segment → List Segment
normal_segment text segments = if length text == 0 then segments else normal text ∷ segments

-- The rounds of the loop over the text, at most `fuel` of them.
pub segments_from : List (Text × ℕ) → ℕ → Text → List Segment
segments_from specials fuel [] = []
segments_from specials zero (c ∷ text) = []
segments_from specials (suc fuel) (c ∷ text) = elim (first_special (c ∷ text) none specials) [
  | none ↦ normal (c ∷ text) ∷ []
  | some (front, token, id) ↦ normal_segment front (
      special token id
      ∷ segments_from specials fuel (drop (length front + length token) (c ∷ text)))
]

-- A special token that is not empty takes a byte at least.
pub segments : List (Text × ℕ) → Text → List Segment
segments specials text = segments_from specials (length text) text

module _ (merge : List ℕ → List ℕ) (vocabulary : Vocabulary) (tables : UnicodeData) where
  pub encode_segments :
      List Segment → List ℕ → TokenCache → Result TokenizerError (List ℕ × TokenCache)
  encode_segments [] output cache = ok (output, cache)
  encode_segments (normal text ∷ rest) output cache = do
    (longer, later) ← encode_normal merge vocabulary tables text output cache
    encode_segments rest longer later
  encode_segments (special text id ∷ rest) output cache =
      encode_segments rest (output ++ id ∷ []) cache

  pub encode : Text → TokenCache → Result TokenizerError (List ℕ × TokenCache)
  encode text cache = encode_segments (segments (vocabulary.special_tokens) text) [] cache
