-- ===== src/Unicode/Data.antt =====
-- src/unicode.cpp: the searches in the Unicode tables, and the Hangul arithmetic. The tables of
-- src/unicode_data.inc are generated, and are arguments here.
use adi.Base.{
  ℕ, ◌+◌, ◌-◌, ◌*◌, ◌/◌, ◌%◌, Bool, false, not, ◌&&◌, ◌||◌, List, [], ◌∷◌, ltb, leb, ◌==◌,
  if◌then◌else◌, take, drop, bit_and,
}

pub record PropertyRange : Type 0 where
  pub first : ℕ
  pub flags : ℕ

pub record CombiningRange : Type 0 where
  pub first : ℕ
  pub combining_class : ℕ

pub record CasefoldEntry : Type 0 where
  pub source : ℕ
  pub target : ℕ

pub record DecompositionEntry : Type 0 where
  pub codepoint : ℕ
  pub offset : ℕ
  pub length : ℕ

pub record CompositionEntry : Type 0 where
  pub first : ℕ
  pub second : ℕ
  pub composed : ℕ

pub record UnicodeData : Type 0 where
  pub property_ranges : List PropertyRange
  pub combining_ranges : List CombiningRange
  pub casefold_entries : List CasefoldEntry
  pub decompositions : List DecompositionEntry
  pub decomposition_values : List ℕ
  pub compositions : List CompositionEntry

pub record UnicodeProperties : Type 0 where
  pub letter : Bool
  pub number : Bool
  pub mark : Bool
  pub whitespace : Bool

-- The flags of the last range that begins at the code point or before it; `flags` is that of the
-- range before. The ranges are in ascending order, the first one at 0.
pub flags_from : ℕ → ℕ → List PropertyRange → ℕ
flags_from codepoint flags [] = flags
flags_from codepoint flags (range ∷ ranges) =
    if ltb codepoint range.first then flags else flags_from codepoint range.flags ranges

unfoldable pub class_from : ℕ → ℕ → List CombiningRange → ℕ
class_from codepoint class [] = class
class_from codepoint class (range ∷ ranges) =
    if ltb codepoint range.first then class else class_from codepoint range.combining_class ranges

unfoldable pub combining_class_of : UnicodeData → ℕ → ℕ
combining_class_of tables codepoint = class_from codepoint 0 tables.combining_ranges

abbrev pub no_properties : UnicodeProperties
no_properties = record { letter = false; number = false; mark = false; whitespace = false }

abbrev pub has_flag : ℕ → ℕ → Bool
has_flag flags flag = not (bit_and flags flag == 0)

pub unicode_properties : UnicodeData → ℕ → UnicodeProperties
unicode_properties tables codepoint =
    if ltb 0x10FFFF codepoint
    then no_properties
    else (let flags = flags_from codepoint 0 tables.property_ranges in
        record {
          letter = has_flag flags 1;
          number = has_flag flags 2;
          mark = has_flag flags 4;
          whitespace = has_flag flags 8;
        })

-- The entries are in ascending order: the first one that is not below the code point decides.
pub casefold_from : ℕ → List CasefoldEntry → ℕ
casefold_from codepoint [] = codepoint
casefold_from codepoint (entry ∷ entries) =
    if ltb entry.source codepoint
    then casefold_from codepoint entries
    else if entry.source == codepoint
    then entry.target
    else codepoint

pub unicode_casefold : UnicodeData → ℕ → ℕ
unicode_casefold tables codepoint = casefold_from codepoint tables.casefold_entries

pub contraction_char : UnicodeData → ℕ → ℕ → Bool
contraction_char tables codepoint expected = unicode_casefold tables codepoint == expected

-- `std::pair{first, second}` below another pair
abbrev pub pair_below : ℕ → ℕ → ℕ → ℕ → Bool
pair_below a b c d = ltb a c || a == c && ltb b d

pub composition_from : ℕ → ℕ → List CompositionEntry → ℕ
composition_from first second [] = 0
composition_from first second (entry ∷ entries) =
    if pair_below entry.first entry.second first second
    then composition_from first second entries
    else if entry.first == first && entry.second == second
    then entry.composed
    else 0

abbrev pub s_base : ℕ
s_base = 0xAC00

abbrev pub l_base : ℕ
l_base = 0x1100

abbrev pub v_base : ℕ
v_base = 0x1161

abbrev pub t_base : ℕ
t_base = 0x11A7

abbrev pub l_count : ℕ
l_count = 19

abbrev pub v_count : ℕ
v_count = 21

abbrev pub t_count : ℕ
t_count = 28

abbrev pub n_count : ℕ
n_count = 588

abbrev pub s_count : ℕ
s_count = 11172

unfoldable pub compose_pair : UnicodeData → ℕ → ℕ → ℕ
compose_pair tables first second =
    if (leb l_base first && ltb first (l_base + l_count))
      && (leb v_base second && ltb second (v_base + v_count))
    then s_base + (first - l_base) * n_count + (second - v_base) * t_count
    else if (leb s_base first && ltb first (s_base + s_count))
        && ((first - s_base) % t_count == 0 && (ltb t_base second && ltb second (t_base + t_count)))
    then first + second - t_base
    else composition_from first second tables.compositions

pub decomposition_from : ℕ → List ℕ → List DecompositionEntry → List ℕ
decomposition_from codepoint values [] = codepoint ∷ []
decomposition_from codepoint values (entry ∷ entries) =
    if ltb entry.codepoint codepoint
    then decomposition_from codepoint values entries
    else if entry.codepoint == codepoint
    then take entry.length (drop entry.offset values)
    else codepoint ∷ []

-- What `append_decomposed` appends.
unfoldable pub decomposed_of : UnicodeData → ℕ → List ℕ
decomposed_of tables codepoint =
    if leb s_base codepoint && ltb codepoint (s_base + s_count)
    then (let index = codepoint - s_base in
        let lead = l_base + index / n_count in
        let vowel = v_base + index % n_count / t_count in
        if index % t_count == 0
        then lead ∷ vowel ∷ []
        else lead ∷ vowel ∷ (t_base + index % t_count) ∷ [])
    else decomposition_from codepoint tables.decomposition_values tables.decompositions
