-- ===== src/Json/Lexer.antt =====
-- src/json.cpp: the parser's reads of blanks, literals, strings and numbers. The parser's position is
-- the input that is left; the byte offset in its messages is left out.
use adi.Base.{
  ℕ, zero, suc, ◌+◌, ◌-◌, Bool, true, false, not, ◌||◌, ◌&&◌, [], ◌∷◌, ◌++◌, Option, none, some,
  ltb, leb, ◌==◌, if◌then◌else◌, length, list_eq, take, drop, bit_or,
}
use adi.Base.Result.{Result, ok, err, ◌>>=◌, ◌>>◌, guard}
use adi.Base.Bits.{shl}
use adi.Utf8.{Bytes, valid_utf8, append_utf8}
use adi.Json.Value.{Charconv, is_finite}

pub data JsonError : Type 0 where
  trailing_data : JsonError
  expected_value : JsonError
  nesting_exceeds_limit : JsonError
  invalid_literal : JsonError
  truncated_unicode_escape : JsonError
  invalid_unicode_escape : JsonError
  expected_string : JsonError
  invalid_utf8_in_string : JsonError
  control_character : JsonError
  truncated_escape : JsonError
  missing_low_surrogate : JsonError
  invalid_low_surrogate : JsonError
  unpaired_low_surrogate : JsonError
  invalid_escape : JsonError
  not_a_scalar : JsonError
  unterminated_string : JsonError
  invalid_number : JsonError
  invalid_fraction : JsonError
  invalid_exponent : JsonError
  expected_bracket : JsonError
  expected_key : JsonError
  expected_colon : JsonError
  duplicate_key : JsonError
  expected_brace : JsonError
  -- no error of the program: a loop of the model ran out of rounds
  out_of_fuel : JsonError

abbrev pub is_blank : ℕ → Bool
is_blank c = c == 0x20 || (c == 0x09 || (c == 0x0D || c == 0x0A))

unfoldable pub whitespace : Bytes → Bytes
whitespace [] = []
whitespace (c ∷ rest) = if is_blank c then whitespace rest else c ∷ rest

-- Whether the next byte is `value`.
unfoldable pub next_is : ℕ → Bytes → Bool
next_is value [] = false
next_is value (c ∷ rest) = c == value

-- `take`: behind blanks, the byte if it is there.
unfoldable pub take_byte : ℕ → Bytes → Bool × Bytes
take_byte value rest =
    let next = whitespace rest in if next_is value next then (true, drop 1 next) else (false, next)

-- `literal`: the text, at the position.
unfoldable pub literal : Bytes → Bytes → Result JsonError Bytes
literal value rest =
    if list_eq (take (length value) rest) value
    then ok (drop (length value) rest)
    else err invalid_literal

unfoldable pub hex_digit : ℕ → Option ℕ
hex_digit c =
    if leb b'0' c && leb c b'9'
    then some (c - b'0')
    else if leb b'a' c && leb c b'f'
    then some (c - b'a' + 10)
    else if leb b'A' c && leb c b'F'
    then some (c - b'A' + 10)
    else none

unfoldable pub hex_digits : ℕ → ℕ → Bytes → Result JsonError (ℕ × Bytes)
hex_digits zero value rest = ok (value, rest)
hex_digits (suc count) value [] = err truncated_unicode_escape
hex_digits (suc count) value (c ∷ rest) = elim (hex_digit c) [
  | none ↦ err invalid_unicode_escape
  | some digit ↦ hex_digits count (bit_or (shl value 4) digit) rest
]

unfoldable pub hex4 : Bytes → Result JsonError (ℕ × Bytes)
hex4 rest = if ltb (length rest) 4 then err truncated_unicode_escape else hex_digits 4 0 rest

-- The value of a \u escape, with the low surrogate that a high one needs.
unfoldable pub unicode_escape : Bytes → Result JsonError (ℕ × Bytes)
unicode_escape rest = do
  (first, after) ← hex4 rest
  if leb 0xD800 first && leb first 0xDBFF
      then (do
        guard (list_eq (take 2 after) (0x5C ∷ b'u' ∷ [])) missing_low_surrogate
        (low, last) ← hex4 (drop 2 after)
        guard (not (ltb low 0xDC00 || ltb 0xDFFF low)) invalid_low_surrogate
        ok (0x10000 + shl (first - 0xD800) 10 + (low - 0xDC00), last))
      else (if leb 0xDC00 first && leb first 0xDFFF
          then err unpaired_low_surrogate
          else ok (first, after))

-- The byte that a one-letter escape stands for.
unfoldable pub simple_escape : ℕ → Option ℕ
simple_escape c =
    if c == 0x22
    then some 0x22
    else if c == 0x5C
    then some 0x5C
    else if c == b'/'
    then some b'/'
    else if c == b'b'
    then some 0x08
    else if c == b'f'
    then some 0x0C
    else if c == b'n'
    then some 0x0A
    else if c == b'r'
    then some 0x0D
    else if c == b't'
    then some 0x09
    else none

-- A round of the loop over a string's bytes: the text read so far and the input that is left.
pub data StringRound : Type 0 where
  closed : Bytes → Bytes → StringRound
  more : Bytes → Bytes → StringRound

unfoldable pub appended : Bytes → ℕ → Bytes → Result JsonError StringRound
appended result codepoint rest = elim (append_utf8 result codepoint) [
  | ok longer ↦ ok (more longer rest)
  | err e ↦ err not_a_scalar
]

unfoldable pub escape_round : Bytes → Bytes → Result JsonError StringRound
escape_round result [] = err truncated_escape
escape_round result (c ∷ rest) = elim (simple_escape c) [
  | some byte ↦ ok (more (result ++ byte ∷ []) rest)
  | none ↦
      if c == b'u'
      then (unicode_escape rest >>= λ (codepoint, after). appended result codepoint after)
      else err invalid_escape
]

unfoldable pub string_round : Bytes → ℕ → Bytes → Result JsonError StringRound
string_round result c rest =
    if c == 0x22
    then (if valid_utf8 result then ok (closed result rest) else err invalid_utf8_in_string)
    else if ltb c 0x20
    then err control_character
    else if not (c == 0x5C)
    then ok (more (result ++ c ∷ []) rest)
    else escape_round result rest

unfoldable pub string_loop : ℕ → Bytes → Bytes → Result JsonError (Bytes × Bytes)
string_loop fuel result [] = err unterminated_string
string_loop zero result (c ∷ rest) = err out_of_fuel
string_loop (suc fuel) result (c ∷ rest) = string_round result c rest >>= elim [
  | closed text after ↦ ok (text, after)
  | more longer after ↦ string_loop fuel longer after
]

-- Each round takes a byte at least.
unfoldable pub parse_string : Bytes → Result JsonError (Bytes × Bytes)
parse_string rest =
    let (found, after) = take_byte 0x22 rest in
    if found then string_loop (length after) [] after else err expected_string

abbrev pub is_digit : ℕ → Bool
is_digit c = leb b'0' c && leb c b'9'

unfoldable pub head_is_digit : Bytes → Bool
head_is_digit [] = false
head_is_digit (c ∷ rest) = is_digit c

unfoldable pub digits : Bytes → Bytes
digits [] = []
digits (c ∷ rest) = if is_digit c then digits rest else c ∷ rest

-- The input behind a number's integer part, fraction and exponent.
unfoldable pub skip_integer : Bytes → Result JsonError Bytes
skip_integer rest =
    let unsigned = if next_is b'-' rest then drop 1 rest else rest in
    do
      guard (head_is_digit unsigned) invalid_number
      ok (if next_is b'0' unsigned then drop 1 unsigned else digits unsigned)

unfoldable pub skip_fraction : Bytes → Result JsonError Bytes
skip_fraction rest =
    if next_is b'.' rest
    then guard (head_is_digit (drop 1 rest)) invalid_fraction >> ok (digits (drop 1 rest))
    else ok rest

unfoldable pub skip_exponent : Bytes → Result JsonError Bytes
skip_exponent rest =
    if next_is b'e' rest || next_is b'E' rest
    then (let signed = drop 1 rest in
        let unsigned =
          if next_is b'+' signed || next_is b'-' signed then drop 1 signed else signed in
        guard (head_is_digit unsigned) invalid_exponent >> ok (digits unsigned))
    else ok rest

-- The text between two positions of the input.
abbrev pub between_positions : Bytes → Bytes → Bytes
between_positions from to = take (length from - length to) from

unfoldable pub parse_number : Charconv → Bytes → Result JsonError (ℕ × Bytes)
parse_number c rest =
    let begin = whitespace rest in
    do
      p ← skip_integer begin
      q ← skip_fraction p
      r ← skip_exponent q
      elim (c.from_chars (between_positions begin r)) [
        | none ↦ err invalid_number
        | some value ↦ if is_finite value then ok (value, r) else err invalid_number
      ]
