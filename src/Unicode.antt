-- ===== src/Unicode.antt =====
-- src/unicode.cpp, src/unicode.hpp: the two conversions between UTF-8 text and code points that
-- every other part goes through. The tables of properties, case folding and normalisation are
-- generated data and stay outside.
pub mod RoundTrip
pub mod Data
pub mod Pretokenize
pub mod Normalize
use adi.Base.{
  ℕ, zero, suc, ◌+◌, ◌-◌, ◌≤◌, ◌<◌, Bool, true, false, List, [], ◌∷◌, ◌++◌, leb, if◌then◌else◌,
  bit_and, bit_or,
}
use adi.Base.Bits.{shl}
use adi.Base.Result.{Result, ok, err, ◌>>=◌}
use adi.Utf8.{Bytes, Utf8Error, append_utf8, valid_utf8}

-- The bytes that follow a first byte above 0x7F, and the bits that the first byte gives.
pub continuation_count : ℕ → ℕ
continuation_count first = if leb first 0xDF then 1 else if leb first 0xEF then 2 else 3

pub first_bits : ℕ → ℕ
first_bits first =
    if leb first 0xDF
    then bit_and first 0x1F
    else if leb first 0xEF
    then bit_and first 0x0F
    else bit_and first 0x07

-- The loop over the text. `pending` bytes of the sequence at hand are still to be read, whose bits
-- so far are `codepoint`.
unfoldable pub decode_from : ℕ → ℕ → Bytes → List ℕ
decode_from pending codepoint [] = []
decode_from zero codepoint (first ∷ rest) = elim (leb first 0x7F) [
  | true ↦ first ∷ decode_from 0 0 rest
  | false ↦ decode_from (continuation_count first) (first_bits first) rest
]
decode_from (suc pending) codepoint (byte ∷ rest) =
    let codepoint' = bit_or (shl codepoint 6) (bit_and byte 0x3F) in
    elim pending [
      | zero ↦ codepoint' ∷ decode_from 0 0 rest
      | suc more ↦ decode_from (suc more) codepoint' rest
    ]

pub data UnicodeError : Type 0 where
  invalid_utf8 : UnicodeError

unfoldable pub utf8_codepoints : Bytes → Result UnicodeError (List ℕ)
utf8_codepoints text = if valid_utf8 text then ok (decode_from 0 0 text) else err invalid_utf8

unfoldable pub append_all : Bytes → List ℕ → Result Utf8Error Bytes
append_all result [] = ok result
append_all result (codepoint ∷ codepoints) =
    append_utf8 result codepoint >>= λ result'. append_all result' codepoints

unfoldable pub codepoints_utf8 : List ℕ → Result Utf8Error Bytes
codepoints_utf8 codepoints = append_all [] codepoints
