-- ===== src/Utf8.antt =====
-- src/utf8.cpp, src/utf8.hpp: the UTF-8 scanner, the validity test, the repair of ill-formed
-- text and the encoder of one code point. A byte string is a list of numbers below 256.
pub mod Sequence
pub mod Rounds
pub mod Sound
pub mod Text
pub mod Scan
pub mod Repair
pub mod Fuel
use adi.Base.{
  ℕ, zero, suc, ◌+◌, ◌-◌, ◌<◌, Bool, true, false, not, ◌&&◌, ◌||◌, List, [], ◌∷◌, ◌++◌, Option,
  none, some, ltb, leb, ◌==◌, between, if◌then◌else◌, bit_and, bit_or, length, take, drop,
}
use adi.Base.Bits.{shl, shr}
use adi.Base.Result.{Result, ok, err}

abbrev pub Bytes : Type 0
Bytes = List ℕ

abbrev pub IsByte : ℕ → Type 0
IsByte b = b < 256

abbrev pub replacement : Bytes
replacement = 0xEF ∷ 0xBF ∷ 0xBD ∷ []

pub data Utf8Status : Type 0 where
  valid incomplete invalid : Utf8Status

pub record Utf8Scan : Type 0 where
  pub status : Utf8Status
  pub valid_prefix : ℕ
  pub error_length : ℕ

-- What the first byte of a longer sequence announces.
pub record Lead : Type 0 where
  pub length : ℕ
  pub codepoint : ℕ
  pub minimum : ℕ

unfoldable pub lead_of : ℕ → Option Lead
lead_of first =
    if between 0xC2 0xDF first
    then some (record { length = 2; codepoint = bit_and first 0x1F; minimum = 0x80 })
    else if between 0xE0 0xEF first
    then some (record { length = 3; codepoint = bit_and first 0x0F; minimum = 0x800 })
    else if between 0xF0 0xF4 first
    then some (record { length = 4; codepoint = bit_and first 0x07; minimum = 0x10000 })
    else none

-- `(byte & 0xC0U) == 0x80U`
abbrev pub is_continuation : ℕ → Bool
is_continuation byte = bit_and byte 0xC0 == 0x80

unfoldable pub all_continuation : Bytes → Bool
all_continuation [] = true
all_continuation (byte ∷ rest) = is_continuation byte && all_continuation rest

-- The loop over the continuation bytes: `count` of them, from the front of `rest`.
unfoldable pub continue_codepoint : ℕ → ℕ → Bytes → Option ℕ
continue_codepoint zero codepoint rest = some codepoint
continue_codepoint (suc count) codepoint [] = none
continue_codepoint (suc count) codepoint (byte ∷ rest) =
    let more = continue_codepoint count (bit_or (shl codepoint 6) (bit_and byte 0x3F)) rest in
    if is_continuation byte then more else none

unfoldable pub is_scalar_from : ℕ → ℕ → Bool
is_scalar_from minimum codepoint =
    not (ltb codepoint minimum || ltb 0x10FFFF codepoint || between 0xD800 0xDFFF codepoint)

-- One round of the scanning loop: step over a sequence, or return.
pub data Round : Type 0 where
  advance : ℕ → Round
  stop : Utf8Status → ℕ → Round

-- The round at a first byte above 0x7F; `rest` is the input behind that byte.
unfoldable pub scan_sequence : Lead → Bytes → Round
scan_sequence lead rest =
    if ltb (suc (length rest)) lead.length
    then (if all_continuation rest then stop incomplete (suc (length rest)) else stop invalid 1)
    else elim (continue_codepoint (lead.length - 1) lead.codepoint rest) [
      | none ↦ stop invalid 1
      | some codepoint ↦
          if is_scalar_from lead.minimum codepoint
          then advance lead.length
          else stop invalid lead.length
    ]

unfoldable pub scan_round : ℕ → Bytes → Round
scan_round first rest =
    if leb first 0x7F
    then advance 1
    else elim (lead_of first) [ none ↦ stop invalid 1 | some lead ↦ scan_sequence lead rest ]

-- The loop from `position` on. `skip` bytes at the front belong to the sequence that the last round
-- stepped over (`position` already counts them).
unfoldable pub scan_from : ℕ → ℕ → Bytes → Utf8Scan
scan_from skip position [] = record { status = valid; valid_prefix = position; error_length = 0 }
scan_from (suc skip) position (byte ∷ rest) = scan_from skip position rest
scan_from zero position (first ∷ rest) = elim (scan_round first rest) [
  | advance length ↦ scan_from (length - 1) (position + length) rest
  | stop status error_length ↦ record {
    status = status;
    valid_prefix = position;
    error_length = error_length;
  }
]

unfoldable pub scan_utf8 : Bytes → Utf8Scan
scan_utf8 input = scan_from 0 0 input

abbrev pub is_valid : Utf8Status → Bool
is_valid valid = true
is_valid incomplete = false
is_valid invalid = false

unfoldable pub valid_utf8 : Bytes → Bool
valid_utf8 input = is_valid (scan_utf8 input).status

-- The rounds of the repair loop, `fuel` of them at most.
unfoldable pub sanitize_loop : ℕ → Bytes → Bytes
sanitize_loop zero input = []
sanitize_loop (suc fuel) [] = []
sanitize_loop (suc fuel) (byte ∷ bytes) =
    let input = byte ∷ bytes in
    let scan = scan_utf8 input in
    let tail = drop scan.valid_prefix input in
    take scan.valid_prefix input ++ elim scan.status [
      | valid ↦ []
      | incomplete ↦ replacement
      | invalid ↦ replacement ++ sanitize_loop fuel (drop scan.error_length tail)
    ]

-- A round that goes on removes a byte at least, so one round for each byte is enough.
unfoldable pub sanitize_utf8 : Bytes → Bytes
sanitize_utf8 input = sanitize_loop (length input) input

pub data Utf8Error : Type 0 where
  not_a_scalar : Utf8Error

-- The bytes that `append_utf8` pushes for a code point.
unfoldable pub encode_utf8 : ℕ → Result Utf8Error Bytes
encode_utf8 codepoint =
    if leb codepoint 0x7F
    then ok (codepoint ∷ [])
    else if leb codepoint 0x7FF
    then ok (bit_or 0xC0 (shr codepoint 6) ∷ bit_or 0x80 (bit_and codepoint 0x3F) ∷ [])
    else if leb codepoint 0xFFFF && not (between 0xD800 0xDFFF codepoint)
    then ok (
        bit_or 0xE0 (shr codepoint 12)
        ∷ bit_or 0x80 (bit_and (shr codepoint 6) 0x3F)
        ∷ bit_or 0x80 (bit_and codepoint 0x3F)
        ∷ [])
    else if between 0x10000 0x10FFFF codepoint
    then ok (
        bit_or 0xF0 (shr codepoint 18)
        ∷ bit_or 0x80 (bit_and (shr codepoint 12) 0x3F)
        ∷ bit_or 0x80 (bit_and (shr codepoint 6) 0x3F)
        ∷ bit_or 0x80 (bit_and codepoint 0x3F)
        ∷ [])
    else err not_a_scalar

unfoldable pub append_utf8 : Bytes → ℕ → Result Utf8Error Bytes
append_utf8 output codepoint = elim (encode_utf8 codepoint) [
  | ok bytes ↦ ok (output ++ bytes)
  | err e ↦ err e
]
