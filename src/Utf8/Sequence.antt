-- ===== src/Utf8/Sequence.antt =====
-- src/utf8.cpp: one sequence, in plain arithmetic. What `encode_utf8` writes for a code point of
-- each length, and what a round of the scanner does at such bytes.
use adi.Base.{
  ℕ, suc, ◌+◌, ◌*◌, ◌/◌, ◌%◌, ◌≤◌, ◌<◌, ◌≡◌, refl, ◌⊎◌, true, [], ◌∷◌, arith, bit_and, bit_or,
  ==_iff,
}
use adi.Base.Bits.{bit_and-mask, bit_or-disjoint, bit_and-top_two}
use adi.Base.Result.{ok}
use adi.Utf8.{Bytes, is_continuation, continue_codepoint, encode_utf8}

-- A Unicode scalar value: a code point that is no surrogate.
abbrev pub IsScalar : ℕ → Type 0
IsScalar c = (c < 0xD800) ⊎ ((0xE000 ≤ c) × (c < 0x110000))

abbrev pub IsTrail : ℕ → Type 0
IsTrail b = (0x80 ≤ b) × (b < 0xC0)

pub mask_six : (c : ℕ) → bit_and c 0x3F ≡ c % 64
mask_six c = bit_and-mask 6 c 0x3F refl

pub trail_byte : (c : ℕ) → bit_or 0x80 (bit_and c 0x3F) ≡ 0x80 + c % 64
trail_byte c = rw (mask_six c) (bit_or-disjoint 6 2 (c % 64) (omega arith))

pub encode_one : (c : ℕ) → c < 0x80 → encode_utf8 c ≡ ok (c ∷ [])
unfolding encode_utf8
encode_one c h = ground arith

pub encode_two :
    (c : ℕ) → 0x80 ≤ c → c < 0x800 → encode_utf8 c ≡ ok ((0xC0 + c / 64) ∷ (0x80 + c % 64) ∷ [])
unfolding encode_utf8
encode_two c lo hi = ground (arith, trail_byte c, bit_or-disjoint 5 6 (c / 64) (omega arith))

pub encode_three :
    (c : ℕ)
    → 0x800 ≤ c
    → c < 0x10000
    → IsScalar c
    → encode_utf8 c ≡ ok ((0xE0 + c / 4096) ∷ (0x80 + c / 64 % 64) ∷ (0x80 + c % 64) ∷ [])
unfolding encode_utf8
encode_three c lo hi s =
    ground (arith, trail_byte c, trail_byte (c / 64), bit_or-disjoint 4 14 (c / 4096) (omega arith))

pub encode_four :
    (c : ℕ)
    → 0x10000 ≤ c
    → c < 0x110000
    → encode_utf8 c
      ≡ ok (
          (0xF0 + c / 262144)
          ∷ (0x80 + c / 4096 % 64)
          ∷ (0x80 + c / 64 % 64)
          ∷ (0x80 + c % 64)
          ∷ [])
unfolding encode_utf8
encode_four c lo hi = ground (
  arith,
  trail_byte c,
  trail_byte (c / 64),
  trail_byte (c / 4096),
  bit_or-disjoint 3 30 (c / 262144) (omega arith),
)

pub is_continuation_iff : (b : ℕ) → b < 256 → (is_continuation b ≡ true) → IsTrail b
is_continuation_iff b h e = omega (arith, bit_and-top_two b h, (==_iff (bit_and b 0xC0) 0x80).0 e)

pub trail-is_continuation : (b : ℕ) → IsTrail b → is_continuation b ≡ true
trail-is_continuation b h =
    (==_iff (bit_and b 0xC0) 0x80).1 (omega (arith, bit_and-top_two b (omega arith)))

-- One continuation byte adds six bits.
pub continue_step :
    (n codepoint b : ℕ) (rest : Bytes)
    → IsTrail b
    → continue_codepoint (suc n) codepoint (b ∷ rest)
      ≡ continue_codepoint n (codepoint * 64 + b % 64) rest
unfolding continue_codepoint
continue_step n codepoint b rest h =
    rw (trail-is_continuation b h, mask_six b, bit_or-disjoint 6 codepoint (b % 64) (omega arith))
