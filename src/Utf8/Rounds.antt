-- ===== src/Utf8/Rounds.antt =====
-- src/utf8.cpp: the round of the scanner at a well-formed sequence, and the sequence that a round
-- steps over.
use adi.Base.{ℕ, ◌+◌, ◌*◌, ◌/◌, ◌%◌, ◌≤◌, ◌<◌, ◌≡◌, refl, ◌∙◌, inl, inr, true, ◌∷◌, some, arith}
use adi.Base.Bits.{bit_and-mask}
use adi.Utf8.{
  Bytes, lead_of, continue_codepoint, is_scalar_from, advance, scan_sequence, scan_round,
}
use adi.Utf8.Sequence.{IsScalar, IsTrail, continue_step}

-- The announcements of the first bytes, with the masks as remainders.
pub lead_two :
    (a : ℕ)
    → 0xC2 ≤ a
    → a ≤ 0xDF
    → lead_of a ≡ some (record { length = 2; codepoint = a % 32; minimum = 0x80 })
unfolding lead_of
lead_two a lo hi = ground (arith, bit_and-mask 5 a 0x1F refl)

pub lead_three :
    (a : ℕ)
    → 0xE0 ≤ a
    → a ≤ 0xEF
    → lead_of a ≡ some (record { length = 3; codepoint = a % 16; minimum = 0x800 })
unfolding lead_of
lead_three a lo hi = ground (arith, bit_and-mask 4 a 0x0F refl)

pub lead_four :
    (a : ℕ)
    → 0xF0 ≤ a
    → a ≤ 0xF4
    → lead_of a ≡ some (record { length = 4; codepoint = a % 8; minimum = 0x10000 })
unfolding lead_of
lead_four a lo hi = ground (arith, bit_and-mask 3 a 0x07 refl)

scalar_from : (m c : ℕ) → m ≤ c → IsScalar c → is_scalar_from m c ≡ true
unfolding is_scalar_from
scalar_from m c h s = ground arith

-- The continuation of one, two and three bytes.
continue_one :
    (p b : ℕ) (t : Bytes) → IsTrail b → continue_codepoint 1 p (b ∷ t) ≡ some (p * 64 + b % 64)
continue_one p b t h = continue_step 0 p b t h ∙ (unfold continue_codepoint in refl)

continue_two :
    (p a b : ℕ) (t : Bytes)
    → IsTrail a
    → IsTrail b
    → continue_codepoint 2 p (a ∷ b ∷ t) ≡ some ((p * 64 + a % 64) * 64 + b % 64)
continue_two p a b t ha hb = continue_step 1 p a (b ∷ t) ha ∙ continue_one _ b t hb

continue_three :
    (p a b c : ℕ) (t : Bytes)
    → IsTrail a
    → IsTrail b
    → IsTrail c
    → continue_codepoint 3 p (a ∷ b ∷ c ∷ t)
      ≡ some (((p * 64 + a % 64) * 64 + b % 64) * 64 + c % 64)
continue_three p a b c t ha hb hc = continue_step 2 p a (b ∷ c ∷ t) ha ∙ continue_two _ b c t hb hc

pub round_one : (c : ℕ) (t : Bytes) → c < 0x80 → scan_round c t ≡ advance 1
unfolding scan_round
round_one c t h = ground arith

pub round_two :
    (c : ℕ) (t : Bytes)
    → 0x80 ≤ c
    → c < 0x800
    → scan_round (0xC0 + c / 64) ((0x80 + c % 64) ∷ t) ≡ advance 2
unfolding scan_round scan_sequence
round_two c t lo hi = ground (
  arith,
  lead_two (0xC0 + c / 64) (omega arith) (omega arith),
  continue_one ((0xC0 + c / 64) % 32) (0x80 + c % 64) t (omega arith, omega arith),
  scalar_from 0x80 ((0xC0 + c / 64) % 32 * 64 + (0x80 + c % 64) % 64) (omega arith)
      (inl (omega arith)),
)

pub round_three :
    (c : ℕ) (t : Bytes)
    → 0x800 ≤ c
    → c < 0x10000
    → IsScalar c
    → scan_round (0xE0 + c / 4096) ((0x80 + c / 64 % 64) ∷ (0x80 + c % 64) ∷ t) ≡ advance 3
unfolding scan_round scan_sequence
round_three c t lo hi s = ground (
  arith,
  lead_three (0xE0 + c / 4096) (omega arith) (omega arith),
  continue_two ((0xE0 + c / 4096) % 16) (0x80 + c / 64 % 64) (0x80 + c % 64) t
      (omega arith, omega arith) (omega arith, omega arith),
  value,
  scalar_from 0x800 c lo s,
)
  where
    value :
        ((0xE0 + c / 4096) % 16 * 64 + (0x80 + c / 64 % 64) % 64) * 64 + (0x80 + c % 64) % 64 ≡ c
    value = omega arith

pub round_four :
    (c : ℕ) (t : Bytes)
    → 0x10000 ≤ c
    → c < 0x110000
    → scan_round
        (0xF0 + c / 262144)
        ((0x80 + c / 4096 % 64) ∷ (0x80 + c / 64 % 64) ∷ (0x80 + c % 64) ∷ t)
      ≡ advance 4
unfolding scan_round scan_sequence
round_four c t lo hi = ground (
  arith,
  lead_four (0xF0 + c / 262144) (omega arith) (omega arith),
  continue_three ((0xF0 + c / 262144) % 8) (0x80 + c / 4096 % 64) (0x80 + c / 64 % 64)
      (0x80 + c % 64) t (omega arith, omega arith) (omega arith, omega arith)
      (omega arith, omega arith),
  value,
  scalar_from 0x10000 c lo (inr (omega arith, hi)),
)
  where
    value :
        (((0xF0 + c / 262144) % 8 * 64 + (0x80 + c / 4096 % 64) % 64) * 64
              + (0x80 + c / 64 % 64) % 64)
            * 64
          + (0x80 + c % 64) % 64
        ≡ c
    value = omega arith
