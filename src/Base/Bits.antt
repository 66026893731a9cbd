-- ===== src/Base/Bits.antt =====
-- Shifts, masks and fields of machine words as arithmetic.
use Prim.Native.Nat.{
  ℕ, zero, suc, ◌+◌, ◌*◌, ◌/◌, ◌%◌, ◌^◌, ◌≤◌, ◌<◌, min, max, bit_and, bit_or, digits,
  bit_and-bitwise, bit_or-bitwise,
}
use mathlib.Core.Path.{◌≡◌, refl, ap, sym, ◌∙◌}
use native.Mathlib.Omega.{arith}
use native.Mathlib.Nat.{pow-suc, mod-add-div, div-div-eq-div-mul, mul_comm}
use mathlib.Core.Bool.{Bool, true, ◌&&◌}
use package.adi.Base.Tests.{◌==◌}

-- `x >> k` and `x << k` before the wrap to the word's width
abbrev pub shr : ℕ → ℕ → ℕ
shr x k = x / 2 ^ k

abbrev pub shl : ℕ → ℕ → ℕ
shl x k = x * 2 ^ k

-- The native operations on digits, at any number of rounds that is enough.
module _ (last : ℕ → ℕ) (digit : ℕ → ℕ → ℕ) where
  run_out : (rounds b : ℕ) → digits last digit rounds zero b ≡ last b
  run_out zero b = refl
  run_out (suc rounds) b = refl

  rounds_agree :
      (a b rounds others : ℕ)
      → (a ≤ rounds) × (a ≤ others)
      → digits last digit rounds a b ≡ digits last digit others a b
  rounds_agree zero b rounds others enough = run_out rounds b ∙ sym (run_out others b)
  rounds_agree (suc a) b zero others (few, _) = absurd (omega arith)
  rounds_agree (suc a) b (suc rounds) zero (_, few) = absurd (omega arith)
  rounds_agree (suc a) b (suc rounds) (suc others) (few, several) =
      ap (λ upper. upper * 2 + digit (suc a % 2) (b % 2))
        (rounds_agree (suc a / 2) (b / 2) rounds others (omega arith, omega arith))

  -- The law for the lowest digit.
  lowest :
      (a b : ℕ)
      → digits last digit (suc a) (suc a) b
        ≡ digits last digit (suc a / 2) (suc a / 2) (b / 2) * 2 + digit (suc a % 2) (b % 2)
  lowest a b =
      ap (λ upper. upper * 2 + digit (suc a % 2) (b % 2))
        (rounds_agree (suc a / 2) (b / 2) a (suc a / 2) (omega arith, omega arith))

pub bit_and_step : (a b : ℕ) → bit_and a b ≡ bit_and (a / 2) (b / 2) * 2 + min (a % 2) (b % 2)
bit_and_step (suc a) b =
    let whole = bit_and-bitwise (suc a) b in
    let half = bit_and-bitwise (suc a / 2) (b / 2) in
    let law = lowest (λ _. 0) min a b in omega arith
bit_and_step zero b =
    let none = bit_and-bitwise 0 b in let half = bit_and-bitwise 0 (b / 2) in omega arith

pub bit_or_step : (a b : ℕ) → bit_or a b ≡ bit_or (a / 2) (b / 2) * 2 + max (a % 2) (b % 2)
bit_or_step (suc a) b =
    let whole = bit_or-bitwise (suc a) b in
    let half = bit_or-bitwise (suc a / 2) (b / 2) in
    let law = lowest (λ b. b) max a b in omega arith
bit_or_step zero b =
    let none = bit_or-bitwise 0 b in let half = bit_or-bitwise 0 (b / 2) in omega arith

-- A zero on the right, by halving the left below a limit.
right_zero : (limit a : ℕ) → a ≤ limit → (bit_and a 0 ≡ 0) × (bit_or a 0 ≡ a)
right_zero limit zero below = (refl, refl)
right_zero zero (suc a) below = absurd (omega arith)
right_zero (suc limit) (suc a) below =
    let (masked, joined) = right_zero limit (suc a / 2) (omega arith) in
    (omega (arith, bit_and_step (suc a) 0), omega (arith, bit_or_step (suc a) 0))

pub bit_and-zero : (a : ℕ) → bit_and a 0 ≡ 0
bit_and-zero a = (right_zero a a (omega arith)).0

pub bit_or-zero : (a : ℕ) → bit_or a 0 ≡ a
bit_or-zero a = (right_zero a a (omega arith)).1

-- Fields that do not overlap: the high one a multiple of 2 ^ k, the low one below 2 ^ k.
pub bit_or-disjoint : (k a b : ℕ) → b < 2 ^ k → bit_or (a * 2 ^ k) b ≡ a * 2 ^ k + b
bit_or-disjoint zero a b h =
    let e : b ≡ 0 = omega arith in rw e (omega (arith, bit_or-zero (a * 2 ^ 0)))
bit_or-disjoint (suc k) a b h = omega (
  arith,
  pow-suc 2 k,
  ap (λ (t : ℕ). a * t) (pow-suc 2 k),
  bit_or_step (a * 2 ^ suc k) b,
  bit_or-half,
  bit_or-disjoint k a (b / 2) (omega (arith, pow-suc 2 k)),
)
  where
    half : a * 2 ^ suc k / 2 ≡ a * 2 ^ k
    half = omega (arith, ap (λ (t : ℕ). a * t) (pow-suc 2 k))

    bit_or-half : bit_or (a * 2 ^ suc k / 2) (b / 2) ≡ bit_or (a * 2 ^ k) (b / 2)
    bit_or-half = ap (λ t. bit_or t (b / 2)) half

pub mod_twice : (a p : ℕ) → a % (p * 2) ≡ a / 2 % p * 2 + a % 2
mod_twice a p =
    omega (arith, mod-add-div a (p * 2), mod-add-div (a / 2) p, ap (λ (t : ℕ). p * t) quotient)
  where
    quotient : a / 2 / p ≡ a / (p * 2)
    quotient = div-div-eq-div-mul a 2 p ∙ ap (λ t. a / t) (mul_comm 2 p)

-- A mask of `k` ones keeps the remainder by 2 ^ k.
pub bit_and-mask : (k a m : ℕ) → m + 1 ≡ 2 ^ k → bit_and a m ≡ a % 2 ^ k
bit_and-mask zero a m h = let e : m ≡ 0 = omega arith in rw e (omega (arith, bit_and-zero a))
bit_and-mask (suc k) a m h = omega (
  arith,
  pow-suc 2 k,
  bit_and_step a m,
  bit_and-mask k (a / 2) (m / 2) (omega (arith, pow-suc 2 k)),
  mod_twice a (2 ^ k),
  ap (λ (t : ℕ). a % t) (pow-suc 2 k),
)

-- A top mask of a byte: the two high bits.
table : ℕ → Bool
table zero = true
table (suc n) = bit_and n 0xC0 == n / 64 * 64 && table n

table_sound : (n : ℕ) → table n ≡ true → (b : ℕ) → b < n → bit_and b 0xC0 ≡ b / 64 * 64
unfolding table
table_sound zero e b h = absurd (omega arith)
table_sound (suc n) e b h = ground (arith, table_sound n (ground arith) b)

pub bit_and-top_two : (b : ℕ) → b < 256 → bit_and b 0xC0 ≡ b / 64 * 64
unfolding table
bit_and-top_two = table_sound 256 refl
