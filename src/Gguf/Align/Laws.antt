-- ===== src/Gguf/Align/Laws.antt =====
-- src/gguf.cpp: `align_up` rounds up to a multiple of a power of two.
use adi.Base.{
  ℕ, zero, suc, ◌+◌, ◌-◌, ◌*◌, ◌/◌, ◌%◌, ◌^◌, ◌≤◌, ◌<◌, ◌≡◌, refl, ap, sym, subst, ◌∙◌, ◌==◌,
  bit_and, arith, Bool-cases, inl, inr,
}
use adi.Base.Bits.{bit_and_step, bit_and-mask, bit_and-zero, mod_twice}
use adi.Base.Result.{ok}
use adi.Gguf.Cursor.{u64_max}
use adi.Gguf.Align.{align_up, complement}
use native.Mathlib.Nat.{pow-suc, div-add-mod, mod-lt, mod_self, mod-eq_of_lt, pow-le-pow_right}

bit_and_self : (n a : ℕ) → a ≤ n → bit_and a a ≡ a
bit_and_self zero a h = let e : a ≡ 0 = omega arith in rw e (bit_and-zero 0)
bit_and_self (suc n) a h = elim (Bool-cases (a == 0)) [
  | inl e ↦ let e : a ≡ 0 = ground arith in rw e (bit_and-zero 0)
  | inr e ↦ omega (arith, bit_and_step a a, bit_and_self n (a / 2) (ground arith))
]

-- The test `(a & (a - 1)) == 0` finds the powers of two.
pub power_of_two : (n a : ℕ) → a ≤ n → 0 < a → bit_and a (a - 1) ≡ 0 → (k : ℕ) × (a ≡ 2 ^ k)
power_of_two zero a h p e = absurd (omega arith)
power_of_two (suc n) a h p e = elim (Bool-cases (a % 2 == 0)) [
  | inl even ↦
      let q : a % 2 ≡ 0 = ground arith in
      let half : (a - 1) / 2 ≡ a / 2 - 1 = omega arith in
      let (k, r) =
        power_of_two n (a / 2) (omega arith) (omega arith)
          (omega (arith, bit_and_step a (a - 1), ap (bit_and (a / 2)) half)) in
      (suc k, omega (arith, r, pow-suc 2 k))
  | inr odd ↦
      let q : a % 2 ≡ 1 = ground arith in
      let half : (a - 1) / 2 ≡ a / 2 = omega arith in
      (
        0,
        omega (
          arith,
          bit_and_step a (a - 1),
          ap (bit_and (a / 2)) half,
          bit_and_self a (a / 2) (omega arith),
        ),
      )
]

pow_pos : (k : ℕ) → 0 < 2 ^ k
pow_pos k = pow-le-pow_right {n = 2} (omega arith) {i = 0} {j = k} (omega arith)

-- The complement of a mask of `k` ones clears the low bits.
bit_and-complement : (k n x m : ℕ) → x < 2 ^ n → m + 2 ^ k ≡ 2 ^ n → bit_and x m + x % 2 ^ k ≡ x
bit_and-complement zero n x m h e =
    let none_left : x % 1 ≡ 0 = omega arith in
    omega (arith, bit_and-mask n x m e, mod-eq_of_lt h, none_left)
bit_and-complement (suc k) zero x m h e = absurd (omega (arith, pow-suc 2 k, pow_pos k))
bit_and-complement (suc k) (suc n) x m h e = omega (
  arith,
  bit_and_step x m,
  pow-suc 2 k,
  pow-suc 2 n,
  mod_twice x (2 ^ k),
  ap (λ (t : ℕ). x % t) (pow-suc 2 k),
  bit_and-complement k n (x / 2) (m / 2) (omega (arith, pow-suc 2 n))
      (omega (arith, pow-suc 2 k, pow-suc 2 n)),
)

-- What `align_up` promises of a result: the least multiple of the alignment that is no less than
-- the value.
pub record RoundsUp (value alignment result : ℕ) : Type 0 where
  pub power : ℕ
  pub quotient : ℕ
  pub is_power : alignment ≡ 2 ^ power
  pub multiple : result ≡ alignment * quotient
  pub not_below : value ≤ result
  pub next : result < value + alignment

rounds_up :
    (k value : ℕ)
    → 2 ^ k ≤ u64_max
    → value ≤ u64_max - (2 ^ k - 1)
    → RoundsUp value (2 ^ k) (bit_and (value + (2 ^ k - 1)) (complement (2 ^ k - 1)))
rounds_up k value hk hv = record {
  power = k;
  quotient = (value + (2 ^ k - 1)) / 2 ^ k;
  is_power = refl;
  multiple = omega (arith, cleared, parts);
  not_below = omega (arith, cleared, small);
  next = omega (arith, cleared, small, positive);
}
  where
    positive : 0 < 2 ^ k
    positive = pow_pos k

    cleared :
        bit_and (value + (2 ^ k - 1)) (complement (2 ^ k - 1)) + (value + (2 ^ k - 1)) % 2 ^ k
        ≡ value + (2 ^ k - 1)
    cleared =
        bit_and-complement k 64 (value + (2 ^ k - 1)) (complement (2 ^ k - 1))
          (omega (arith, positive)) (omega (arith, positive))

    parts :
        2 ^ k * ((value + (2 ^ k - 1)) / 2 ^ k) + (value + (2 ^ k - 1)) % 2 ^ k
        ≡ value + (2 ^ k - 1)
    parts = div-add-mod (value + (2 ^ k - 1)) (2 ^ k)

    small : (value + (2 ^ k - 1)) % 2 ^ k < 2 ^ k
    small = mod-lt (value + (2 ^ k - 1)) positive

-- Where `align_up` returns, its result is the least multiple of the alignment, a power of two,
-- that is no less than the value.
pub align_up-RoundsUp :
    (value alignment r : ℕ)
    → alignment ≤ u64_max
    → align_up value alignment ≡ ok r
    → RoundsUp value alignment r
align_up-RoundsUp value alignment r h e =
    let (pos, masked, fits, result) = tested e in
    let (k, power) = power_of_two alignment alignment (omega arith) pos masked in
    subst (λ t. RoundsUp value alignment t) result
      (subst (λ a. RoundsUp value a (bit_and (value + (a - 1)) (complement (a - 1)))) (sym power)
        (rounds_up k value (omega (arith, power)) (omega (arith, power))))
  where
    tested :
        align_up value alignment ≡ ok r
        → (0 < alignment)
          × (bit_and alignment (alignment - 1) ≡ 0)
          × (value ≤ u64_max - (alignment - 1))
          × (bit_and (value + (alignment - 1)) (complement (alignment - 1)) ≡ r)
    tested e = unfold align_up in ground arith

-- It returns for every power of two and every value whose sum is below 2 ^ 64.
pub align_up-returns :
    (k value : ℕ)
    → 2 ^ k ≤ u64_max
    → value + 2 ^ k ≤ u64_max
    → (r : ℕ) × (align_up value (2 ^ k) ≡ ok r)
align_up-returns k value hk hv = (
  bit_and (value + (2 ^ k - 1)) (complement (2 ^ k - 1)),
  unfold align_up in ground (arith, masked, pow_pos k),
)
  where
    masked : bit_and (2 ^ k) (2 ^ k - 1) ≡ 0
    masked =
        bit_and-mask k (2 ^ k) (2 ^ k - 1) (omega (arith, pow_pos k))
        ∙ omega (arith, mod_self (2 ^ k))
