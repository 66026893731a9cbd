-- ===== src/Json/Reads.antt =====
-- src/json.cpp: each read of the parser takes bytes, so its loops end.
pub mod Texts
pub mod Values
use adi.Base.{
  ◌||◌, ℕ, zero, suc, ◌≤◌, ◌<◌, ◌≡◌, refl, Bool, true, false, not, ◌&&◌, [], ◌∷◌, ltb, leb, length,
  list_eq, take, drop, arith, Bool-cases, Option-cases, inl, inr, length-drop, bit_or,
}
use adi.Base.Bits.{shl}
use adi.Base.Result.{◌>>=◌, ◌>>◌}
use adi.Base.Outcome.{Outcome, returns, throws, Outcome-bind, Outcome-guard, Outcome-map}
use adi.Utf8.{Bytes}
use adi.Json.Lexer.{
  JsonError, out_of_fuel, whitespace, next_is, take_byte, hex_digit, hex_digits, hex4,
  unicode_escape, digits, missing_low_surrogate, invalid_low_surrogate,
}

-- The model's own error.
pub is_fuel : JsonError → Bool
is_fuel out_of_fuel = true
is_fuel _ = false

-- An error of the program.
abbrev pub Genuine : JsonError → Type 0
Genuine e = is_fuel e ≡ false

-- What is left is shorter than `bound`.
abbrev pub Below {ℓ} : {A : Type ℓ} → ℕ → A × Bytes → Type 0
Below bound r = length r.1 < bound

pub whitespace-length : (rest : Bytes) → length (whitespace rest) ≤ length rest
unfolding whitespace
whitespace-length [] = omega arith
whitespace-length (c ∷ rest) = ground (arith, whitespace-length rest)

pub digits-length : (rest : Bytes) → length (digits rest) ≤ length rest
unfolding digits
digits-length [] = omega arith
digits-length (c ∷ rest) = ground (arith, digits-length rest)

pub drop_length : (n : ℕ) (rest : Bytes) → length (drop n rest) ≤ length rest
drop_length n rest = omega (arith, length-drop n rest)

pub next_is-length :
    (value : ℕ) (rest : Bytes) → next_is value rest ≡ true → length (drop 1 rest) < length rest
unfolding next_is
next_is-length value [] h = ground arith
next_is-length value (c ∷ rest) h = omega arith

-- `take` never moves back, and moves on where it finds the byte.
pub take_byte-length :
    (value : ℕ) (rest : Bytes)
    → (length (take_byte value rest).1 ≤ length rest)
      × ((take_byte value rest).0 ≡ true → length (take_byte value rest).1 < length rest)
unfolding take_byte
take_byte-length value rest = elim (Bool-cases (next_is value (whitespace rest))) [
  | inl e ↦
      let shorter : length (drop 1 (whitespace rest)) < length (whitespace rest) =
        next_is-length value (whitespace rest) e in
      let blanks : length (whitespace rest) ≤ length rest = whitespace-length rest in
      (ground arith, λ _. ground arith)
  | inr e ↦
      let blanks : length (whitespace rest) ≤ length rest = whitespace-length rest in
      (ground arith, λ h. ground arith)
]

pub hex_digits-reads :
    (count value : ℕ) (rest : Bytes)
    → Outcome (λ r. length r.1 ≤ length rest) Genuine (hex_digits count value rest)
unfolding hex_digits is_fuel
hex_digits-reads zero value rest = returns (omega arith)
hex_digits-reads (suc count) value [] = throws refl
hex_digits-reads (suc count) value (c ∷ rest) = elim (Option-cases (hex_digit c)) [
  | inl e ↦ rw (e, hex_digits) (throws refl)
  | inr (digit, e) ↦
      rw (e, hex_digits)
        (Outcome-map (hex_digits-reads count (bit_or (shl value 4) digit) rest)
          (λ r h. omega arith))
]

hex4-reads : (rest : Bytes) → Outcome (λ r. length r.1 ≤ length rest) Genuine (hex4 rest)
unfolding hex4 is_fuel
hex4-reads rest = elim (Bool-cases (ltb (length rest) 4)) [
  | inl e ↦ rw e (throws refl)
  | inr e ↦ rw e (hex_digits-reads 4 0 rest)
]

pub unicode_escape-reads :
    (rest : Bytes) → Outcome (λ r. length r.1 ≤ length rest) Genuine (unicode_escape rest)
unfolding unicode_escape is_fuel
unicode_escape-reads rest = Outcome-bind (hex4-reads rest) (λ (first, after) shorter.
    elim (Bool-cases (leb 0xD800 first && leb first 0xDBFF)) [
      | inl e ↦ rw e (
          Outcome-guard (list_eq (take 2 after) (0x5C ∷ b'u' ∷ [])) missing_low_surrogate refl (λ _.
            Outcome-bind (hex4-reads (drop 2 after)) (λ (low, last) shorter'.
              Outcome-guard (not (ltb low 0xDC00 || ltb 0xDFFF low)) invalid_low_surrogate refl
                (λ _. returns (omega (arith, drop_length 2 after))))))
      | inr e ↦ elim (Bool-cases (leb 0xDC00 first && leb first 0xDFFF)) [
        | inl e' ↦ rw (e, e') (throws refl)
        | inr e' ↦ rw (e, e') (returns shorter)
      ]
    ])
