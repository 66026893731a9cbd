-- ===== src/Json/Reads/Texts.antt =====
-- src/json.cpp: strings and numbers, read to their end.
use adi.Base.{
  ℕ, zero, suc, ◌≤◌, ◌<◌, ◌≡◌, refl, true, not, ◌||◌, [], ◌∷◌, ltb, ◌==◌, if◌then◌else◌, length,
  drop, arith, Bool-cases, Option-cases, inl, inr,
}
use adi.Base.Result.{ok, ◌>>◌, guard, Result-cases}
use adi.Base.Outcome.{Outcome, returns, throws, Outcome-bind, Outcome-guard, Outcome-map}
use adi.Utf8.{append_utf8, Bytes, valid_utf8}
use adi.Json.Value.{Charconv, is_finite}
use adi.Json.Lexer.{
  whitespace, next_is, take_byte, simple_escape, appended, escape_round, string_round, string_loop,
  parse_string, StringRound, closed, more, head_is_digit, digits, skip_integer, skip_fraction,
  skip_exponent, parse_number, between_positions, invalid_number, invalid_fraction,
  invalid_exponent,
}
use adi.Json.Reads.{
  is_fuel, Genuine, whitespace-length, digits-length, drop_length, next_is-length, take_byte-length,
  unicode_escape-reads,
}

-- A round leaves at most `bound` bytes, and a string that is closed is well-formed.
abbrev pub RoundReads : ℕ → StringRound → Type 0
RoundReads bound (closed text after) = (valid_utf8 text ≡ true) × (length after ≤ bound)
RoundReads bound (more longer after) = length after ≤ bound

appended-reads :
    (result : Bytes) (codepoint : ℕ) (rest : Bytes)
    → Outcome (RoundReads (length rest)) Genuine (appended result codepoint rest)
unfolding is_fuel appended
appended-reads result codepoint rest = elim (Result-cases (append_utf8 result codepoint)) [
  | inl (longer, e) ↦ rw (e, appended) (returns (omega arith))
  | inr (x, e) ↦ rw (e, appended) (throws refl)
]

RoundReads-weaken : (m n : ℕ) → m ≤ n → (r : StringRound) → RoundReads m r → RoundReads n r
RoundReads-weaken m n h (closed text after) (v, k) = (v, omega arith)
RoundReads-weaken m n h (more longer after) k = omega arith

escape_round-reads :
    (result rest : Bytes) → Outcome (RoundReads (length rest)) Genuine (escape_round result rest)
unfolding is_fuel escape_round
escape_round-reads result [] = throws refl
escape_round-reads result (c ∷ rest) = elim (Option-cases (simple_escape c)) [
  | inr (byte, e) ↦ rw (e, escape_round) (returns (omega arith))
  | inl e ↦ elim (Bool-cases (c == b'u')) [
    | inr f ↦ rw (e, escape_round) (rw f (throws refl))
    | inl f ↦
        rw (e, escape_round)
          (rw f (
            Outcome-bind (unicode_escape-reads rest) (λ (codepoint, after) shorter.
              Outcome-map (appended-reads result codepoint after)
                (λ r. RoundReads-weaken (length after) (suc (length rest)) (omega arith) r))))
  ]
]

string_round-reads :
    (result : Bytes) (c : ℕ) (rest : Bytes)
    → Outcome (RoundReads (length rest)) Genuine (string_round result c rest)
unfolding is_fuel string_round
string_round-reads result c rest = elim (Bool-cases (c == 0x22)) [
  | inl e ↦ elim (Bool-cases (valid_utf8 result)) [
    | inl v ↦ rw (e, v) (returns (v, omega arith))
    | inr v ↦ rw (e, v) (throws refl)
  ]
  | inr e ↦ elim (Bool-cases (ltb c 0x20)) [
    | inl f ↦ rw (e, f) (throws refl)
    | inr f ↦ elim (Bool-cases (not (c == 0x5C))) [
      | inl g ↦ rw (e, f, g) (returns (omega arith))
      | inr g ↦ rw (e, f, g) (escape_round-reads result rest)
    ]
  ]
]

-- A string that is read is valid UTF-8, and some input is taken.
abbrev pub StringRead : ℕ → Bytes × Bytes → Type 0
StringRead bound r = (valid_utf8 r.0 ≡ true) × (length r.1 < bound)

string_loop-reads :
    (fuel : ℕ) (result rest : Bytes)
    → length rest ≤ fuel
    → Outcome (StringRead (length rest)) Genuine (string_loop fuel result rest)
unfolding is_fuel string_loop
string_loop-reads fuel result [] h = throws refl
string_loop-reads zero result (c ∷ rest) h = absurd (omega arith)
string_loop-reads (suc fuel) result (c ∷ rest) h =
    Outcome-bind (string_round-reads result c rest) (continue (string_loop-reads fuel))
  where
    continue :
        ((longer after : Bytes)
          → length after ≤ fuel
          → Outcome (StringRead (length after)) Genuine (string_loop fuel longer after))
        → (r : StringRound) → RoundReads (length rest) r
        → Outcome (StringRead (suc (length rest))) Genuine (elim r [
          | closed text after ↦ ok (text, after)
          | more longer after ↦ string_loop fuel longer after
        ])
    continue again (closed text after) (v, k) = returns (v, omega arith)
    continue again (more longer after) k =
        Outcome-map (again longer after (omega arith)) (λ r (v, l). (v, omega arith))

pub parse_string-reads :
    (rest : Bytes) → Outcome (StringRead (length rest)) Genuine (parse_string rest)
unfolding is_fuel parse_string
parse_string-reads rest =
    let (whole, shorter) = take_byte-length 0x22 rest in
    elim (Bool-cases ((take_byte 0x22 rest).0)) [
      | inr e ↦ rw e (throws refl)
      | inl e ↦ rw e (
          Outcome-map
            (string_loop-reads (length (take_byte 0x22 rest).1) [] (take_byte 0x22 rest).1
              (omega arith))
            (λ r (v, l). (v, omega arith)))
    ]

head_is_digit-cons : (rest : Bytes) → head_is_digit rest ≡ true → length (digits rest) < length rest
unfolding head_is_digit digits
head_is_digit-cons [] h = ground arith
head_is_digit-cons (c ∷ rest) h = ground (arith, digits-length rest)

skip_integer-reads :
    (rest : Bytes) → Outcome (λ r. length r < length rest) Genuine (skip_integer rest)
unfolding is_fuel skip_integer
skip_integer-reads rest =
    unsigned_reads (if next_is b'-' rest then drop 1 rest else rest)
      (ground (arith, drop_length 1 rest))
  where
    unsigned_reads :
        (unsigned : Bytes)
        → length unsigned ≤ length rest
        → Outcome
            (λ r. length r < length rest)
            Genuine
            (guard (head_is_digit unsigned) invalid_number
              >> ok (if next_is b'0' unsigned then drop 1 unsigned else digits unsigned))
    unsigned_reads unsigned h = Outcome-guard (head_is_digit unsigned) invalid_number refl (λ d.
        let shorter : length (digits unsigned) < length unsigned = head_is_digit-cons unsigned d in
        elim (Bool-cases (next_is b'0' unsigned)) [
          | inl e ↦
              let less : length (drop 1 unsigned) < length unsigned =
                next_is-length b'0' unsigned e in
              rw e (returns (omega arith))
          | inr e ↦ rw e (returns (omega arith))
        ])

skip_fraction-reads :
    (rest : Bytes) → Outcome (λ r. length r ≤ length rest) Genuine (skip_fraction rest)
unfolding is_fuel skip_fraction
skip_fraction-reads rest = elim (Bool-cases (next_is b'.' rest)) [
  | inr e ↦ rw e (returns (omega arith))
  | inl e ↦ rw e (
      Outcome-guard (head_is_digit (drop 1 rest)) invalid_fraction refl
        (λ _. returns (omega (arith, digits-length (drop 1 rest), drop_length 1 rest))))
]

skip_exponent-reads :
    (rest : Bytes) → Outcome (λ r. length r ≤ length rest) Genuine (skip_exponent rest)
unfolding is_fuel skip_exponent
skip_exponent-reads rest = elim (Bool-cases (next_is b'e' rest || next_is b'E' rest)) [
  | inr e ↦ rw e (returns (omega arith))
  | inl e ↦ rw e (
      unsigned_reads
        (if next_is b'+' (drop 1 rest) || next_is b'-' (drop 1 rest)
          then drop 1 (drop 1 rest)
          else drop 1 rest)
        (ground (arith, drop_length 1 rest, drop_length 1 (drop 1 rest))))
]
  where
    unsigned_reads :
        (unsigned : Bytes)
        → length unsigned ≤ length rest
        → Outcome
            (λ r. length r ≤ length rest)
            Genuine
            (guard (head_is_digit unsigned) invalid_exponent >> ok (digits unsigned))
    unsigned_reads unsigned h =
        Outcome-guard (head_is_digit unsigned) invalid_exponent refl
          (λ d. returns (omega (arith, digits-length unsigned)))

pub parse_number-reads :
    (lib : Charconv) (rest : Bytes)
    → Outcome
        (λ r. (is_finite r.0 ≡ true) × (length r.1 < length rest))
        Genuine
        (parse_number lib rest)
unfolding is_fuel parse_number
parse_number-reads lib rest = Outcome-bind (skip_integer-reads (whitespace rest)) (λ p h.
    Outcome-bind (skip_fraction-reads p) (λ q k. Outcome-bind (skip_exponent-reads q) (λ r l.
      let less : length r < length rest = omega (arith, whitespace-length rest) in
      elim (Option-cases (lib.from_chars (between_positions (whitespace rest) r))) [
        | inl e ↦ rw e (throws refl)
        | inr (value, e) ↦ elim (Bool-cases (is_finite value)) [
          | inl f ↦ rw (e, f) (returns (f, less))
          | inr f ↦ rw (e, f) (throws refl)
        ]
      ])))
