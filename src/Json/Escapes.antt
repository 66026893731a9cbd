-- ===== src/Json/Escapes.antt =====
-- src/json.cpp: what `json_string` writes is what `parse_string` reads.
use adi.Base.{
  ℕ, zero, suc, ◌+◌, ◌*◌, ◌/◌, ◌%◌, ◌<◌, ◌≡◌, refl, ap, subst, ◌∙◌, Bool, true, false, ◌&&◌, [],
  ◌∷◌, ◌++◌, none, some, ltb, leb, ◌==◌, length, arith, Bool-cases, Option-cases, inl, inr, All,
  append-nil, append_assoc, length-append, bit_and, bit_or,
}
use adi.Base.Result.{ok}
use adi.Base.Bits.{shl, shr, bit_or-disjoint, bit_and-mask}
use adi.Utf8.{Bytes, valid_utf8, append_utf8, encode_utf8, sanitize_utf8, IsByte}
use adi.Utf8.Repair.{sanitize_utf8-valid}
use adi.Json.Lexer.{
  whitespace, next_is, take_byte, hex_digit, hex_digits, hex4, unicode_escape, simple_escape,
  appended, escape_round, string_round, string_loop, parse_string, more,
}
use adi.Json.Printer.{hex_char, escape_byte, escape_all, json_string}

-- The digits that are printed are read as their values.
hex_table : ℕ → Bool
hex_table zero = true
hex_table (suc n) = elim (hex_digit (hex_char n)) [ none ↦ false | some d ↦ d == n ] && hex_table n

hex_table_sound : (n : ℕ) → hex_table n ≡ true → (d : ℕ) → d < n → hex_digit (hex_char d) ≡ some d
unfolding hex_table
hex_table_sound zero h d l = absurd (omega arith)
hex_table_sound (suc n) h d l = elim (Bool-cases (d == n)) [
  | inr e ↦ hex_table_sound n (ground arith) d (ground arith)
  | inl e ↦ elim (Option-cases (hex_digit (hex_char n))) [
    | inl f ↦ absurd (ground arith)
    | inr (v, f) ↦ let same : d ≡ n = ground arith in rw same (f ∙ ap some (ground arith))
  ]
]

hex_digit-hex_char : (d : ℕ) → d < 16 → hex_digit (hex_char d) ≡ some d
unfolding hex_table hex_digit hex_char
hex_digit-hex_char d l = hex_table_sound 16 refl d l

hex_digits_step :
    (n value c d : ℕ) (t : Bytes)
    → hex_digit c ≡ some d
    → hex_digits (suc n) value (c ∷ t) ≡ hex_digits n (bit_or (shl value 4) d) t
unfolding hex_digits
hex_digits_step n value c d t e = rw (e, hex_digits) refl

hex_digits-pair :
    (high low : ℕ) (t : Bytes)
    → high < 16
    → low < 16
    → hex_digits 4 0 (b'0' ∷ b'0' ∷ hex_char high ∷ hex_char low ∷ t) ≡ ok (high * 16 + low, t)
unfolding hex_digits
hex_digits-pair high low t h l =
    let nought : hex_digit b'0' ≡ some 0 = unfold hex_digit in refl in
    let upper : bit_or (shl 0 4) high ≡ high = omega (arith, bit_or-disjoint 4 0 high h) in
    let both : bit_or (shl high 4) low ≡ high * 16 + low = bit_or-disjoint 4 high low l in
    let tail : Bytes = hex_char high ∷ hex_char low ∷ t in
    hex_digits_step 3 0 b'0' 0 (b'0' ∷ tail) nought
    ∙ hex_digits_step 2 0 b'0' 0 tail nought
    ∙ hex_digits_step 1 0 (hex_char high) high (hex_char low ∷ t) (hex_digit-hex_char high h)
    ∙ hex_digits_step 0 (bit_or (shl 0 4) high) (hex_char low) low t (hex_digit-hex_char low l)
    ∙ rw (upper, both) refl

-- The escape of a control character.
unicode_escape-pair :
    (c : ℕ) (t : Bytes)
    → c < 32
    → unicode_escape (b'0' ∷ b'0' ∷ hex_char (shr c 4) ∷ hex_char (bit_and c 0x0F) ∷ t) ≡ ok (c, t)
unfolding unicode_escape hex4
unicode_escape-pair c t l =
    let mask : bit_and c 0x0F ≡ c % 16 = bit_and-mask 4 c 0x0F refl in
    let enough : ltb (suc (suc (suc (suc (length t))))) 4 ≡ false = ground arith in
    let whole : c / 16 * 16 + c % 16 ≡ c = omega arith in
    let high : leb 0xD800 c ≡ false = ground arith in
    let low : leb 0xDC00 c ≡ false = ground arith in
    rw
      (
        mask,
        enough,
        hex_digits-pair (c / 16) (c % 16) t (omega arith) (omega arith),
        whole,
        high,
        low,
      )
      refl

appended-ascii : (acc t : Bytes) (c : ℕ) → c < 32 → appended acc c t ≡ ok (more (acc ++ c ∷ []) t)
unfolding appended append_utf8 encode_utf8
appended-ascii acc t c l =
    let ascii : leb c 0x7F ≡ true = ground arith in
    rw (appended, append_utf8, encode_utf8, ascii) refl

-- A byte that is printed is read back in one round.
round-escape_byte :
    (acc t : Bytes) (c : ℕ)
    → (h : ℕ) × (tail : Bytes) × (escape_byte c ++ t ≡ h ∷ tail)
      × (string_round acc h tail ≡ ok (more (acc ++ c ∷ []) t))
unfolding escape_byte string_round escape_round simple_escape
round-escape_byte acc t c = elim (Bool-cases (c == 0x22)) [
  | inl e ↦ let s : c ≡ 0x22 = ground arith in rw s (0x5C, 0x22 ∷ t, refl, refl)
  | inr e1 ↦ elim (Bool-cases (c == 0x5C)) [
    | inl e ↦ let s : c ≡ 0x5C = ground arith in rw s (0x5C, 0x5C ∷ t, refl, refl)
    | inr e2 ↦ elim (Bool-cases (c == 0x08)) [
      | inl e ↦ let s : c ≡ 0x08 = ground arith in rw s (0x5C, b'b' ∷ t, refl, refl)
      | inr e3 ↦ elim (Bool-cases (c == 0x0C)) [
        | inl e ↦ let s : c ≡ 0x0C = ground arith in rw s (0x5C, b'f' ∷ t, refl, refl)
        | inr e4 ↦ elim (Bool-cases (c == 0x0A)) [
          | inl e ↦ let s : c ≡ 0x0A = ground arith in rw s (0x5C, b'n' ∷ t, refl, refl)
          | inr e5 ↦ elim (Bool-cases (c == 0x0D)) [
            | inl e ↦ let s : c ≡ 0x0D = ground arith in rw s (0x5C, b'r' ∷ t, refl, refl)
            | inr e6 ↦ elim (Bool-cases (c == 0x09)) [
              | inl e ↦ let s : c ≡ 0x09 = ground arith in rw s (0x5C, b't' ∷ t, refl, refl)
              | inr e7 ↦ elim (Bool-cases (ltb c 0x20)) [
                | inl e ↦
                    let small : c < 32 = ground arith in
                    (
                      0x5C,
                      b'u' ∷ b'0' ∷ b'0' ∷ hex_char (shr c 4) ∷ hex_char (bit_and c 0x0F) ∷ t,
                      rw (e1, e2, e3, e4, e5, e6, e7, e) refl,
                      rw (unicode_escape-pair c t small) (appended-ascii acc t c small),
                    )
                | inr e8 ↦ (c, t, rw (e1, e2, e3, e4, e5, e6, e7, e8) refl, rw (e1, e8, e2) refl)
              ]
            ]
          ]
        ]
      ]
    ]
  ]
]

escape_byte-length : (c : ℕ) → 0 < length (escape_byte c)
unfolding escape_byte
escape_byte-length c = ground arith

string_loop-escape_all :
    (fuel : ℕ) (acc v rest : Bytes)
    → length (escape_all v) < fuel
    → valid_utf8 (acc ++ v) ≡ true
    → string_loop fuel acc (escape_all v ++ 0x22 ∷ rest) ≡ ok (acc ++ v, rest)
unfolding escape_all string_loop
string_loop-escape_all zero acc v rest h valid = absurd (omega arith)
string_loop-escape_all (suc fuel) acc [] rest h valid =
    let read : valid_utf8 acc ≡ true = subst (λ s. valid_utf8 s ≡ true) (append-nil acc) valid in
    unfold string_round in rw (read, append-nil) refl
string_loop-escape_all (suc fuel) acc (c ∷ v) rest h valid =
    let (hd, tail, split, round) = round-escape_byte acc (escape_all v ++ 0x22 ∷ rest) c in
    let longer : length (escape_byte c ++ escape_all v)
        ≡ length (escape_byte c) + length (escape_all v) =
      length-append (escape_byte c) (escape_all v) in
    let joined : (acc ++ c ∷ []) ++ v ≡ acc ++ c ∷ v = append_assoc acc (c ∷ []) v in
    let more_valid : valid_utf8 ((acc ++ c ∷ []) ++ v) ≡ true = rw joined valid in
    let enough : length (escape_all v) < fuel = omega (arith, escape_byte-length c) in
    rw (append_assoc (escape_byte c) (escape_all v) (0x22 ∷ rest), split)
      (rw round (
        string_loop-escape_all fuel (acc ++ c ∷ []) v rest enough more_valid
        ∙ ap (λ s. ok (s, rest)) joined))

-- A byte string that `json_string` prints is read back by `parse_string`, repaired where it is no valid
-- UTF-8, and what follows it is left.
pub parse_string-json_string :
    (s rest : Bytes)
    → All IsByte s
    → parse_string (json_string s ++ rest) ≡ ok (sanitize_utf8 s, rest)
unfolding parse_string json_string take_byte whitespace next_is
parse_string-json_string s rest b =
    let split : (escape_all (sanitize_utf8 s) ++ 0x22 ∷ []) ++ rest
        ≡ escape_all (sanitize_utf8 s) ++ 0x22 ∷ rest =
      append_assoc (escape_all (sanitize_utf8 s)) (0x22 ∷ []) rest in
    let measured : length (escape_all (sanitize_utf8 s) ++ 0x22 ∷ rest)
        ≡ length (escape_all (sanitize_utf8 s)) + suc (length rest) =
      length-append (escape_all (sanitize_utf8 s)) (0x22 ∷ rest) in
    rw split (
      string_loop-escape_all (length (escape_all (sanitize_utf8 s) ++ 0x22 ∷ rest)) []
        (sanitize_utf8 s) rest (omega arith) (sanitize_utf8-valid s b))
