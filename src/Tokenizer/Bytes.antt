-- ===== src/Tokenizer/Bytes.antt =====
-- src/tokenizer.cpp: the bytes of a text, printed as code points and read back.
use adi.Base.{
  ℕ, zero, suc, ◌≤◌, ◌<◌, ◌≡◌, ◌≢◌, refl, ap, ◌∙◌, true, false, [], ◌∷◌, some, leb, ◌==◌, arith,
  Bool-cases, inl, inr, map, All,
}
use adi.Base.Result.{ok}
use adi.Utf8.{IsByte, encode_utf8}
use adi.Utf8.Text.{Encodes, end, next}
use adi.Utf8.Repair.{Encodes-valid}
use adi.Unicode.{utf8_codepoints}
use adi.Unicode.RoundTrip.{decode-Encodes}
use package.adi.Tokenizer.{
  Text, is_printed, extra_before, byte_codepoint, utf8, encode_bytes, find_byte, decoded_codepoint,
  decode_codepoints, decode_text,
}

extra_before-below : (value : ℕ) → extra_before value ≤ value
unfolding extra_before
extra_before-below zero = omega arith
extra_before-below (suc value) = let h = extra_before-below value in ground arith

same_zero : (a : ℕ) → a ≤ 0 → a ≡ 0
same_zero a h = omega arith

extra_before_mono : (a b : ℕ) → a ≤ b → extra_before a ≤ extra_before b
unfolding extra_before
extra_before_mono a zero h = let e = ap extra_before (same_zero a h) in omega arith
extra_before_mono a (suc b) h = elim (Bool-cases (leb a b)) [
  | inl e ↦ let k = extra_before_mono a b (ground arith) in ground arith
  | inr e ↦
      let same : a ≡ suc b = ground arith in
      let k : extra_before a ≡ extra_before (suc b) = ap extra_before same in omega arith
]

-- Bytes that do not stand for themselves are counted one by one.
extra_before-ltb : (a b : ℕ) → a < b → is_printed a ≡ false → extra_before a < extra_before b
unfolding extra_before
extra_before-ltb a b h p =
    let next : extra_before (suc a) ≡ suc (extra_before a) = rw p refl in
    let k = extra_before_mono (suc a) b (omega arith) in omega arith

below-printed : (a : ℕ) → is_printed a ≡ true → a < 256
unfolding is_printed
below-printed a h = ground arith

-- Two bytes have different code points.
byte_codepoint-different : (a b : ℕ) → a < b → byte_codepoint a ≢ byte_codepoint b
unfolding byte_codepoint
byte_codepoint-different a b h e = elim (Bool-cases (is_printed a)) [
  | inl p ↦ elim (Bool-cases (is_printed b)) [
    | inl q ↦ ground arith
    | inr q ↦ let small = below-printed a p in ground arith
  ]
  | inr p ↦ elim (Bool-cases (is_printed b)) [
    | inl q ↦ let small = below-printed b q in ground arith
    | inr q ↦ let less = extra_before-ltb a b h p in ground arith
  ]
]

find_byte_step_hit :
    (n codepoint : ℕ)
    → (byte_codepoint n == codepoint) ≡ true
    → find_byte (suc n) codepoint ≡ some n
unfolding find_byte
find_byte_step_hit n codepoint e = rw e refl

find_byte_step_miss :
    (n codepoint : ℕ)
    → (byte_codepoint n == codepoint) ≡ false
    → find_byte (suc n) codepoint ≡ find_byte n codepoint
unfolding find_byte
find_byte_step_miss n codepoint e = rw e refl

find_byte-byte_codepoint : (n byte : ℕ) → byte < n → find_byte n (byte_codepoint byte) ≡ some byte
find_byte-byte_codepoint zero byte h = absurd (omega arith)
find_byte-byte_codepoint (suc n) byte h = elim (Bool-cases (n == byte)) [
  | inl e ↦
      let same : n ≡ byte = ground arith in
      find_byte_step_hit n (byte_codepoint byte) (let k = ap byte_codepoint same in ground arith)
      ∙ ap some same
  | inr e ↦
      let differ : byte_codepoint byte ≢ byte_codepoint n =
        byte_codepoint-different byte n (ground arith) in
      find_byte_step_miss n (byte_codepoint byte) (ground arith)
      ∙ find_byte-byte_codepoint n byte (ground arith)
]

byte_codepoint-below : (byte : ℕ) → byte < 256 → byte_codepoint byte < 512
unfolding byte_codepoint
byte_codepoint-below byte h = let k = extra_before-below byte in ground arith

encode_utf8-utf8 : (codepoint : ℕ) → codepoint < 512 → encode_utf8 codepoint ≡ ok (utf8 codepoint)
unfolding encode_utf8 utf8
encode_utf8-utf8 codepoint h = ground arith

pub encode_bytes-Encodes :
    (piece : Text) → All IsByte piece → Encodes (map byte_codepoint piece) (encode_bytes piece)
unfolding encode_bytes
encode_bytes-Encodes [] h = end
encode_bytes-Encodes (byte ∷ piece) (b, h) =
    next {bs = utf8 (byte_codepoint byte)}
      (encode_utf8-utf8 (byte_codepoint byte) (byte_codepoint-below byte b)) refl
      (encode_bytes-Encodes piece h)

decoded_codepoint-byte :
    (byte : ℕ) → byte < 256 → decoded_codepoint (byte_codepoint byte) ≡ ok (byte ∷ [])
unfolding decoded_codepoint
decoded_codepoint-byte byte h =
    let e = find_byte-byte_codepoint 256 byte h in rw (e, decoded_codepoint) refl

decode_codepoints-bytes :
    (piece : Text) → All IsByte piece → decode_codepoints (map byte_codepoint piece) ≡ ok piece
unfolding decode_codepoints
decode_codepoints-bytes [] h = refl
decode_codepoints-bytes (byte ∷ piece) (b, h) =
    rw (decoded_codepoint-byte byte b, decode_codepoints-bytes piece h) refl

-- What the tokenizer prints for the bytes of a text, `decode` reads back as that text, for any bytes,
-- valid UTF-8 or not.
pub decode_text-encode_bytes :
    (piece : Text) → All IsByte piece → decode_text (encode_bytes piece) ≡ ok piece
unfolding decode_text
decode_text-encode_bytes piece h =
    let encodes = encode_bytes-Encodes piece h in
    let read : utf8_codepoints (encode_bytes piece) ≡ ok (map byte_codepoint piece) =
      unfold utf8_codepoints in rw (Encodes-valid encodes, decode-Encodes encodes) refl in
    rw (read, decode_text) (decode_codepoints-bytes piece h)
