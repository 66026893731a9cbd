-- ===== src/Utf8/Text.antt =====
-- src/utf8.cpp: whole texts. The scanner accepts exactly the concatenations of encoded scalar
-- values, and the repair of any text is such a concatenation.
use adi.Base.{
  ℕ, suc, ◌+◌, ◌-◌, ◌/◌, ◌%◌, ◌≤◌, ◌<◌, ◌≡◌, refl, ap, ◌∙◌, inl, inr, List, [], ◌∷◌, ◌++◌, arith,
  length, ltb, Bool-cases, append_assoc, length-append,
}
use adi.Base.Result.{ok}
use adi.Utf8.{Bytes, advance, scan_round, scan_from, encode_utf8}
use adi.Utf8.Sequence.{IsScalar, encode_one, encode_two, encode_three, encode_four}
use adi.Utf8.Rounds.{round_one, round_two, round_three, round_four}

-- How many bytes a code point takes, and that it can be written at all.
pub encode-IsScalar : (c : ℕ) {bs : Bytes} → encode_utf8 c ≡ ok bs → IsScalar c
unfolding encode_utf8
encode-IsScalar c e = ground arith

-- The bytes are the encodings of the code points, one after the other.
pub data Encodes : List ℕ → Bytes → Type 0 where
  end : Encodes [] []
  next :
      {c : ℕ} {cs : List ℕ} {bs t s : Bytes}
      → encode_utf8 c ≡ ok bs
      → s ≡ bs ++ t
      → Encodes cs t
      → Encodes (c ∷ cs) s

skips :
    (bs t : Bytes) (position : ℕ)
    → scan_from (length bs) position (bs ++ t) ≡ scan_from 0 position t
unfolding scan_from
skips [] [] position = refl
skips [] (b ∷ t) position = refl
skips (b ∷ bs) t position = skips bs t position

-- The round at an encoded code point, in the form that the loop takes it.
round_at :
    (a : ℕ) (bs t : Bytes) (position : ℕ)
    → scan_round a (bs ++ t) ≡ advance (suc (length bs))
    → scan_from 0 position (a ∷ bs ++ t) ≡ scan_from 0 (position + suc (length bs)) t
unfolding scan_from
round_at a bs t position e =
    let back : suc (length bs) - 1 ≡ length bs = omega arith in
    rw (e, scan_from) (rw back (skips bs t (position + suc (length bs))))

-- The four forms of an encoding.
pub data Form (c : ℕ) (bs : Bytes) : Type 0 where
  one : c < 0x80 → bs ≡ c ∷ [] → Form c bs
  two : 0x80 ≤ c → c < 0x800 → bs ≡ (0xC0 + c / 64) ∷ (0x80 + c % 64) ∷ [] → Form c bs
  three :
      0x800 ≤ c
      → c < 0x10000
      → IsScalar c
      → bs ≡ (0xE0 + c / 4096) ∷ (0x80 + c / 64 % 64) ∷ (0x80 + c % 64) ∷ []
      → Form c bs
  four :
      0x10000 ≤ c
      → c < 0x110000
      → bs
        ≡ (0xF0 + c / 262144) ∷ (0x80 + c / 4096 % 64) ∷ (0x80 + c / 64 % 64) ∷ (0x80 + c % 64) ∷ []
      → Form c bs

pub encode-Form : (c : ℕ) (bs : Bytes) → encode_utf8 c ≡ ok bs → Form c bs
encode-Form c bs e = elim (Bool-cases (ltb c 0x80)) [
  | inl p ↦ one (ground arith) (cc (encode_one c (ground arith)))
  | inr p ↦ elim (Bool-cases (ltb c 0x800)) [
    | inl q ↦ two (ground arith) (ground arith) (cc (encode_two c (ground arith) (ground arith)))
    | inr q ↦ elim (Bool-cases (ltb c 0x10000)) [
      | inl r ↦
          three (ground arith) (ground arith) scalar
            (cc (encode_three c (ground arith) (ground arith) scalar))
      | inr r ↦ four (ground arith) high (cc (encode_four c (ground arith) high))
    ]
  ]
]
  where
    scalar : IsScalar c
    scalar = encode-IsScalar c e

    high : c < 0x110000
    high = ground (arith, scalar)

-- The scanner steps over an encoded code point, whatever follows.
pub scan-encode :
    (c : ℕ) (bs t : Bytes) (position : ℕ)
    → Form c bs
    → scan_from 0 position (bs ++ t) ≡ scan_from 0 (position + length bs) t
scan-encode c bs t position (one h e) = rw e (round_at c [] t position (round_one c t h))
scan-encode c bs t position (two lo hi e) =
    rw e (round_at _ (_ ∷ []) t position (round_two c t lo hi))
scan-encode c bs t position (three lo hi s e) =
    rw e (round_at _ (_ ∷ _ ∷ []) t position (round_three c t lo hi s))
scan-encode c bs t position (four lo hi e) =
    rw e (round_at _ (_ ∷ _ ∷ _ ∷ []) t position (round_four c t lo hi))

-- Encoded text is passed over, up to whatever follows it.
pub scan_from-Encodes :
    {cs : List ℕ} {s : Bytes} (t : Bytes) (position : ℕ)
    → Encodes cs s
    → scan_from 0 position (s ++ t) ≡ scan_from 0 (position + length s) t
scan_from-Encodes rest position end = ap (λ p. scan_from 0 p rest) (omega arith)
scan_from-Encodes rest position (next {c} {cs} {bs} {t} {s} e q r) =
    rw (q, append_assoc bs t rest, scan-encode c bs (t ++ rest) position (encode-Form c bs e))
      (scan_from-Encodes rest (position + length bs) r ∙ ap (λ p. scan_from 0 p rest) total)
  where
    total : position + length bs + length t ≡ position + length (bs ++ t)
    total = omega (arith, length-append bs t)
