-- ===== src/Utf8/Sound.antt =====
-- src/utf8.cpp: what a round of the scanner steps over is the encoding of a scalar value.
use adi.Base.{
  ℕ, suc, ◌+◌, ◌-◌, ◌*◌, ◌%◌, ◌≤◌, ◌≡◌, refl, ap, sym, ◌∙◌, inl, inr, true, false, [], ◌∷◌, ◌++◌,
  some, arith, length, Bool-cases, Option-cases, All, leb, between,
}
use adi.Base.Result.{ok}
use adi.Utf8.{
  Bytes, IsByte, lead_of, Lead, is_continuation, continue_codepoint, is_scalar_from, advance,
  scan_sequence, scan_round, encode_utf8,
}
use adi.Utf8.Sequence.{
  IsScalar, IsTrail, encode_one, encode_two, encode_three, encode_four, is_continuation_iff,
  continue_step,
}
use adi.Utf8.Rounds.{lead_two, lead_three, lead_four}

-- A step of `n` bytes over the encoding of a code point at the front of the input.
pub record Steps (n : ℕ) (input : Bytes) : Type 0 where
  pub codepoint : ℕ
  pub bytes : Bytes
  pub tail : Bytes
  pub encodes : encode_utf8 codepoint ≡ ok bytes
  pub splits : input ≡ bytes ++ tail
  pub counts : length bytes ≡ n

-- The continuation loop read one byte and went on.
record Continues (n codepoint : ℕ) (rest : Bytes) (result : ℕ) : Type 0 where
  byte : ℕ
  tail : Bytes
  splits : rest ≡ byte ∷ tail
  bounded : All IsByte tail
  trails : IsTrail byte
  goes_on : continue_codepoint n (codepoint * 64 + byte % 64) tail ≡ some result

continues :
    (n codepoint : ℕ) (rest : Bytes) {result : ℕ}
    → All IsByte rest
    → continue_codepoint (suc n) codepoint rest ≡ some result
    → Continues n codepoint rest result
continues n codepoint [] h e = unfold continue_codepoint in cc
continues n codepoint (b ∷ t) (hb, ht) e = elim (Bool-cases (is_continuation b)) [
  | inl c ↦
      let trail : IsTrail b = is_continuation_iff b hb c in
      record {
        byte = b;
        tail = t;
        splits = refl;
        bounded = ht;
        trails = trail;
        goes_on = sym (continue_step n codepoint b t trail) ∙ e;
      }
  | inr c ↦ absurd (not_trail c)
]
  where
    not_trail : is_continuation b ≡ false → ⊥
    not_trail c = unfold continue_codepoint in ground arith

-- What a round at a multi-byte sequence has tested when it advances.
record Accepts (lead : Lead) (rest : Bytes) (n : ℕ) : Type 0 where
  codepoint : ℕ
  read : continue_codepoint (lead.length - 1) lead.codepoint rest ≡ some codepoint
  accepted : is_scalar_from lead.minimum codepoint ≡ true
  whole : n ≡ lead.length

accepts :
    (lead : Lead) (rest : Bytes) (n : ℕ) → scan_sequence lead rest ≡ advance n → Accepts lead rest n
unfolding scan_sequence
accepts lead rest n e =
    elim (Option-cases (continue_codepoint (lead.length - 1) lead.codepoint rest)) [
      | inl q ↦ absurd (ground arith)
      | inr (c, q) ↦ elim (Bool-cases (is_scalar_from lead.minimum c)) [
        | inl s ↦ record { codepoint = c; read = q; accepted = s; whole = ground arith }
        | inr s ↦ absurd (ground arith)
      ]
    ]

two_bytes :
    (a b : ℕ)
    → 0xC2 ≤ a
    → a ≤ 0xDF
    → IsTrail b
    → encode_utf8 (a % 32 * 64 + b % 64) ≡ ok (a ∷ b ∷ [])
two_bytes a b lo hi t =
    ground (arith, encode_two (a % 32 * 64 + b % 64) (omega arith) (omega arith))

IsScalar-bounds : (m c : ℕ) → 0x800 ≤ m → is_scalar_from m c ≡ true → (m ≤ c) × IsScalar c
unfolding is_scalar_from
IsScalar-bounds m c h e = ground arith

three_bytes :
    (a b d c : ℕ)
    → 0xE0 ≤ a
    → a ≤ 0xEF
    → IsTrail b
    → IsTrail d
    → c ≡ (a % 16 * 64 + b % 64) * 64 + d % 64
    → is_scalar_from 0x800 c ≡ true
    → encode_utf8 c ≡ ok (a ∷ b ∷ d ∷ [])
three_bytes a b d c lo hi tb td e s =
    let (least, scalar) = IsScalar-bounds 0x800 c (omega arith) s in
    ground (arith, encode_three c least (omega arith) scalar)

four_bytes :
    (a b d f c : ℕ)
    → 0xF0 ≤ a
    → a ≤ 0xF4
    → IsTrail b
    → IsTrail d
    → IsTrail f
    → c ≡ ((a % 8 * 64 + b % 64) * 64 + d % 64) * 64 + f % 64
    → is_scalar_from 0x10000 c ≡ true
    → encode_utf8 c ≡ ok (a ∷ b ∷ d ∷ f ∷ [])
four_bytes a b d f c lo hi tb td tf e s =
    let (least, scalar) = IsScalar-bounds 0x10000 c (omega arith) s in
    ground (arith, encode_four c least (omega arith))

continue_end :
    (codepoint : ℕ) (rest : Bytes) {c : ℕ}
    → continue_codepoint 0 codepoint rest ≡ some c
    → c ≡ codepoint
unfolding continue_codepoint
continue_end codepoint rest e = cc

Steps-two :
    (a : ℕ) (rest : Bytes) (n : ℕ)
    → 0xC2 ≤ a
    → a ≤ 0xDF
    → All IsByte rest
    → scan_sequence (record { length = 2; codepoint = a % 32; minimum = 0x80 }) rest ≡ advance n
    → Steps n (a ∷ rest)
Steps-two a rest n lo hi h e =
    let s = accepts _ rest n e in
    let one = continues 0 (a % 32) rest h s.read in
    record {
      codepoint = a % 32 * 64 + one.byte % 64;
      bytes = a ∷ one.byte ∷ [];
      tail = one.tail;
      encodes = two_bytes a one.byte lo hi one.trails;
      splits = ap (λ t. a ∷ t) one.splits;
      counts = sym s.whole;
    }

Steps-three :
    (a : ℕ) (rest : Bytes) (n : ℕ)
    → 0xE0 ≤ a
    → a ≤ 0xEF
    → All IsByte rest
    → scan_sequence (record { length = 3; codepoint = a % 16; minimum = 0x800 }) rest ≡ advance n
    → Steps n (a ∷ rest)
Steps-three a rest n lo hi h e =
    let s = accepts _ rest n e in
    let one = continues 1 (a % 16) rest h s.read in
    let two = continues 0 _ one.tail one.bounded one.goes_on in
    record {
      codepoint = s.codepoint;
      bytes = a ∷ one.byte ∷ two.byte ∷ [];
      tail = two.tail;
      encodes =
          three_bytes a one.byte two.byte s.codepoint lo hi one.trails two.trails
            (continue_end _ two.tail two.goes_on) s.accepted;
      splits = ap (λ t. a ∷ t) (one.splits ∙ ap (λ t. one.byte ∷ t) two.splits);
      counts = sym s.whole;
    }

Steps-four :
    (a : ℕ) (rest : Bytes) (n : ℕ)
    → 0xF0 ≤ a
    → a ≤ 0xF4
    → All IsByte rest
    → scan_sequence (record { length = 4; codepoint = a % 8; minimum = 0x10000 }) rest ≡ advance n
    → Steps n (a ∷ rest)
Steps-four a rest n lo hi h e =
    let s = accepts _ rest n e in
    let one = continues 2 (a % 8) rest h s.read in
    let two = continues 1 _ one.tail one.bounded one.goes_on in
    let three = continues 0 _ two.tail two.bounded two.goes_on in
    record {
      codepoint = s.codepoint;
      bytes = a ∷ one.byte ∷ two.byte ∷ three.byte ∷ [];
      tail = three.tail;
      encodes =
          four_bytes a one.byte two.byte three.byte s.codepoint lo hi one.trails two.trails
            three.trails (continue_end _ three.tail three.goes_on) s.accepted;
      splits =
          ap (λ t. a ∷ t)
            (one.splits
              ∙ ap (λ t. one.byte ∷ t) (two.splits ∙ ap (λ t. two.byte ∷ t) three.splits));
      counts = sym s.whole;
    }

Steps-one : (a : ℕ) (rest : Bytes) (n : ℕ) → a ≤ 0x7F → n ≡ 1 → Steps n (a ∷ rest)
Steps-one a rest n h e = record {
  codepoint = a;
  bytes = a ∷ [];
  tail = rest;
  encodes = encode_one a (omega arith);
  splits = refl;
  counts = sym e;
}

-- A round that advances steps over the encoding of a code point.
pub scan_round_sound :
    (first : ℕ) (rest : Bytes) (n : ℕ)
    → All IsByte rest
    → scan_round first rest ≡ advance n
    → Steps n (first ∷ rest)
unfolding scan_round
scan_round_sound first rest n h e = elim (Bool-cases (leb first 0x7F)) [
  | inl q ↦ Steps-one first rest n (ground arith) (ground arith)
  | inr q₁ ↦ elim (Bool-cases (between 0xC2 0xDF first)) [
    | inl q ↦
        Steps-two first rest n (ground arith) (ground arith) h
          (ground (arith, lead_two first (ground arith) (ground arith)))
    | inr q₂ ↦ elim (Bool-cases (between 0xE0 0xEF first)) [
      | inl q ↦
          Steps-three first rest n (ground arith) (ground arith) h
            (ground (arith, lead_three first (ground arith) (ground arith)))
      | inr q₃ ↦ elim (Bool-cases (between 0xF0 0xF4 first)) [
        | inl q ↦
            Steps-four first rest n (ground arith) (ground arith) h
              (ground (arith, lead_four first (ground arith) (ground arith)))
        | inr q₄ ↦ absurd (no_lead q₁ q₂ q₃ q₄)
      ]
    ]
  ]
]
  where
    no_lead :
        leb first 0x7F ≡ false
        → between 0xC2 0xDF first ≡ false
        → between 0xE0 0xEF first ≡ false
        → between 0xF0 0xF4 first ≡ false
        → ⊥
    no_lead q₁ q₂ q₃ q₄ = unfold lead_of in ground arith
