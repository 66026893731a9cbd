-- ===== src/Trellis/ExpertSteps.antt =====
-- src/expert_trellis.hpp: one transition. The register is a window of the stream, and a transition
-- moves it on by twelve bits.
use adi.Base.{
  ℕ, ◌+◌, ◌-◌, ◌*◌, ◌/◌, ◌%◌, ◌<◌, ◌^◌, ◌≡◌, refl, ◌⊎◌, inl, inr, ◌==◌, if◌then◌else◌, bit_or, All,
  arith,
}
use adi.Base.Bits.{shl, bit_and-mask, bit_or-disjoint}
use adi.Trellis.{Words, word_at, extract_expert_stream_bits, expert_next, expert_window}
use adi.Trellis.Ne.{IsWord, word_at-IsWord}

-- The pair of words that a read at word `q` looks at, the second one wrapping at the tile's end.
abbrev pub pair_at : Words → ℕ → ℕ
pair_at words q = word_at words q * 65536 + word_at words ((q + 1) % 24)

joined :
    (words : Words) (q next : ℕ)
    → All IsWord words
    → bit_or (shl (word_at words q) 16) (word_at words next)
      ≡ word_at words q * 65536 + word_at words next
joined words q next h =
    bit_or-disjoint 16 (word_at words q) (word_at words next) (word_at-IsWord words next h)

-- The window of a state whose bits start at offset `o` of word `q`.
pub window_value :
    (words : Words) (i q o : ℕ)
    → All IsWord words
    → i * 12 ≡ 16 * q + o
    → o < 16
    → q < 24
    → expert_window words i ≡ pair_at words q / 2 ^ (16 - o) % 65536
unfolding expert_window
window_value words i q o h e ho hq =
    rw (word, offset, next, joined words q ((q + 1) % 24) h)
      (bit_and-mask 16 (pair_at words q / 2 ^ (16 - o)) 0xFFFF refl)
  where
    word : i * 12 / 16 ≡ q
    word = omega arith

    offset : i * 12 % 16 ≡ o
    offset = omega arith

    next : (if q + 1 == 24 then 0 else q + 1) ≡ (q + 1) % 24
    next = ground arith

-- The twelve fresh bits at offset `o` of word `q`.
extract_value :
    (words : Words) (p q o : ℕ)
    → All IsWord words
    → p ≡ 16 * q + o
    → o < 16
    → q < 24
    → extract_expert_stream_bits words p ≡ pair_at words q / 2 ^ (32 - o - 12) % 4096
unfolding extract_expert_stream_bits
extract_value words p q o h e ho hq =
    rw (word, offset, joined words q ((q + 1) % 24) h)
      (bit_and-mask 12 (pair_at words q / 2 ^ (32 - o - 12)) 0xFFF refl)
  where
    word : p % 384 / 16 ≡ q
    word = omega arith

    offset : p % 384 % 16 ≡ o
    offset = omega arith

-- A transition from the window at offset `o` of word `q`, in plain arithmetic.
next_value :
    (words : Words) (i q o : ℕ)
    → All IsWord words
    → i * 12 ≡ 16 * q + o
    → o < 16
    → q < 23
    → expert_next words (i + 1) (expert_window words i)
      ≡ pair_at words q / 2 ^ (16 - o) % 65536 * 4096 % 65536
        + pair_at words (q + 1) / 2 ^ (32 - o - 12) % 4096
unfolding expert_next
next_value words i q o h e ho hq =
    rw
      (
        window_value words i q o h e ho (omega arith),
        extract_value words (16 + (i + 1 - 1) * 12) (q + 1) o h (omega arith) ho (omega arith),
        bit_and-mask 16 (pair_at words q / 2 ^ (16 - o) % 65536 * 4096) 0xFFFF refl,
        high,
      )
      (bit_or-disjoint 12 (pair_at words q / 2 ^ (16 - o) % 65536 % 16)
        (pair_at words (q + 1) / 2 ^ (32 - o - 12) % 4096) (omega arith))
  where
    high :
        pair_at words q / 2 ^ (16 - o) % 65536 * 4096 % 65536
        ≡ pair_at words q / 2 ^ (16 - o) % 65536 % 16 * 4096
    high = omega arith

-- The arithmetic of a transition at each offset. `a`, `b` and `c` are successive words.
module _ (a b c : ℕ) (ha : IsWord a) (hb : IsWord b) (hc : IsWord c) where
  from_0 :
      (a * 65536 + b) / 2 ^ 16 % 65536 * 4096 % 65536 + (b * 65536 + c) / 2 ^ 20 % 4096
      ≡ (a * 65536 + b) / 2 ^ 4 % 65536
  from_0 = omega arith

  from_4 :
      (a * 65536 + b) / 2 ^ 12 % 65536 * 4096 % 65536 + (b * 65536 + c) / 2 ^ 16 % 4096
      ≡ (b * 65536 + c) / 2 ^ 16 % 65536
  from_4 = omega arith

  from_8 :
      (a * 65536 + b) / 2 ^ 8 % 65536 * 4096 % 65536 + (b * 65536 + c) / 2 ^ 12 % 4096
      ≡ (b * 65536 + c) / 2 ^ 12 % 65536
  from_8 = omega arith

  from_12 :
      (a * 65536 + b) / 2 ^ 4 % 65536 * 4096 % 65536 + (b * 65536 + c) / 2 ^ 8 % 4096
      ≡ (b * 65536 + c) / 2 ^ 8 % 65536
  from_12 = omega arith

-- A transition moves the window on by one state.
module _ (words : Words) (h : All IsWord words) (i q : ℕ) where
  Advances : ℕ → Type 0
  Advances j = expert_next words (j + 1) (expert_window words j) ≡ expert_window words (j + 1)

  step_0 : i * 12 ≡ 16 * q + 0 → q < 23 → Advances i
  unfolding Advances
  step_0 e b =
      let wraps : (q + 1) % 24 ≡ q + 1 = omega arith in
      rw
        (
          next_value words i q 0 h e (omega arith) b,
          window_value words (i + 1) q 12 h (omega arith) (omega arith) (omega arith),
          wraps,
        )
        (from_0 (word_at words q) (word_at words (q + 1)) (word_at words ((q + 1 + 1) % 24))
          (word_at-IsWord words q h) (word_at-IsWord words (q + 1) h)
          (word_at-IsWord words ((q + 1 + 1) % 24) h))

  step_4 : i * 12 ≡ 16 * q + 4 → q < 23 → Advances i
  unfolding Advances
  step_4 e b =
      let wraps : (q + 1) % 24 ≡ q + 1 = omega arith in
      rw
        (
          next_value words i q 4 h e (omega arith) b,
          window_value words (i + 1) (q + 1) 0 h (omega arith) (omega arith) (omega arith),
          wraps,
        )
        (from_4 (word_at words q) (word_at words (q + 1)) (word_at words ((q + 1 + 1) % 24))
          (word_at-IsWord words q h) (word_at-IsWord words (q + 1) h)
          (word_at-IsWord words ((q + 1 + 1) % 24) h))

  step_8 : i * 12 ≡ 16 * q + 8 → q < 23 → Advances i
  unfolding Advances
  step_8 e b =
      let wraps : (q + 1) % 24 ≡ q + 1 = omega arith in
      rw
        (
          next_value words i q 8 h e (omega arith) b,
          window_value words (i + 1) (q + 1) 4 h (omega arith) (omega arith) (omega arith),
          wraps,
        )
        (from_8 (word_at words q) (word_at words (q + 1)) (word_at words ((q + 1 + 1) % 24))
          (word_at-IsWord words q h) (word_at-IsWord words (q + 1) h)
          (word_at-IsWord words ((q + 1 + 1) % 24) h))

  step_12 : i * 12 ≡ 16 * q + 12 → q < 23 → Advances i
  unfolding Advances
  step_12 e b =
      let wraps : (q + 1) % 24 ≡ q + 1 = omega arith in
      rw
        (
          next_value words i q 12 h e (omega arith) b,
          window_value words (i + 1) (q + 1) 8 h (omega arith) (omega arith) (omega arith),
          wraps,
        )
        (from_12 (word_at words q) (word_at words (q + 1)) (word_at words ((q + 1 + 1) % 24))
          (word_at-IsWord words q h) (word_at-IsWord words (q + 1) h)
          (word_at-IsWord words ((q + 1 + 1) % 24) h))

offset-cases :
    (i q : ℕ)
    → i * 12 / 16 ≡ q
    → ((i * 12 ≡ 16 * q + 0) ⊎ (i * 12 ≡ 16 * q + 4))
      ⊎ ((i * 12 ≡ 16 * q + 8) ⊎ (i * 12 ≡ 16 * q + 12))
offset-cases i q e = grind arith

pub expert_next-window :
    (words : Words) (i : ℕ)
    → All IsWord words
    → i < 31
    → expert_next words (i + 1) (expert_window words i) ≡ expert_window words (i + 1)
unfolding Advances
expert_next-window words i h b =
    let q : ℕ = i * 12 / 16 in
    let hq : i * 12 / 16 < 23 = omega arith in
    elim (offset-cases i q refl) [
      | inl (inl e) ↦ step_0 words h i q e hq
      | inl (inr e) ↦ step_4 words h i q e hq
      | inr (inl e) ↦ step_8 words h i q e hq
      | inr (inr e) ↦ step_12 words h i q e hq
    ]
