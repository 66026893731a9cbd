-- ===== src/Trellis/Ne.antt =====
-- src/ne_trellis.hpp: the walk by rows hands out the states of the recurrence.
use adi.Base.{
  ℕ, zero, suc, ◌+◌, ◌*◌, ◌/◌, ◌%◌, ◌<◌, ◌^◌, ◌≡◌, refl, ap, sym, ◌∙◌, List, [], ◌∷◌, map, bit_and,
  get_or, All, arith, range,
}
use adi.Base.Bits.{shr, bit_and-mask, bit_or-disjoint}
use adi.Trellis.{
  Words, word_at, ne_shift, ne_walk, for_each_ne_state, ne_window, ne_row, ne_rows,
  for_each_ne_row_state,
}

abbrev pub IsWord : ℕ → Type 0
IsWord w = w < 2 ^ 16

pub word_at-IsWord : (words : Words) (i : ℕ) → All IsWord words → IsWord (word_at words i)
word_at-IsWord [] i h = omega arith
word_at-IsWord (w ∷ ws) zero h = h.0
word_at-IsWord (w ∷ ws) (suc i) h = word_at-IsWord ws i h.1

shift_value : (s b : ℕ) → b < 256 → ne_shift s b ≡ s % 256 * 256 + b
unfolding ne_shift
shift_value s b h =
    let value : s * 256 % 65536 ≡ s % 256 * 256 = omega arith in
    rw (bit_and-mask 16 (s * 256) 0xFFFF refl, value) (bit_or-disjoint 8 (s % 256) b (omega arith))

window_even : (words : Words) (k : ℕ) → ne_window words (2 * k) ≡ word_at words k
unfolding ne_window
window_even words k = ground (arith, bit_and-mask 1 (2 * k) 1 refl, half)
  where
    half : get_or words (2 * k / 2) 0 ≡ get_or words k 0
    half = ap (λ i. get_or words i 0) (omega arith)

window_odd :
    (words : Words) (k : ℕ)
    → All IsWord words
    → ne_window words (2 * k + 1) ≡ word_at words k % 256 * 256 + word_at words ((k + 1) % 64) / 256
unfolding ne_window
window_odd words k h =
    rw (bit, half, bit_and-mask 6 (k + 1) 63 refl, bit_and-mask 8 (word_at words k) 0xFF refl)
      (bit_or-disjoint 8 (word_at words k % 256) (word_at words ((k + 1) % 64) / 256)
        (omega (arith, word_at-IsWord words ((k + 1) % 64) h)))
  where
    half : (2 * k + 1) / 2 ≡ k
    half = omega arith

    bit : bit_and (2 * k + 1) 1 ≡ 1
    bit = bit_and-mask 1 (2 * k + 1) 1 refl ∙ omega arith

abbrev pub indexed : (ℕ → ℕ) → List ℕ → List (ℕ × ℕ)
indexed state = map (λ i. (i, state i))

-- The states of one word and its predecessor, as windows.
high_state :
    (words : Words) (k next : ℕ)
    → All IsWord words
    → (k + 1) % 64 ≡ next
    → ne_shift (word_at words k) (shr (word_at words next) 8) ≡ ne_window words (2 * k + 1)
high_state words k next h e =
    shift_value (word_at words k) (word_at words next / 256)
      (omega (arith, word_at-IsWord words next h))
    ∙ sym (window_odd words k h ∙ ap (λ j. word_at words k % 256 * 256 + word_at words j / 256) e)

low_state :
    (words : Words) (k s : ℕ)
    → All IsWord words
    → ne_shift (ne_shift s (shr (word_at words k) 8)) (bit_and (word_at words k) 0xFF)
      ≡ word_at words k
low_state words k s h =
    let bound = word_at-IsWord words k h in
    rw
      (
        shift_value s (word_at words k / 256) (omega arith),
        bit_and-mask 8 (word_at words k) 0xFF refl,
      )
      (shift_value _ (word_at words k % 256) (omega arith) ∙ omega arith)

ne_walk-windows :
    (words : Words) (count k : ℕ)
    → All IsWord words
    → k + 1 + count ≡ 64
    → ne_walk words count (k + 1) (2 * k + 1) (word_at words k)
      ≡ indexed (ne_window words) (range (2 * k + 1) (2 * count + 1))
unfolding ne_walk range
ne_walk-windows words zero k h e =
    ap (λ s. (2 * k + 1, s) ∷ []) (high_state words k 0 h (omega arith))
ne_walk-windows words (suc count) k h e =
    let n : 2 * suc count + 1 ≡ suc (suc (2 * count + 1)) = omega arith in
    let even : 2 * k + 1 + 1 ≡ 2 * (k + 1) = omega arith in
    let odd : 2 * k + 1 + 2 ≡ 2 * (k + 1) + 1 = omega arith in
    rw (
      n,
      low_state words (k + 1) (word_at words k) h,
      high_state words k (k + 1) h (omega arith),
      odd,
      ne_walk-windows words count (k + 1) h (omega arith),
      even,
      window_even words (k + 1),
    )

-- Each state of the recurrence is the window of the stream at its index.
for_each_ne_state-windows :
    (words : Words)
    → All IsWord words
    → for_each_ne_state words ≡ indexed (ne_window words) (range 0 128)
unfolding for_each_ne_state range
for_each_ne_state-windows words h =
    ap (λ l. (0, word_at words 0) ∷ l) (ne_walk-windows words 63 0 h refl)
    ∙ ap (λ s. (0, s) ∷ indexed (ne_window words) (range 1 127)) (sym (window_even words 0))

-- The row and the step within it of a state's index: `i >> 3` and `i & 7`.
abbrev pub by_row : ℕ × ℕ → ℕ × ℕ × ℕ
by_row (i, state) = (shr i 3, bit_and i 7, state)

-- The walk by rows, whose states are read independently of one another, hands its consumer the
-- same states in the same order as the recurrence, with each index split into row and step.
pub for_each_ne_row_state-eq :
    (words : Words)
    → All IsWord words
    → for_each_ne_row_state words ≡ map by_row (for_each_ne_state words)
unfolding for_each_ne_row_state ne_rows ne_row range
for_each_ne_row_state-eq words h = rw (for_each_ne_state-windows words h)
