-- ===== src/Trellis/Expert.antt =====
-- src/expert_trellis.hpp: the walk by rows hands out the states of the recurrence.
use adi.Base.{ℕ, zero, suc, ◌+◌, ◌≡◌, refl, ap, ◌∙◌, ◌∷◌, map, bit_and, All, arith, range}
use adi.Base.Bits.{shr}
use adi.Trellis.{
  Words, word_at, expert_walk, for_each_expert_state, expert_window, expert_row, expert_rows,
  for_each_expert_row_state,
}
use adi.Trellis.Ne.{IsWord, word_at-IsWord, indexed}
use adi.Trellis.ExpertSteps.{window_value, expert_next-window}

expert_walk-windows :
    (words : Words) (count i : ℕ)
    → All IsWord words
    → i + count ≡ 31
    → expert_walk words count (i + 1) (expert_window words i)
      ≡ indexed (expert_window words) (range (i + 1) count)
unfolding expert_walk range
expert_walk-windows words zero i h e = refl
expert_walk-windows words (suc count) i h e = rw (
  expert_next-window words i h (omega arith),
  expert_walk-windows words count (i + 1) h (omega arith),
)

window_first : (words : Words) → All IsWord words → expert_window words 0 ≡ word_at words 0
window_first words h =
    window_value words 0 0 0 h refl (omega arith) (omega arith)
    ∙ omega (arith, word_at-IsWord words 0 h, word_at-IsWord words 1 h)

for_each_expert_state-windows :
    (words : Words)
    → All IsWord words
    → for_each_expert_state words ≡ indexed (expert_window words) (range 0 32)
unfolding for_each_expert_state range
for_each_expert_state-windows words h =
    rw (← window_first words h)
      (ap (λ l. (0, expert_window words 0) ∷ l) (expert_walk-windows words 31 0 h refl))

-- The row and the half of it that a state's index stands for: `i >> 1` and `i & 1`.
abbrev pub by_half_row : ℕ × ℕ → ℕ × ℕ × ℕ
by_half_row (i, state) = (shr i 1, bit_and i 1, state)

-- The walk by rows, whose states are read independently of one another, hands its consumer the
-- same states in the same order as the recurrence, with each index split into row and step.
pub for_each_expert_row_state-eq :
    (words : Words)
    → All IsWord words
    → for_each_expert_row_state words ≡ map by_half_row (for_each_expert_state words)
unfolding for_each_expert_row_state expert_rows expert_row range
for_each_expert_row_state-eq words h = rw (for_each_expert_state-windows words h)
