-- ===== src/Trellis.antt =====
-- src/ne_trellis.hpp, src/expert_trellis.hpp: the walks over the trellis states of a 16x16 tile.
-- A walk is the list of what it hands to its consumer, in order; a tile is the list of its 16-bit
-- words.
pub mod Ne
pub mod ExpertSteps
pub mod Expert
use adi.Base.{
  ℕ, zero, suc, ◌+◌, ◌-◌, ◌*◌, ◌/◌, ◌%◌, ◌<◌, ◌^◌, Bool, List, [], ◌∷◌, ◌++◌, ltb, ◌==◌,
  if◌then◌else◌, bit_and, bit_or, get_or,
}
use adi.Base.Bits.{shl, shr}

abbrev pub Words : Type 0
Words = List ℕ

-- `words[index]`
abbrev pub word_at : Words → ℕ → ℕ
word_at words index = get_or words index 0

abbrev pub ne_words_per_tile : ℕ
ne_words_per_tile = 64

abbrev pub ne_rows_per_tile : ℕ
ne_rows_per_tile = 16

abbrev pub ne_states_per_row : ℕ
ne_states_per_row = 8

-- `((state << 8) & 0xFFFFU) | byte`
pub ne_shift : ℕ → ℕ → ℕ
ne_shift state byte = bit_or (bit_and (shl state 8) 0xFFFF) byte

-- The loop over the words from `word` on, `count` of them, and the last state behind it.
pub ne_walk : Words → ℕ → ℕ → ℕ → ℕ → List (ℕ × ℕ)
ne_walk words zero word state_index state =
    (state_index, ne_shift state (shr (word_at words 0) 8)) ∷ []
ne_walk words (suc count) word state_index state =
    let high = ne_shift state (shr (word_at words word) 8) in
    let low = ne_shift high (bit_and (word_at words word) 0xFF) in
    (state_index, high)
    ∷ (state_index + 1, low)
    ∷ ne_walk words count (word + 1) (state_index + 2) low

pub for_each_ne_state : Words → List (ℕ × ℕ)
for_each_ne_state words =
    (0, word_at words 0) ∷ ne_walk words (ne_words_per_tile - 1) 1 1 (word_at words 0)

-- The state read from the stream as a window at `state_index`.
pub ne_window : Words → ℕ → ℕ
ne_window words state_index =
    let word = shr state_index 1 in
    let next = bit_and (word + 1) (ne_words_per_tile - 1) in
    if bit_and state_index 1 == 0
    then word_at words word
    else bit_or (shl (bit_and (word_at words word) 0xFF) 8) (shr (word_at words next) 8)

-- The steps of one row, `count` of them from `step` on.
pub ne_row : Words → ℕ → ℕ → ℕ → List (ℕ × ℕ × ℕ)
ne_row words zero local_row step = []
ne_row words (suc count) local_row step =
    (local_row, step, ne_window words (bit_or (shl local_row 3) step))
    ∷ ne_row words count local_row (step + 1)

pub ne_rows : Words → ℕ → ℕ → List (ℕ × ℕ × ℕ)
ne_rows words zero local_row = []
ne_rows words (suc count) local_row =
    ne_row words ne_states_per_row local_row 0 ++ ne_rows words count (local_row + 1)

pub for_each_ne_row_state : Words → List (ℕ × ℕ × ℕ)
for_each_ne_row_state words = ne_rows words ne_rows_per_tile 0

abbrev pub expert_words_per_tile : ℕ
expert_words_per_tile = 24

abbrev pub expert_states_per_tile : ℕ
expert_states_per_tile = 32

abbrev pub expert_stream_bits : ℕ
expert_stream_bits = 384

abbrev pub expert_register_bits : ℕ
expert_register_bits = 16

abbrev pub expert_fresh_bits : ℕ
expert_fresh_bits = 12

abbrev pub expert_rows_per_tile : ℕ
expert_rows_per_tile = 16

abbrev pub expert_states_per_row : ℕ
expert_states_per_row = 2

unfoldable pub extract_expert_stream_bits : Words → ℕ → ℕ
extract_expert_stream_bits words position =
    let bit = position % expert_stream_bits in
    let word = bit / 16 in
    let offset = bit % 16 in
    let window =
      bit_or (shl (word_at words word) 16) (word_at words ((word + 1) % expert_words_per_tile)) in
    bit_and (shr window (32 - offset - expert_fresh_bits)) (2 ^ expert_fresh_bits - 1)

-- The register after the transition into `state_index`.
pub expert_next : Words → ℕ → ℕ → ℕ
expert_next words state_index state = bit_or (bit_and (shl state expert_fresh_bits) 0xFFFF) (
    extract_expert_stream_bits words (expert_register_bits + (state_index - 1) * expert_fresh_bits))

-- The transitions into `state_index` and the states behind it, `count` of them.
pub expert_walk : Words → ℕ → ℕ → ℕ → List (ℕ × ℕ)
expert_walk words zero state_index state = []
expert_walk words (suc count) state_index state =
    let next = expert_next words state_index state in
    (state_index, next) ∷ expert_walk words count (state_index + 1) next

pub for_each_expert_state : Words → List (ℕ × ℕ)
for_each_expert_state words =
    (0, word_at words 0) ∷ expert_walk words (expert_states_per_tile - 1) 1 (word_at words 0)

pub expert_window : Words → ℕ → ℕ
expert_window words state_index =
    let position = state_index * expert_fresh_bits in
    let word = position / expert_register_bits in
    let offset = position % expert_register_bits in
    let next = if word + 1 == expert_words_per_tile then 0 else word + 1 in
    let window = bit_or (shl (word_at words word) expert_register_bits) (word_at words next) in
    bit_and (shr window (expert_register_bits - offset)) 0xFFFF

pub expert_row : Words → ℕ → ℕ → ℕ → List (ℕ × ℕ × ℕ)
expert_row words zero local_row step = []
expert_row words (suc count) local_row step =
    (local_row, step, expert_window words (bit_or (shl local_row 1) step))
    ∷ expert_row words count local_row (step + 1)

pub expert_rows : Words → ℕ → ℕ → List (ℕ × ℕ × ℕ)
expert_rows words zero local_row = []
expert_rows words (suc count) local_row =
    expert_row words expert_states_per_row local_row 0 ++ expert_rows words count (local_row + 1)

pub for_each_expert_row_state : Words → List (ℕ × ℕ × ℕ)
for_each_expert_row_state words = expert_rows words expert_rows_per_tile 0
