-- ===== src/Examples/TrellisRuns.antt =====
-- src/ne_trellis.hpp, src/expert_trellis.hpp at concrete tiles.
use adi.Base.{◌≡◌, refl, ◌∷◌, arith, map}
use adi.Base.{replicate}
use adi.Trellis.{
  Words, for_each_ne_state, for_each_ne_row_state, for_each_expert_state, for_each_expert_row_state,
  extract_expert_stream_bits,
}
use adi.Trellis.Ne.{by_row, for_each_ne_row_state-eq}
use adi.Trellis.Expert.{by_half_row, for_each_expert_row_state-eq}

abbrev ne_tile : Words
ne_tile = 0xABCD ∷ 0x1234 ∷ replicate 62 0x00FF

abbrev expert_tile : Words
expert_tile = 0xABCD ∷ 0x1234 ∷ replicate 22 0xF00F

-- the twelve bits at position 376 are the tail of the last word and the head of the first
wrapped_bits : extract_expert_stream_bits expert_tile 376 ≡ 0x0FA
unfolding extract_expert_stream_bits
wrapped_bits = refl

for_each_ne_row_state-eq_example :
    for_each_ne_row_state ne_tile ≡ map by_row (for_each_ne_state ne_tile)
for_each_ne_row_state-eq_example = for_each_ne_row_state-eq ne_tile (omega arith)

for_each_expert_row_state-eq_example :
    for_each_expert_row_state expert_tile ≡ map by_half_row (for_each_expert_state expert_tile)
for_each_expert_row_state-eq_example = for_each_expert_row_state-eq expert_tile (omega arith)
