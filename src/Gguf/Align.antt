-- ===== src/Gguf/Align.antt =====
-- src/gguf.cpp: `align_up`, with the power-of-two test and the masks of the source.
pub mod Laws
use adi.Base.{
  ℕ, zero, suc, ◌+◌, ◌-◌, ◌*◌, ◌/◌, ◌%◌, ◌^◌, ◌≤◌, ◌<◌, ◌≡◌, refl, Bool, true, false, not, ◌||◌,
  ltb, leb, ◌==◌, if◌then◌else◌, bit_and, arith,
}
use adi.Base.Result.{Result, ok, err}
use adi.Gguf.Cursor.{GgufError, bad_alignment, alignment_overflows, u64_max}

-- `~mask` on std::uint64_t
abbrev pub complement : ℕ → ℕ
complement mask = u64_max - mask

unfoldable pub align_up : ℕ → ℕ → Result GgufError ℕ
align_up value alignment =
    if alignment == 0 || not (bit_and alignment (alignment - 1) == 0)
    then err bad_alignment
    else if ltb (u64_max - (alignment - 1)) value
    then err alignment_overflows
    else ok (bit_and (value + (alignment - 1)) (complement (alignment - 1)))
