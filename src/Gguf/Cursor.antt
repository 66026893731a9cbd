-- ===== src/Gguf/Cursor.antt =====
-- src/gguf.cpp: the class Cursor, bounds-checked reads from the mapped file.
use adi.Base.{ℕ, ◌+◌, ◌-◌, ◌*◌, Bool, ◌||◌, [], ◌∷◌, ltb, not, length, take, drop, if◌then◌else◌}
use adi.Base.Result.{Result, ok, err, ◌>>=◌, ◌>>◌, guard}
use adi.Utf8.{Bytes}

pub data GgufError : Type 0 where
  truncated_file : GgufError
  unknown_value_type : GgufError
  nested_too_deeply : GgufError
  array_size_overflows : GgufError
  bad_alignment : GgufError
  alignment_overflows : GgufError
  unsupported_tensor_type : GgufError
  byte_size_overflows : GgufError
  file_too_small : GgufError
  bad_magic : GgufError
  unsupported_version : GgufError
  directory_exceeds_file : GgufError
  duplicate_metadata_key : GgufError
  duplicate_tensor_name : GgufError
  unsupported_dimension_count : GgufError
  invalid_dimensions : GgufError
  data_outside_file : GgufError
  offset_overflows : GgufError
  range_outside_file : GgufError
  invalid_array_count : GgufError

-- 2 ^ 64 - 1, the greatest std::uint64_t
abbrev pub u64_max : ℕ
u64_max = 18446744073709551615

-- The number that the bytes stand for, the lowest one first: what memcpy gives on the supported
-- (little-endian) hosts.
unfoldable pub load_scalar : Bytes → ℕ
load_scalar [] = 0
load_scalar (byte ∷ bytes) = byte + 256 * load_scalar bytes

-- `count > size || position > size - count`
unfoldable pub outside : Bytes → ℕ → ℕ → Bool
outside file position count = ltb (length file) count || ltb (length file - count) position

unfoldable pub require : Bytes → ℕ → ℕ → Result GgufError (Unit {0})
require file position count = guard (not (outside file position count)) truncated_file

-- A scalar of `width` bytes, and the position behind it.
unfoldable pub read : Bytes → ℕ → ℕ → Result GgufError (ℕ × ℕ)
read file width position = do
  require file position width
  ok (load_scalar (take width (drop position file)), position + width)

unfoldable pub read_string : Bytes → ℕ → Result GgufError (Bytes × ℕ)
read_string file position = do
  (count, start) ← read file 8 position
  require file start count
  ok (take count (drop start file), start + count)

unfoldable pub skip : Bytes → ℕ → ℕ → Result GgufError ℕ
skip file count position = do require file position count; ok (position + count)

-- `GgufFile::at`: a range of the mapping.
unfoldable pub at : Bytes → ℕ → ℕ → Result GgufError Bytes
at file offset size =
    if ltb (length file) offset || ltb (length file - offset) size
    then err range_outside_file
    else ok (take size (drop offset file))
