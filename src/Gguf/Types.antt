-- ===== src/Gguf/Types.antt =====
-- src/gguf.cpp, include/adi/gguf.hpp: value types, tensor types, sizes, and the walk over a
-- metadata value.
use adi.Base.{ℕ, zero, suc, ◌*◌, ◌/◌, ◌%◌, ◌^◌, not, Option, none, some, ltb, ◌==◌, if◌then◌else◌}
use adi.Base.Result.{Result, ok, err, ◌>>=◌, ◌>>◌, guard}
use adi.Utf8.{Bytes}
use adi.Gguf.Cursor.{
  GgufError, unknown_value_type, nested_too_deeply, array_size_overflows, unsupported_tensor_type,
  byte_size_overflows, u64_max, read, read_string, skip,
}

pub data GgufValueType : Type 0 where
  u8 i8 u16 i16 u32 i32 f32 boolean string array u64 i64 f64 : GgufValueType

unfoldable pub value_type_of : ℕ → Option GgufValueType
value_type_of zero = some u8
value_type_of (suc zero) = some i8
value_type_of (suc (suc zero)) = some u16
value_type_of (suc (suc (suc zero))) = some i16
value_type_of (suc (suc (suc (suc zero)))) = some u32
value_type_of (suc (suc (suc (suc (suc zero))))) = some i32
value_type_of (suc (suc (suc (suc (suc (suc zero)))))) = some f32
value_type_of (suc (suc (suc (suc (suc (suc (suc zero))))))) = some boolean
value_type_of (suc (suc (suc (suc (suc (suc (suc (suc zero)))))))) = some string
value_type_of (suc (suc (suc (suc (suc (suc (suc (suc (suc zero))))))))) = some array
value_type_of (suc (suc (suc (suc (suc (suc (suc (suc (suc (suc zero)))))))))) = some u64
value_type_of (suc (suc (suc (suc (suc (suc (suc (suc (suc (suc (suc zero))))))))))) = some i64
value_type_of (suc (suc (suc (suc (suc (suc (suc (suc (suc (suc (suc (suc zero)))))))))))) =
    some f64
value_type_of _ = none

-- 0 for a type that is no scalar
unfoldable pub scalar_size : GgufValueType → ℕ
scalar_size u8 = 1
scalar_size i8 = 1
scalar_size boolean = 1
scalar_size u16 = 2
scalar_size i16 = 2
scalar_size u32 = 4
scalar_size i32 = 4
scalar_size f32 = 4
scalar_size u64 = 8
scalar_size i64 = 8
scalar_size f64 = 8
scalar_size string = 0
scalar_size array = 0

unfoldable pub read_value_type : Bytes → ℕ → Result GgufError (GgufValueType × ℕ)
read_value_type file position = do
  (raw, next) ← read file 4 position
  elim (value_type_of raw) [ some type ↦ ok (type, next) | none ↦ err unknown_value_type ]

-- `count` rounds of a step that moves the cursor.
pub repeat : ℕ → (ℕ → Result GgufError ℕ) → ℕ → Result GgufError ℕ
repeat zero step position = ok position
repeat (suc count) step position = step position >>= λ next. repeat count step next

-- An array's elements; `element` walks over one that is no scalar.
pub skip_array : Bytes → (GgufValueType → ℕ → Result GgufError ℕ) → ℕ → Result GgufError ℕ
skip_array file element position = do
  (element_type, p) ← read_value_type file position
  (count, q) ← read file 8 p
  if scalar_size element_type == 0 then repeat count (element element_type) q else do
    guard (not (ltb (u64_max / scalar_size element_type) count)) array_size_overflows
    skip file (count * scalar_size element_type % 2 ^ 64) q

-- `levels` counts down from 9 where the code's depth counts up from 0.
unfoldable pub skip_value : Bytes → ℕ → GgufValueType → ℕ → Result GgufError ℕ
skip_value file zero type position = err nested_too_deeply
skip_value file (suc levels) string position = read_string file position >>= λ (_, next). ok next
skip_value file (suc levels) array position = skip_array file (skip_value file levels) position
skip_value file (suc levels) type position = skip file (scalar_size type) position

-- The tensor types; a raw value that no enumerator has is `other`.
pub data GgmlType : Type 0 where
  f32 f16 i8 i16 i32 i64 f64 bf16 : GgmlType
  other : ℕ → GgmlType

unfoldable pub ggml_type_of : ℕ → GgmlType
ggml_type_of raw =
    if raw == 0
    then GgmlType.f32
    else if raw == 1
    then GgmlType.f16
    else if raw == 24
    then GgmlType.i8
    else if raw == 25
    then GgmlType.i16
    else if raw == 26
    then GgmlType.i32
    else if raw == 27
    then GgmlType.i64
    else if raw == 28
    then GgmlType.f64
    else if raw == 30
    then GgmlType.bf16
    else other raw

unfoldable pub element_size : GgmlType → Option ℕ
element_size GgmlType.i8 = some 1
element_size GgmlType.f16 = some 2
element_size GgmlType.i16 = some 2
element_size GgmlType.bf16 = some 2
element_size GgmlType.f32 = some 4
element_size GgmlType.i32 = some 4
element_size GgmlType.i64 = some 8
element_size GgmlType.f64 = some 8
element_size (other raw) = none

-- `elements * element_size` on std::uint64_t, behind its overflow test.
unfoldable pub tensor_bytes : GgmlType → ℕ → Result GgufError ℕ
tensor_bytes type elements = elim (element_size type) [
  | none ↦ err unsupported_tensor_type
  | some size ↦ do
    guard (not (ltb (u64_max / size) elements)) byte_size_overflows
    ok (elements * size % 2 ^ 64)
]
