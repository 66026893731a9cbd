-- ===== src/Gguf/Query.antt =====
-- src/gguf.cpp: the queries on a parsed file. Numbers of floating type are left outside, and with
-- them `GgufFile::number`.
pub mod Total
use adi.Base.{
  ◌||◌, ℕ, zero, suc, ◌-◌, Bool, true, false, not, List, [], ◌∷◌, ◌++◌, Option, none, some, ltb,
  ◌==◌, if◌then◌else◌, length,
}
use adi.Base.Result.{Result, ok, ◌>>=◌, ◌>>◌, guard}
use adi.Utf8.{Bytes}
use adi.Gguf.Cursor.{GgufError, read, read_string, at, load_scalar, skip, invalid_array_count}
use adi.Gguf.Types.{
  GgufValueType, u8, u16, u32, boolean, string, array, u64, scalar_size, read_value_type,
}
use adi.Gguf.File.{GgufFile, GgufMetadata, GgufTensor, integer, find_metadata}

abbrev pub is_boolean : GgufValueType → Bool
is_boolean boolean = true
is_boolean _ = false

abbrev pub is_string : GgufValueType → Bool
is_string string = true
is_string _ = false

abbrev pub is_array : GgufValueType → Bool
is_array array = true
is_array _ = false

-- The entry of a key, if its value has the type that is asked for.
abbrev pub entry_of : (GgufValueType → Bool) → Bytes → List GgufMetadata → Option GgufMetadata
entry_of wanted key entries = elim (find_metadata key entries) [
  | none ↦ none
  | some entry ↦ if wanted entry.type then some entry else none
]

pub boolean_of : Bytes → GgufFile → Bytes → Result GgufError (Option Bool)
boolean_of file g key = elim (entry_of is_boolean key g.metadata) [
  | none ↦ ok none
  | some entry ↦ at file entry.value_offset 1 >>= λ bytes. ok (some (not (load_scalar bytes == 0)))
]

pub string_of : Bytes → GgufFile → Bytes → Result GgufError (Option Bytes)
string_of file g key = elim (entry_of is_string key g.metadata) [
  | none ↦ ok none
  | some entry ↦ do
    position ← skip file entry.value_offset 0
    (text, next) ← read_string file position
    ok (some text)
]

-- `count` strings from a position on, behind those read so far.
pub read_strings : Bytes → ℕ → List Bytes → ℕ → Result GgufError (List Bytes)
read_strings file zero values position = ok values
read_strings file (suc count) values position = do
  (text, next) ← read_string file position
  read_strings file count (values ++ text ∷ []) next

pub string_elements : Bytes → ℕ → Result GgufError (List Bytes)
string_elements file position = do
  (count, next) ← read file 8 position
  guard (not (ltb (length file - next) count)) invalid_array_count
  read_strings file count [] next

pub string_array : Bytes → GgufFile → Bytes → Result GgufError (List Bytes)
string_array file g key = elim (entry_of is_array key g.metadata) [
  | none ↦ ok []
  | some entry ↦ do
    position ← skip file entry.value_offset 0
    (type, p) ← read_value_type file position
    if is_string type then string_elements file p else ok []
]

-- The element types that an array of integers may have.
abbrev pub is_unsigned : GgufValueType → Bool
is_unsigned u8 = true
is_unsigned u16 = true
is_unsigned u32 = true
is_unsigned u64 = true
is_unsigned _ = false

pub read_integers : Bytes → ℕ → ℕ → List ℕ → ℕ → Result GgufError (List ℕ)
read_integers file width zero values position = ok values
read_integers file width (suc count) values position = do
  (value, next) ← read file width position
  read_integers file width count (values ++ value ∷ []) next

-- An element type that is no unsigned integer gives an empty result (at the first element, in the
-- source).
pub integer_array : Bytes → GgufFile → Bytes → Result GgufError (List ℕ)
integer_array file g key = elim (entry_of is_array key g.metadata) [
  | none ↦ ok []
  | some entry ↦ do
    position ← skip file entry.value_offset 0
    (type, p) ← read_value_type file position
    (count, q) ← read file 8 p
    let refused = scalar_size type == 0 || (ltb (length file - q) count || not (is_unsigned type))
    if refused then ok [] else read_integers file (scalar_size type) count [] q
]

pub tensor_data : Bytes → GgufTensor → Result GgufError Bytes
tensor_data file tensor = at file tensor.offset tensor.bytes
