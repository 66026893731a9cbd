-- ===== src/Gguf/File.antt =====
-- src/gguf.cpp, include/adi/gguf.hpp: the constructor of GgufFile, which reads the directory and
-- checks it against the file.
pub mod Directory
pub mod Tensors
pub mod Valid
use adi.Base.{
  ℕ, zero, suc, ◌+◌, ◌-◌, ◌*◌, ◌/◌, ◌%◌, ◌^◌, Bool, true, false, not, ◌||◌, List, [], ◌∷◌, ◌++◌,
  Option, none, some, ltb, leb, ◌==◌, if◌then◌else◌, length, list_eq, take, drop,
}
use adi.Base.Result.{Result, ok, err, ◌>>=◌, ◌>>◌, guard}
use adi.Base.Text.{codes}
use adi.Utf8.{Bytes}
use adi.Gguf.Cursor.{
  GgufError, file_too_small, bad_magic, unsupported_version, directory_exceeds_file,
  duplicate_metadata_key, duplicate_tensor_name, unsupported_dimension_count, invalid_dimensions,
  data_outside_file, offset_overflows, u64_max, read, read_string, at, load_scalar,
}
use adi.Gguf.Types.{
  GgufValueType, u8, i8, u16, i16, u32, i32, f32, boolean, string, array, u64, i64, f64, GgmlType,
  read_value_type, skip_value, scalar_size, ggml_type_of, tensor_bytes,
}
use adi.Gguf.Align.{align_up}

pub record GgufMetadata : Type 0 where
  pub key : Bytes
  pub type : GgufValueType
  pub value_offset : ℕ

pub record GgufTensor : Type 0 where
  pub name : Bytes
  pub dimensions : List ℕ
  pub type : GgmlType
  pub offset : ℕ
  pub elements : ℕ
  pub bytes : ℕ

unfoldable pub find_metadata : Bytes → List GgufMetadata → Option GgufMetadata
find_metadata key [] = none
find_metadata key (entry ∷ entries) =
    if list_eq entry.key key then some entry else find_metadata key entries

unfoldable pub find_tensor : Bytes → List GgufTensor → Option GgufTensor
find_tensor name [] = none
find_tensor name (tensor ∷ tensors) =
    if list_eq tensor.name name then some tensor else find_tensor name tensors

abbrev pub is_none {ℓ} : {A : Type ℓ} → Option A → Bool
is_none none = true
is_none (some a) = false

-- The loop over the metadata directory; `entries` are those read so far.
unfoldable pub read_metadata :
    Bytes → ℕ → List GgufMetadata → ℕ → Result GgufError (List GgufMetadata × ℕ)
read_metadata file zero entries position = ok (entries, position)
read_metadata file (suc count) entries position = do
  (key, p) ← read_string file position
  (type, value_offset) ← read_value_type file p
  guard (is_none (find_metadata key entries)) duplicate_metadata_key
  next ← skip_value file 9 type value_offset
  read_metadata file count
      (entries ++ record { key = key; type = type; value_offset = value_offset } ∷ []) next

-- A signed scalar of `width` bytes: its value if that is not negative.
abbrev pub not_negative : ℕ → ℕ → Option ℕ
not_negative width value = if ltb value (2 ^ (8 * width - 1)) then some value else none

unfoldable pub integer_value : GgufValueType → Bytes → Option ℕ
integer_value u8 bytes = some (load_scalar bytes)
integer_value u16 bytes = some (load_scalar bytes)
integer_value u32 bytes = some (load_scalar bytes)
integer_value u64 bytes = some (load_scalar bytes)
integer_value i8 bytes = not_negative 1 (load_scalar bytes)
integer_value i16 bytes = not_negative 2 (load_scalar bytes)
integer_value i32 bytes = not_negative 4 (load_scalar bytes)
integer_value i64 bytes = not_negative 8 (load_scalar bytes)
integer_value f32 bytes = none
integer_value boolean bytes = none
integer_value string bytes = none
integer_value array bytes = none
integer_value f64 bytes = none

unfoldable pub integer : Bytes → List GgufMetadata → Bytes → Result GgufError (Option ℕ)
integer file entries key = elim (find_metadata key entries) [
  | none ↦ ok none
  | some entry ↦ at file entry.value_offset (scalar_size entry.type) >>= λ bytes.
      ok (integer_value entry.type bytes)
]

-- The loop over the extents of a tensor, `count` of them; `elements` is their product so far.
unfoldable pub read_dimensions : Bytes → ℕ → List ℕ → ℕ → ℕ → Result GgufError (List ℕ × ℕ × ℕ)
read_dimensions file zero dimensions elements position = ok (dimensions, elements, position)
read_dimensions file (suc count) dimensions elements position = do
  (extent, next) ← read file 8 position
  guard (not (extent == 0 || ltb (u64_max / extent) elements)) invalid_dimensions
  read_dimensions file count (dimensions ++ extent ∷ []) (elements * extent % 2 ^ 64) next

abbrev pub max_dimensions : ℕ
max_dimensions = 4

-- One round of the loop over the tensor directory.
unfoldable pub read_tensor : Bytes → List GgufTensor → ℕ → Result GgufError (GgufTensor × ℕ)
read_tensor file tensors position = do
  (name, p₁) ← read_string file position
  guard (is_none (find_tensor name tensors)) duplicate_tensor_name
  (dimension_count, p₂) ← read file 4 p₁
  guard (not (dimension_count == 0 || ltb max_dimensions dimension_count))
      unsupported_dimension_count
  (dimensions, elements, p₃) ← read_dimensions file dimension_count [] 1 p₂
  (raw, p₄) ← read file 4 p₃
  (offset, p₅) ← read file 8 p₄
  bytes ← tensor_bytes (ggml_type_of raw) elements
  ok (
    record {
      name = name;
      dimensions = dimensions;
      type = ggml_type_of raw;
      offset = offset;
      elements = elements;
      bytes = bytes;
    },
    p₅,
  )

unfoldable pub read_tensors :
    Bytes → ℕ → List GgufTensor → ℕ → Result GgufError (List GgufTensor × ℕ)
read_tensors file zero tensors position = ok (tensors, position)
read_tensors file (suc count) tensors position = do
  (tensor, next) ← read_tensor file tensors position
  read_tensors file count (tensors ++ tensor ∷ []) next

-- The last loop: each offset is made absolute and its range checked.
unfoldable pub place_tensors : Bytes → ℕ → List GgufTensor → Result GgufError (List GgufTensor)
place_tensors file data_offset [] = ok []
place_tensors file data_offset (tensor ∷ tensors) = do
  guard (not (ltb (u64_max - data_offset) tensor.offset)) offset_overflows
  let offset = (tensor.offset + data_offset) % 2 ^ 64
  content ← at file offset tensor.bytes
  placed ← place_tensors file data_offset tensors
  ok (record tensor { offset = offset } ∷ placed)

pub record GgufFile : Type 0 where
  pub version : ℕ
  pub alignment : ℕ
  pub metadata : List GgufMetadata
  pub tensors : List GgufTensor

abbrev pub gguf_magic : ℕ
gguf_magic = 0x46554747

abbrev pub supported_version : ℕ
supported_version = 3

abbrev pub alignment_key : Bytes
alignment_key = codes "general.alignment"

abbrev pub default_alignment : ℕ
default_alignment = 32

abbrev pub alignment_or : Option ℕ → ℕ
alignment_or none = default_alignment
alignment_or (some alignment) = alignment

-- `GgufFile(path)`, from the mapped bytes on.
unfoldable pub parse_file : Bytes → Result GgufError GgufFile
parse_file file = do
  guard (leb 24 (length file)) file_too_small
  (magic, p₁) ← read file 4 0
  guard (magic == gguf_magic) bad_magic
  (version, p₂) ← read file 4 p₁
  guard (version == supported_version) unsupported_version
  (tensor_count, p₃) ← read file 8 p₂
  (metadata_count, p₄) ← read file 8 p₃
  guard (not (ltb (length file - p₄) tensor_count || ltb (length file - p₄) metadata_count))
      directory_exceeds_file
  (metadata, p₅) ← read_metadata file metadata_count [] p₄
  value ← integer file metadata alignment_key
  (tensors, p₆) ← read_tensors file tensor_count [] p₅
  data_offset ← align_up p₆ (alignment_or value)
  guard (leb data_offset (length file)) data_outside_file
  placed ← place_tensors file data_offset tensors
  ok (record {
    version = version;
    alignment = alignment_or value;
    metadata = metadata;
    tensors = placed;
  })
