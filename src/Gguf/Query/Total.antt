-- ===== src/Gguf/Query/Total.antt =====
-- src/gguf.cpp: queries on an accepted file do not fail.
use adi.Base.{
  ℕ, ◌≡◌, subst, List, [], ◌∷◌, Option, none, some, length, list_eq, take, drop, arith, Bool-cases,
  Option-cases, inl, inr, All, length-take, length-drop,
}
use adi.Base.Result.{ok}
use adi.Utf8.{Bytes}
use adi.Gguf.Cursor.{at}
use adi.Gguf.Types.{scalar_size}
use adi.Gguf.File.{
  GgufFile, GgufMetadata, GgufTensor, integer, integer_value, find_metadata, find_tensor,
  parse_file,
}
use adi.Gguf.File.Directory.{InFile, Readable}
use adi.Gguf.File.Tensors.{Stored}
use adi.Gguf.File.Valid.{parse_file-IsValidFile}
use adi.Gguf.Query.{tensor_data}

pub at-returns :
    (file : Bytes) (offset size : ℕ)
    → InFile file offset size
    → at file offset size ≡ ok (take size (drop offset file))
unfolding at
at-returns file offset size h = ground arith

found-Readable :
    (file key : Bytes) (entries : List GgufMetadata) (entry : GgufMetadata)
    → All (Readable file) entries
    → find_metadata key entries ≡ some entry
    → Readable file entry
unfolding find_metadata
found-Readable file key [] entry h e = cc
found-Readable file key (x ∷ entries) entry (r, h) e = elim (Bool-cases (list_eq x.key key)) [
  | inl same ↦ let it : x ≡ entry = ground arith in subst (λ y. Readable file y) it r
  | inr other ↦ found-Readable file key entries entry h (ground arith)
]

found-Stored :
    (file name : Bytes) (tensors : List GgufTensor) (tensor : GgufTensor)
    → All (Stored file) tensors
    → find_tensor name tensors ≡ some tensor
    → Stored file tensor
unfolding find_tensor
found-Stored file name [] tensor h e = cc
found-Stored file name (x ∷ tensors) tensor (r, h) e = elim (Bool-cases (list_eq x.name name)) [
  | inl same ↦ let it : x ≡ tensor = ground arith in subst (λ y. Stored file y) it r
  | inr other ↦ found-Stored file name tensors tensor h (ground arith)
]

-- The content of a tensor that is found in an accepted file can be read, and has as many bytes as
-- the tensor says.
pub tensor_data-returns :
    (file name : Bytes) (g : GgufFile) (tensor : GgufTensor)
    → parse_file file ≡ ok g
    → find_tensor name g.tensors ≡ some tensor
    → (content : Bytes) × (tensor_data file tensor ≡ ok content) × (length content ≡ tensor.bytes)
unfolding tensor_data
tensor_data-returns file name g tensor p e =
    let stored =
      found-Stored file name g.tensors tensor (parse_file-IsValidFile file g p).stored e in
    (
      take tensor.bytes (drop tensor.offset file),
      at-returns file tensor.offset tensor.bytes stored,
      omega (
        arith,
        length-take tensor.bytes (drop tensor.offset file),
        length-drop tensor.offset file,
        stored,
      ),
    )

-- Asking an accepted file for an integer never fails, whatever the key and the type of its value.
pub integer-returns :
    (file key : Bytes) (g : GgufFile)
    → parse_file file ≡ ok g
    → (value : Option ℕ) × (integer file g.metadata key ≡ ok value)
unfolding integer
integer-returns file key g p = elim (Option-cases (find_metadata key g.metadata)) [
  | inl q ↦ (none, rw (q, integer))
  | inr (entry, q) ↦
      let r =
        found-Readable file key g.metadata entry
          (parse_file-IsValidFile file g p).directory.readable q in
      (
        integer_value entry.type (take (scalar_size entry.type) (drop entry.value_offset file)),
        rw (q, integer) (rw (at-returns file entry.value_offset (scalar_size entry.type) r)),
      )
]
