-- ===== src/Gguf/File/Directory.antt =====
-- src/gguf.cpp: what holds of the metadata directory when the constructor has read it.
use adi.Base.{
  ℕ, zero, suc, ◌+◌, ◌≤◌, ◌≡◌, refl, ap, true, List, [], ◌∷◌, ◌++◌, length, list_eq, arith,
  Bool-cases, inl, inr, map, All, All-append, list_eq_refl,
}
use adi.Base.Text.{NotIn, Distinct, Distinct-snoc}
use adi.Base.Result.{Ensures, holds, Ensures-of, Ensures-bind, Ensures-guard, Ensures-after}
use adi.Utf8.{Bytes}
use adi.Gguf.Cursor.{outside, require, read, read_string, skip}
use adi.Gguf.Types.{
  GgufValueType, u8, i8, u16, i16, u32, i32, f32, boolean, string, array, u64, i64, f64,
  read_value_type, skip_value, scalar_size,
}
use adi.Gguf.File.{GgufMetadata, find_metadata, read_metadata, is_none}

-- A range of the file.
abbrev pub InFile : Bytes → ℕ → ℕ → Type 0
InFile file offset size = offset + size ≤ length file

pub require-Ensures :
    (file : Bytes) (position count : ℕ)
    → Ensures (λ _. InFile file position count) (require file position count)
unfolding require outside
require-Ensures file position count = Ensures-of _ λ _ e. ground arith

pub read-Ensures :
    (file : Bytes) (width position : ℕ)
    → Ensures (λ r. (r.1 ≡ position + width) × (r.1 ≤ length file)) (read file width position)
unfolding read
read-Ensures file width position =
    Ensures-bind (require-Ensures file position width) λ _ h. holds (refl, h)

pub skip-Ensures :
    (file : Bytes) (count position : ℕ)
    → Ensures (λ _. InFile file position count) (skip file count position)
unfolding skip
skip-Ensures file count position = Ensures-bind (require-Ensures file position count) λ _ h. holds h

pub read_value_type-Ensures :
    (file : Bytes) (position : ℕ) → Ensures (λ r. r.1 ≤ length file) (read_value_type file position)
unfolding read_value_type
read_value_type-Ensures file position =
    Ensures-bind (read-Ensures file 4 position) λ r h. Ensures-of _ λ a e. ground arith

-- A value that the walk passes over has its scalar bytes, if it is one, in the file.
pub skip_value-Ensures :
    (file : Bytes) (levels : ℕ) (type : GgufValueType) (position : ℕ)
    → position ≤ length file
    → Ensures
        (λ _. InFile file position (scalar_size type))
        (skip_value file (suc levels) type position)
unfolding skip_value scalar_size
skip_value-Ensures file levels string position h = Ensures-of _ λ _ _. omega arith
skip_value-Ensures file levels array position h = Ensures-of _ λ _ _. omega arith
skip_value-Ensures file levels u8 position h = skip-Ensures file 1 position
skip_value-Ensures file levels i8 position h = skip-Ensures file 1 position
skip_value-Ensures file levels u16 position h = skip-Ensures file 2 position
skip_value-Ensures file levels i16 position h = skip-Ensures file 2 position
skip_value-Ensures file levels u32 position h = skip-Ensures file 4 position
skip_value-Ensures file levels i32 position h = skip-Ensures file 4 position
skip_value-Ensures file levels f32 position h = skip-Ensures file 4 position
skip_value-Ensures file levels boolean position h = skip-Ensures file 1 position
skip_value-Ensures file levels u64 position h = skip-Ensures file 8 position
skip_value-Ensures file levels i64 position h = skip-Ensures file 8 position
skip_value-Ensures file levels f64 position h = skip-Ensures file 8 position

abbrev pub keys : List GgufMetadata → List Bytes
keys entries = map (λ (e : GgufMetadata). e.key) entries

-- The scalar bytes of an entry's value lie in the file.
abbrev pub Readable : Bytes → GgufMetadata → Type 0
Readable file e = InFile file e.value_offset (scalar_size e.type)

find_metadata-NotIn :
    (key : Bytes) (entries : List GgufMetadata)
    → is_none (find_metadata key entries) ≡ true
    → NotIn key (keys entries)
unfolding find_metadata
find_metadata-NotIn key [] h = tt
find_metadata-NotIn key (e ∷ entries) h = elim (Bool-cases (list_eq e.key key)) [
  | inl same ↦ absurd (ground arith)
  | inr other ↦ (
    λ q. cc (list_eq_refl key, ap (λ k. list_eq k key) q),
    find_metadata-NotIn key entries (ground arith),
  )
]

pub record IsDirectory (file : Bytes) (entries : List GgufMetadata) : Type 0 where
  pub distinct : Distinct (keys entries)
  pub readable : All (Readable file) entries

keys-snoc :
    (entries : List GgufMetadata) (e : GgufMetadata)
    → keys (entries ++ e ∷ []) ≡ keys entries ++ e.key ∷ []
keys-snoc [] e = refl
keys-snoc (x ∷ entries) e = ap (λ t. x.key ∷ t) (keys-snoc entries e)

IsDirectory-snoc :
    (file : Bytes) (entries : List GgufMetadata) (e : GgufMetadata)
    → IsDirectory file entries
    → is_none (find_metadata e.key entries) ≡ true
    → Readable file e
    → IsDirectory file (entries ++ e ∷ [])
IsDirectory-snoc file entries e d fresh r = record {
  distinct =
      rw (keys-snoc entries e)
        (Distinct-snoc e.key (keys entries) d.distinct (find_metadata-NotIn e.key entries fresh));
  readable = All-append (Readable file) entries (e ∷ []) d.readable (r, tt);
}

pub read_metadata-IsDirectory :
    (file : Bytes) (count : ℕ) (entries : List GgufMetadata) (position : ℕ)
    → IsDirectory file entries
    → Ensures (λ r. IsDirectory file r.0) (read_metadata file count entries position)
unfolding read_metadata
read_metadata-IsDirectory file zero entries position d = holds d
read_metadata-IsDirectory file (suc count) entries position d =
    Ensures-after (read_string file position) λ (key, p).
      Ensures-bind (read_value_type-Ensures file p) λ (type, value_offset) h.
        Ensures-guard (is_none (find_metadata key entries)) _ λ fresh.
          Ensures-bind (skip_value-Ensures file 8 type value_offset h) λ next r.
            read_metadata-IsDirectory file count _ next (IsDirectory-snoc file entries _ d fresh r)
