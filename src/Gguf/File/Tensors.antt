-- ===== src/Gguf/File/Tensors.antt =====
-- src/gguf.cpp: what holds of the tensor directory when the constructor has read it.
use adi.Base.{
  ℕ, zero, suc, ◌+◌, ◌-◌, ◌*◌, ◌/◌, ◌%◌, ◌^◌, ◌≤◌, ◌<◌, ◌≡◌, refl, ap, sym, ◌∙◌, true, not, ◌||◌,
  List, [], ◌∷◌, ◌++◌, some, ltb, ◌==◌, length, list_eq, take, drop, arith, Bool-cases,
  Option-cases, inl, inr, map, All, All-append, list_eq_refl, length-append,
}
use adi.Base.Result.{Ensures, holds, Ensures-of, Ensures-bind, Ensures-guard, Ensures-after}
use adi.Base.Text.{NotIn, Distinct, Distinct-snoc}
use adi.Utf8.{Bytes}
use adi.Gguf.Cursor.{read, read_string, at, u64_max}
use adi.Gguf.Types.{GgmlType, ggml_type_of, element_size, tensor_bytes}
use adi.Gguf.File.{
  GgufTensor, find_tensor, read_tensor, read_tensors, read_dimensions, place_tensors, is_none,
  max_dimensions,
}
use adi.Gguf.File.Directory.{InFile}
use native.Mathlib.Nat.{div-mul-le_self, mul_assoc}

abbrev pub product : List ℕ → ℕ
product [] = 1
product (n ∷ ns) = n * product ns

-- What the constructor guarantees of one tensor: up to four extents, none of them 0; the number of
-- elements is their product, and the bytes are that many elements, with no wrap-around.
pub record IsShaped (t : GgufTensor) : Type 0 where
  pub some_dimension : 0 < length t.dimensions
  pub few_dimensions : length t.dimensions ≤ max_dimensions
  pub extents : All (λ n. 0 < n) t.dimensions
  pub counted : t.elements ≡ product t.dimensions
  pub width : ℕ
  pub typed : element_size t.type ≡ some width
  pub sized : t.bytes ≡ t.elements * width
  pub fits : t.bytes ≤ u64_max

-- `a > max / b` fails: the product does not overflow.
pub no_overflow : (a b : ℕ) → a ≤ u64_max / b → a * b ≤ u64_max
no_overflow a b h = grind (arith, div-mul-le_self u64_max b)

product-snoc : (ns : List ℕ) (n : ℕ) → product (ns ++ n ∷ []) ≡ product ns * n
product-snoc [] n = omega arith
product-snoc (m ∷ ns) n =
    ap (λ (t : ℕ). m * t) (product-snoc ns n) ∙ sym (mul_assoc m (product ns) n)

abbrev DimensionsRead : List ℕ → ℕ → ℕ → Type 0
DimensionsRead dimensions elements count =
    (length dimensions ≡ count)
    × All (λ n. 0 < n) dimensions
    × (elements ≡ product dimensions)
    × (elements ≤ u64_max)

DimensionsRead-snoc :
    (dimensions : List ℕ) (elements count extent : ℕ)
    → DimensionsRead dimensions elements count
    → not (extent == 0 || ltb (u64_max / extent) elements) ≡ true
    → DimensionsRead (dimensions ++ extent ∷ []) (elements * extent % 2 ^ 64) (suc count)
DimensionsRead-snoc dimensions elements count extent (l, p, e, m) test = (
  omega (arith, l, length-append dimensions (extent ∷ [])),
  All-append (λ n. 0 < n) dimensions (extent ∷ []) p (ground arith, tt),
  wraps ∙ (ap (λ (t : ℕ). t * extent) e ∙ sym (product-snoc dimensions extent)),
  omega arith,
)
  where
    fits : elements * extent ≤ u64_max
    fits = no_overflow elements extent (ground arith)

    wraps : elements * extent % 2 ^ 64 ≡ elements * extent
    wraps = omega (arith, fits)

read_dimensions-Ensures :
    (file : Bytes) (count : ℕ) (dimensions : List ℕ) (elements position before : ℕ)
    → DimensionsRead dimensions elements before
    → Ensures
        (λ r. DimensionsRead r.0 r.1 (before + count))
        (read_dimensions file count dimensions elements position)
unfolding read_dimensions
read_dimensions-Ensures file zero dimensions elements position before (l, p, e, m) =
    holds (omega (arith, l), p, e, m)
read_dimensions-Ensures file (suc count) dimensions elements position before d =
    Ensures-after (read file 8 position) λ (extent, next).
      Ensures-guard (not (extent == 0 || ltb (u64_max / extent) elements)) _ λ test.
        let total : before + suc count ≡ suc before + count = omega arith in
        rw total (
          read_dimensions-Ensures file count _ _ next (suc before)
            (DimensionsRead-snoc dimensions elements before extent d test))

abbrev BytesOf : GgmlType → ℕ → ℕ → Type 0
BytesOf type elements bytes =
    (width : ℕ) × (element_size type ≡ some width) × (bytes ≡ elements * width) × (bytes ≤ u64_max)

tensor_bytes-Ensures :
    (type : GgmlType) (elements : ℕ)
    → Ensures (λ bytes. BytesOf type elements bytes) (tensor_bytes type elements)
tensor_bytes-Ensures type elements = Ensures-of _ λ bytes e.
    elim (Option-cases (element_size type)) [
      | inl q ↦ absurd (unfold tensor_bytes in ground arith)
      | inr (width, q) ↦
          let fits = no_overflow elements width (unfold tensor_bytes in ground arith) in
          let value : bytes ≡ elements * width % 2 ^ 64 = unfold tensor_bytes in ground arith in
          (width, q, omega (arith, fits, value), omega (arith, fits, value))
    ]

abbrev pub names : List GgufTensor → List Bytes
names tensors = map (λ (t : GgufTensor). t.name) tensors

find_tensor-NotIn :
    (name : Bytes) (tensors : List GgufTensor)
    → is_none (find_tensor name tensors) ≡ true
    → NotIn name (names tensors)
unfolding find_tensor
find_tensor-NotIn name [] h = tt
find_tensor-NotIn name (t ∷ tensors) h = elim (Bool-cases (list_eq t.name name)) [
  | inl same ↦ absurd (ground arith)
  | inr other ↦ (
    λ q. cc (list_eq_refl name, ap (λ k. list_eq k name) q),
    find_tensor-NotIn name tensors (ground arith),
  )
]

pub read_tensor-Ensures :
    (file : Bytes) (tensors : List GgufTensor) (position : ℕ)
    → Ensures
        (λ r. IsShaped r.0 × NotIn r.0.name (names tensors))
        (read_tensor file tensors position)
unfolding read_tensor
read_tensor-Ensures file tensors position = Ensures-after (read_string file position) λ (name, p₁).
    Ensures-guard (is_none (find_tensor name tensors)) _ λ fresh.
      Ensures-after (read file 4 p₁) λ (count, p₂).
        Ensures-guard (not (count == 0 || ltb max_dimensions count)) _ λ few.
          Ensures-bind (read_dimensions-Ensures file count [] 1 p₂ 0 (refl, tt, refl, omega arith))
            λ (dimensions, elements, p₃) (l, p, e, m). Ensures-after (read file 4 p₃) λ (raw, p₄).
              Ensures-after (read file 8 p₄) λ (offset, p₅).
                Ensures-bind (tensor_bytes-Ensures (ggml_type_of raw) elements)
                  λ bytes (width, q, z, f). holds (
                    record {
                      some_dimension = ground arith;
                      few_dimensions = ground arith;
                      extents = p;
                      counted = e;
                      width = width;
                      typed = q;
                      sized = z;
                      fits = f;
                    },
                    find_tensor-NotIn name tensors fresh,
                  )

-- What holds of the directory of tensors, before and after their offsets are made absolute.
pub record IsTensorList (tensors : List GgufTensor) : Type 0 where
  pub distinct : Distinct (names tensors)
  pub shaped : All IsShaped tensors

names-snoc :
    (tensors : List GgufTensor) (t : GgufTensor)
    → names (tensors ++ t ∷ []) ≡ names tensors ++ t.name ∷ []
names-snoc [] t = refl
names-snoc (x ∷ tensors) t = ap (λ l. x.name ∷ l) (names-snoc tensors t)

pub read_tensors-IsTensorList :
    (file : Bytes) (count : ℕ) (tensors : List GgufTensor) (position : ℕ)
    → IsTensorList tensors
    → Ensures (λ r. IsTensorList r.0) (read_tensors file count tensors position)
unfolding read_tensors
read_tensors-IsTensorList file zero tensors position h = holds h
read_tensors-IsTensorList file (suc count) tensors position h =
    Ensures-bind (read_tensor-Ensures file tensors position) λ (t, next) (shape, fresh).
      read_tensors-IsTensorList file count (tensors ++ t ∷ []) next (record {
        distinct =
            rw (names-snoc tensors t) (Distinct-snoc t.name (names tensors) h.distinct fresh);
        shaped = All-append IsShaped tensors (t ∷ []) h.shaped (shape, tt);
      })

-- The content of a tensor lies in the file.
abbrev pub Stored : Bytes → GgufTensor → Type 0
Stored file t = InFile file t.offset t.bytes

pub at-Ensures :
    (file : Bytes) (offset size : ℕ)
    → Ensures
        (λ b. InFile file offset size × (b ≡ take size (drop offset file)))
        (at file offset size)
unfolding at
at-Ensures file offset size = Ensures-of _ λ b e. (ground arith, ground arith)

-- What the last loop leaves alone, and what it makes true.
abbrev Placed : Bytes → List GgufTensor → List GgufTensor → Type 0
Placed file before after =
    (names after ≡ names before) × All IsShaped after × All (Stored file) after

pub place_tensors-Ensures :
    (file : Bytes) (data_offset : ℕ) (tensors : List GgufTensor)
    → All IsShaped tensors
    → Ensures (λ r. Placed file tensors r) (place_tensors file data_offset tensors)
unfolding place_tensors
place_tensors-Ensures file data_offset [] h = holds (refl, tt, tt)
place_tensors-Ensures file data_offset (t ∷ tensors) (s, h) =
    Ensures-guard (not (ltb (u64_max - data_offset) t.offset)) _ λ test.
      Ensures-bind (at-Ensures file ((t.offset + data_offset) % 2 ^ 64) t.bytes)
        λ content (inside, _).
          Ensures-bind (place_tensors-Ensures file data_offset tensors h)
            λ placed (n, shaped, stored).
              holds (ap (λ l. t.name ∷ l) n, (moved, shaped), (inside, stored))
  where
    moved : IsShaped (record t { offset = (t.offset + data_offset) % 2 ^ 64 })
    moved = record {
      some_dimension = s.some_dimension;
      few_dimensions = s.few_dimensions;
      extents = s.extents;
      counted = s.counted;
      width = s.width;
      typed = s.typed;
      sized = s.sized;
      fits = s.fits;
    }
