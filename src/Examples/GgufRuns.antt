-- ===== src/Examples/GgufRuns.antt =====
-- src/gguf.cpp at a concrete file.
use adi.Base.{ℕ, ◌≡◌, refl, [], ◌∷◌, ◌++◌, Option, some, length, arith}
use adi.Base.Result.{ok}
use adi.Base.{replicate}
use adi.Base.Text.{codes}
use adi.Utf8.{Bytes}
use adi.Gguf.Cursor.{outside, require, read, read_string, skip, at, load_scalar}
use adi.Gguf.Types.{
  value_type_of, scalar_size, read_value_type, skip_value, ggml_type_of, element_size, tensor_bytes,
}
use adi.Gguf.Align.{align_up}
use adi.Gguf.Align.Laws.{RoundsUp, align_up-RoundsUp, align_up-returns}
use adi.Gguf.File.{
  GgufFile, GgufTensor, find_metadata, find_tensor, integer, integer_value, read_metadata,
  read_tensors, read_tensor, read_dimensions, place_tensors, parse_file, alignment_key,
}
use adi.Gguf.File.Valid.{IsValidFile, parse_file-IsValidFile}
use adi.Gguf.Query.{tensor_data}
use adi.Gguf.Query.Total.{tensor_data-returns, integer-returns}

-- The 64-bit scalar `n`, lowest byte first, for n below 256.
abbrev wide : ℕ → Bytes
wide n = n ∷ replicate 7 0

abbrev short : ℕ → Bytes
short n = n ∷ 0 ∷ 0 ∷ 0 ∷ []

-- One metadata entry, the alignment 32 as a u32; one tensor "t" of two 8-bit integers; the data.
abbrev small : Bytes
small =
    codes "GGUF"
    ++ (short 3
        ++ (wide 1
            ++ (wide 1
                ++ (wide 17
                    ++ (codes "general.alignment"
                        ++ (short 4
                            ++ (short 32
                                ++ (wide 1
                                    ++ (codes "t"
                                        ++ (short 1
                                            ++ (wide 2
                                                ++ (short 24
                                                    ++ (wide 0
                                                        ++ (replicate 6 0
                                                            ++ (7 ∷ 9 ∷ [])))))))))))))))

abbrev tensor : GgufTensor
tensor = record {
  name = codes "t";
  dimensions = 2 ∷ [];
  type = ggml_type_of 24;
  offset = 96;
  elements = 2;
  bytes = 2;
}

abbrev parsed : GgufFile
parsed = record {
  version = 3;
  alignment = 32;
  metadata =
      record { key = alignment_key; type = adi.Gguf.Types.GgufValueType.u32; value_offset = 53 }
      ∷ [];
  tensors = tensor ∷ [];
}

parse_small : parse_file small ≡ ok parsed
unfolding parse_file read require outside read_metadata read_string read_value_type value_type_of
    find_metadata skip_value skip integer at integer_value load_scalar read_tensors read_tensor
    find_tensor read_dimensions tensor_bytes element_size ggml_type_of scalar_size align_up
    place_tensors
parse_small = refl

parse_file-IsValidFile_example : IsValidFile small parsed
parse_file-IsValidFile_example = parse_file-IsValidFile small parsed parse_small

tensor_found : find_tensor (codes "t") parsed.tensors ≡ some tensor
unfolding find_tensor
tensor_found = refl

tensor_data-returns_example :
    (content : Bytes) × (tensor_data small tensor ≡ ok content) × (length content ≡ 2)
tensor_data-returns_example =
    tensor_data-returns small (codes "t") parsed tensor parse_small tensor_found

integer-returns_example :
    (value : Option ℕ) × (integer small parsed.metadata alignment_key ≡ ok value)
integer-returns_example = integer-returns small alignment_key parsed parse_small

aligned : align_up 90 32 ≡ ok 96
unfolding align_up
aligned = refl

align_up-RoundsUp_example : RoundsUp 90 32 96
align_up-RoundsUp_example = align_up-RoundsUp 90 32 96 (omega arith) aligned

align_up-returns_example : (r : ℕ) × (align_up 90 32 ≡ ok r)
align_up-returns_example = align_up-returns 5 90 (omega arith) (omega arith)
