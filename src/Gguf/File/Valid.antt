-- ===== src/Gguf/File/Valid.antt =====
-- src/gguf.cpp: what a file that the constructor accepts is known to satisfy.
use adi.Base.{
  ℕ, ◌-◌, ◌≡◌, refl, sym, subst, not, ◌||◌, [], Option, ltb, leb, ◌==◌, length, All, ==_iff,
}
use adi.Base.Result.{
  ok, Ensures, holds, Ensures-ok, Ensures-of, Ensures-bind, Ensures-guard, Ensures-after,
}
use adi.Base.Text.{Distinct}
use adi.Utf8.{Bytes}
use adi.Gguf.Cursor.{read}
use adi.Gguf.Align.{align_up}
use adi.Gguf.File.{
  GgufFile, integer, parse_file, supported_version, gguf_magic, alignment_or, alignment_key,
}
use adi.Gguf.File.Directory.{IsDirectory, read_metadata-IsDirectory}
use adi.Gguf.File.Tensors.{IsTensorList, Stored, read_tensors-IsTensorList, place_tensors-Ensures}

pub record IsValidFile (file : Bytes) (g : GgufFile) : Type 0 where
  pub version : g.version ≡ supported_version
  pub directory : IsDirectory file g.metadata
  pub tensors : IsTensorList g.tensors
  pub stored : All (Stored file) g.tensors
  pub configured : Option ℕ
  pub read_from : integer file g.metadata alignment_key ≡ ok configured
  pub aligned : g.alignment ≡ alignment_or configured

-- A file that the constructor accepts has distinct metadata keys and tensor names; every scalar
-- value and every tensor's content lies within the file; each tensor has one to four extents,
-- none of them 0, whose product is its number of elements, and as many bytes as those elements
-- take, with no wrap-around; the version is the supported one.
pub parse_file-IsValidFile :
    (file : Bytes) (g : GgufFile) → parse_file file ≡ ok g → IsValidFile file g
parse_file-IsValidFile file g e = Ensures-ok checked e
  where
    checked : Ensures (λ g. IsValidFile file g) (parse_file file)
    checked =
        unfold parse_file in
        Ensures-guard (leb 24 (length file)) _ λ _. Ensures-after (read file 4 0) λ (magic, p₁).
          Ensures-guard (magic == gguf_magic) _ λ _. Ensures-after (read file 4 p₁) λ (version, p₂).
            Ensures-guard (version == supported_version) _ λ v.
              Ensures-after (read file 8 p₂) λ (tensor_count, p₃).
                Ensures-after (read file 8 p₃) λ (metadata_count, p₄).
                  Ensures-guard
                    (not (
                      ltb (length file - p₄) tensor_count || ltb (length file - p₄) metadata_count))
                    _
                    λ _.
                      Ensures-bind
                        (read_metadata-IsDirectory file metadata_count [] p₄
                          (record { distinct = tt; readable = tt }))
                        λ (metadata, p₅) d.
                          Ensures-bind (Ensures-of (integer file metadata alignment_key) (λ a q. q))
                            λ value q.
                              Ensures-bind
                                (read_tensors-IsTensorList file tensor_count [] p₅
                                  (record { distinct = tt; shaped = tt }))
                                λ (tensors, p₆) t.
                                  Ensures-after (align_up p₆ (alignment_or value)) λ data_offset.
                                    Ensures-guard (leb data_offset (length file)) _ λ _.
                                      Ensures-bind
                                        (place_tensors-Ensures file data_offset tensors t.shaped)
                                        λ placed (n, shaped, stored). holds (record {
                                          version = (==_iff version supported_version).0 v;
                                          directory = d;
                                          tensors = record {
                                            distinct = subst (λ l. Distinct l) (sym n) t.distinct;
                                            shaped = shaped;
                                          };
                                          stored = stored;
                                          configured = value;
                                          read_from = q;
                                          aligned = refl;
                                        })
