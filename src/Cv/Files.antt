-- ===== src/Cv/Files.antt =====
-- src/modules/cv/domain/domain-services/cv-domain.service.ts and value-objects/cv-file-type.vo.ts. A
-- buffer is a list of bytes, which multer's storage in memory always gives, so that the test for a
-- missing one is left out. A MIME type that names a property every object inherits, such as
-- `constructor`, is none of the table here; the code finds it and throws a TypeError.
pub mod Signatures
use Prim.Native.String.{String}
use text.Mathlib.Text.{◌==◌ as str_eq}
use recruitment_platform_be.Prelude.{
  ℕ, Bool, true, false, not, Option, none, some, List, [], ◌∷◌, any, ltb, ◌==◌, ◌&&◌, ◌||◌,
  if◌then◌else◌,
}
use recruitment_platform_be.Prelude.Action.{Result, ok, err}
use recruitment_platform_be.Cv.Exceptions.{
  CvException, cv_file_required, cv_invalid_file_type, cv_file_too_large,
}

pub data CvFileType : Type 0 where
  pdf doc docx : CvFileType

unfoldable pub cv_allowed_mime_types : String → Option CvFileType
cv_allowed_mime_types mime_type =
    if str_eq mime_type "application/pdf"
    then some pdf
    else if str_eq mime_type "application/msword"
    then some doc
    else if str_eq mime_type
        "application/vnd.openxmlformats-officedocument.wordprocessingml.document"
    then some docx
    else none

unfoldable pub cv_file_extensions : CvFileType → String
cv_file_extensions pdf = "pdf"
cv_file_extensions doc = "doc"
cv_file_extensions docx = "docx"

abbrev pub magic_bytes : CvFileType → List (List ℕ)
magic_bytes pdf = (0x25 ∷ 0x50 ∷ 0x44 ∷ 0x46 ∷ []) ∷ []
magic_bytes doc = (0xD0 ∷ 0xCF ∷ 0x11 ∷ 0xE0 ∷ 0xA1 ∷ 0xB1 ∷ 0x1A ∷ 0xE1 ∷ []) ∷ []
magic_bytes docx =
    (0x50 ∷ 0x4B ∷ 0x03 ∷ 0x04 ∷ [])
    ∷ (0x50 ∷ 0x4B ∷ 0x05 ∷ 0x06 ∷ [])
    ∷ (0x50 ∷ 0x4B ∷ 0x07 ∷ 0x08 ∷ [])
    ∷ []

-- `buffer.length >= s.length && buffer.subarray(0, s.length).equals(s)`
abbrev pub starts_with : (signature buffer : List ℕ) → Bool
starts_with [] buffer = true
starts_with (b ∷ signature) [] = false
starts_with (b ∷ signature) (c ∷ buffer) = b == c && starts_with signature buffer

unfoldable pub matches_file_signature : (buffer : List ℕ) → CvFileType → Bool
matches_file_signature buffer file_type =
    any (λ signature. starts_with signature buffer) (magic_bytes file_type)

pub record UploadedCvFile : Type 0 where
  pub original_name : String
  pub mime_type : String
  pub size : ℕ
  pub buffer : List ℕ

unfoldable pub validate_uploaded_file :
    Option UploadedCvFile → (max_file_size_bytes : ℕ) → Result CvException CvFileType
unfolding matches_file_signature
validate_uploaded_file none max_size = err cv_file_required
validate_uploaded_file (some file) max_size =
    if file.size == 0 then err cv_file_required else elim (cv_allowed_mime_types file.mime_type) [
      | none ↦ err cv_invalid_file_type
      | some file_type ↦
          if not (matches_file_signature file.buffer file_type)
          then err cv_invalid_file_type
          else if ltb max_size file.size
          then err cv_file_too_large
          else ok file_type
    ]
