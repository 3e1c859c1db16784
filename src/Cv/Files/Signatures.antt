-- ===== src/Cv/Files/Signatures.antt =====
-- What an accepted file is.
use Prim.Native.String.{String}
use recruitment_platform_be.Prelude.{
  ℕ, ◌≡◌, ◌≤◌, ◌≢◌, inl, inr, true, some, List, [], ◌∷◌, arith, Option-cases, Bool-cases, ◌⊎◌,
}
use recruitment_platform_be.Prelude.Action.{ok, err}
use recruitment_platform_be.Cv.Exceptions.{cv_invalid_file_type}
use recruitment_platform_be.Cv.Files.{
  CvFileType, pdf, doc, docx, cv_allowed_mime_types, matches_file_signature, UploadedCvFile,
  validate_uploaded_file,
}

abbrev first_byte : CvFileType → ℕ
first_byte pdf = 0x25
first_byte doc = 0xD0
first_byte docx = 0x50

matches_first_byte :
    (buffer : List ℕ) (file_type : CvFileType)
    → matches_file_signature buffer file_type ≡ true
    → (rest : List ℕ) × (buffer ≡ first_byte file_type ∷ rest)
unfolding matches_file_signature
matches_first_byte [] pdf h = absurd (ground arith)
matches_first_byte [] doc h = absurd (ground arith)
matches_first_byte [] docx h = absurd (ground arith)
matches_first_byte (b ∷ rest) pdf h = (rest, ground arith)
matches_first_byte (b ∷ rest) doc h = (rest, ground arith)
matches_first_byte (b ∷ rest) docx h = (rest, ground arith)

first_byte_injective : (t t' : CvFileType) → first_byte t ≡ first_byte t' → t ≡ t'
first_byte_injective t t' h = ground arith

matches_one :
    (buffer : List ℕ) (t t' : CvFileType)
    → matches_file_signature buffer t ≡ true
    → matches_file_signature buffer t' ≡ true
    → t ≡ t'
matches_one buffer t t' h h' =
    let (rest, e) = matches_first_byte buffer t h in
    let (rest', e') = matches_first_byte buffer t' h' in first_byte_injective t t' (ground arith)

accepted_signature :
    (file : UploadedCvFile) (max_size : ℕ) (t : CvFileType)
    → validate_uploaded_file (some file) max_size ≡ ok t
    → (file.size ≢ 0)
      × (file.size ≤ max_size)
      × (cv_allowed_mime_types file.mime_type ≡ some t)
      × (matches_file_signature file.buffer t ≡ true)
unfolding validate_uploaded_file
accepted_signature file max_size t h = elim (Option-cases (cv_allowed_mime_types file.mime_type)) [
  | inl missing ↦ absurd (ground arith)
  | inr (u, there) ↦ (ground arith, ground arith, ground arith, ground arith)
]

other_claim :
    (file : UploadedCvFile) (max_size : ℕ) (t : CvFileType) (mime_type : String)
    → file.size ≢ 0
    → file.size ≤ max_size
    → matches_file_signature file.buffer t ≡ true
    → (validate_uploaded_file (some (record file { mime_type = mime_type })) max_size ≡ ok t)
      ⊎ (validate_uploaded_file (some (record file { mime_type = mime_type })) max_size
          ≡ err cv_invalid_file_type)
unfolding validate_uploaded_file
other_claim file max_size t mime_type some_size small signed =
    elim (Option-cases (cv_allowed_mime_types mime_type)) [
      | inl missing ↦ inr (ground arith)
      | inr (u, there) ↦ elim (Bool-cases (matches_file_signature file.buffer u)) [
        | inl same ↦ inl (ground (arith, matches_one file.buffer t u signed same))
        | inr different ↦ inr (ground arith)
      ]
    ]

-- An accepted file is not empty and not larger than the limit, its type is the one that its MIME
-- type claims, and its first bytes are a signature of that type. The same bytes sent under any other
-- MIME type are of the same type or refused.
pub validate_uploaded_file_accepted :
    (file : UploadedCvFile) (max_size : ℕ) (t : CvFileType) (mime_type : String)
    → validate_uploaded_file (some file) max_size ≡ ok t
    → (file.size ≢ 0)
      × (file.size ≤ max_size)
      × (cv_allowed_mime_types file.mime_type ≡ some t)
      × (matches_file_signature file.buffer t ≡ true)
      × ((validate_uploaded_file (some (record file { mime_type = mime_type })) max_size ≡ ok t)
          ⊎ (validate_uploaded_file (some (record file { mime_type = mime_type })) max_size
              ≡ err cv_invalid_file_type))
validate_uploaded_file_accepted file max_size t mime_type h =
    let (some_size, small, claimed, signed) = accepted_signature file max_size t h in
    (
      some_size,
      small,
      claimed,
      signed,
      other_claim file max_size t mime_type some_size small signed,
    )
