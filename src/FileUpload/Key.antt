-- ===== src/FileUpload/Key.antt =====
-- src/modules/file-upload/domain/value-objects/upload-folder.vo.ts. The UUID that `randomUUID` makes
-- is an argument, so is the extension of the file.
use recruitment_platform_be.Prelude.{
  ℕ, zero, suc, Bool, true, false, ◌≡◌, refl, ◌∙◌, [], ◌∷◌, ◌++◌, ◌==◌, ◌&&◌, ◌||◌, all, any, not,
  length, arith, ==_iff,
}
use mathlib.Core.Path.{subst}
use recruitment_platform_be.Common.Text.{Text, units, within, is_empty}

pub data UploadFolder : Type 0 where
  avatars company_logos chat_attachments : UploadFolder

abbrev pub folder_name : UploadFolder → Text
folder_name UploadFolder.avatars = units "avatars"
folder_name UploadFolder.company_logos = units "company-logos"
folder_name UploadFolder.chat_attachments = units "chat-attachments"

abbrev slash : ℕ
slash = 47

abbrev dot : ℕ
dot = 46

-- `[0-9a-fA-F-]`
abbrev pub is_uuid_unit : ℕ → Bool
is_uuid_unit n = within 48 57 n || within 97 102 n || within 65 70 n || n == 45

-- `[A-Za-z0-9]`
abbrev pub is_alphanumeric : ℕ → Bool
is_alphanumeric n = within 65 90 n || within 97 122 n || within 48 57 n

-- `\.[A-Za-z0-9]+$`
abbrev pub is_extension : Text → Bool
is_extension [] = false
is_extension (c ∷ s) = c == dot && not (is_empty s) && all is_alphanumeric s

-- n units of a UUID, then an extension
abbrev is_name : ℕ → Text → Bool
is_name zero s = is_extension s
is_name (suc n) [] = false
is_name (suc n) (c ∷ s) = let rest = is_name n s in is_uuid_unit c && rest

abbrev after : Text → (Text → Bool) → Text → Bool
after [] p s = p s
after (c ∷ w) p [] = false
after (c ∷ w) p (d ∷ s) = let rest = after w p s in c == d && rest

unfoldable pub is_private_upload_key : UploadFolder → Text → Bool
is_private_upload_key folder value =
    after (folder_name folder ++ slash ∷ []) (λ s. is_name 36 s) value

unfoldable pub build_private_upload_key : UploadFolder → (uuid extension : Text) → Text
build_private_upload_key folder uuid extension =
    (folder_name folder ++ slash ∷ []) ++ (uuid ++ extension)

after-append : (w : Text) (p : Text → Bool) (s : Text) → after w p (w ++ s) ≡ p s
after-append [] p s = refl
after-append (c ∷ w) p s = ground (arith, after-append w p s, ==_iff c c)

is_name-append :
    (uuid extension : Text)
    → all is_uuid_unit uuid ≡ true
    → is_name (length uuid) (uuid ++ extension) ≡ is_extension extension
is_name-append [] extension h = refl
is_name-append (c ∷ uuid) extension h = ground (arith, is_name-append uuid extension)

-- A key that the upload makes from a UUID and an extension is accepted for its folder.
pub is_private_upload_key-build :
    (folder : UploadFolder) (uuid extension : Text)
    → length uuid ≡ 36
    → all is_uuid_unit uuid ≡ true
    → is_extension extension ≡ true
    → is_private_upload_key folder (build_private_upload_key folder uuid extension) ≡ true
unfolding is_private_upload_key build_private_upload_key
is_private_upload_key-build folder uuid extension len units ext =
    after-append (folder_name folder ++ slash ∷ []) (λ s. is_name 36 s) (uuid ++ extension)
    ∙ subst (λ n. is_name n (uuid ++ extension) ≡ true) len
        (is_name-append uuid extension units ∙ ext)

after_split :
    (w : Text) (p : Text → Bool) (s : Text)
    → after w p s ≡ true
    → (rest : Text) × (s ≡ w ++ rest) × (p rest ≡ true)
after_split [] p s h = (s, refl, h)
after_split (c ∷ w) p [] h = ground arith
after_split (c ∷ w) p (d ∷ s) h =
    let (rest, e, q) = after_split w p s (ground arith) in (rest, ground (arith, e, ==_iff c d), q)

abbrev is_slash : ℕ → Bool
is_slash n = n == slash

is_extension_no_slash : (s : Text) → all is_alphanumeric s ≡ true → any is_slash s ≡ false
is_extension_no_slash [] h = refl
is_extension_no_slash (c ∷ s) h = ground (arith, is_extension_no_slash s)

is_name_no_slash : (n : ℕ) (s : Text) → is_name n s ≡ true → any is_slash s ≡ false
is_name_no_slash zero [] h = ground arith
is_name_no_slash zero (c ∷ s) h = ground (arith, is_extension_no_slash s)
is_name_no_slash (suc n) [] h = ground arith
is_name_no_slash (suc n) (c ∷ s) h = ground (arith, is_name_no_slash n s)

-- An accepted key lies directly in its folder: after the folder's name and a slash comes a name
-- that has no slash.
pub is_private_upload_key_inside :
    (folder : UploadFolder) (value : Text)
    → is_private_upload_key folder value ≡ true
    → (name : Text) × (value ≡ (folder_name folder ++ slash ∷ []) ++ name)
      × (any is_slash name ≡ false)
unfolding is_private_upload_key
is_private_upload_key_inside folder value h =
    let (name, e, q) = after_split (folder_name folder ++ slash ∷ []) (λ s. is_name 36 s) value h in
    (name, e, is_name_no_slash 36 name q)
