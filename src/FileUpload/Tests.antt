-- ===== src/FileUpload/Tests.antt =====
-- Keys of uploads, and the theorems at them.
use recruitment_platform_be.Prelude.{◌≡◌, refl, false}
use recruitment_platform_be.Common.Text.{Text, units}
use recruitment_platform_be.FileUpload.Key.{chat_attachments, is_private_upload_key}

abbrev uuid : Text
uuid = units "123e4567-e89b-42d3-a456-426614174000"

abbrev pdf : Text
pdf = units ".pdf"

abbrev key : Text
key = units "chat-attachments/123e4567-e89b-42d3-a456-426614174000.pdf"

other_folder : is_private_upload_key chat_attachments (units "avatars/../x.pdf") ≡ false
unfolding is_private_upload_key
other_folder = refl
