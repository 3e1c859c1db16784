-- ===== src/Chat/Handlers/Content.antt =====
-- What the checks on a message give, and that the methods keep it.
use recruitment_platform_be.Prelude.{
  ℕ, ◌≤◌, ◌≡◌, Bool, true, false, List, [], ◌∷◌, ◌==◌, ◌&&◌, all, length, map, arith, refl,
}
use recruitment_platform_be.Prelude.Action.{ok}
use recruitment_platform_be.Common.Text.{Text, trim, is_empty}
use recruitment_platform_be.Common.Text.Laws.{trim-trim}
use recruitment_platform_be.FileUpload.Key.{chat_attachments, is_private_upload_key}
use recruitment_platform_be.Chat.Entity.{Message, MessageAttachment, is_system, edit, soft_delete}
use recruitment_platform_be.Chat.Handlers.{
  CreateMessageInput, AttachmentInput, to_attachment, check_content, new_message,
}

abbrev has_key : MessageAttachment → Bool
has_key a = is_private_upload_key chat_attachments a.file_url

-- What the checks of CreateMessageHandler are for.
pub record IsFine (m : Message) : Type 0 where
  pub not_system : is_system m.message_type ≡ false
  pub few : length m.attachments ≤ 5
  pub keys : all has_key m.attachments ≡ true
  pub full : (is_empty m.content && length m.attachments == 0) ≡ false
  pub trimmed : trim m.content ≡ m.content

length-map : (xs : List AttachmentInput) → length (map to_attachment xs) ≡ length xs
length-map [] = refl
length-map (x ∷ xs) = ground (arith, length-map xs)

all-map :
    (xs : List AttachmentInput)
    → all has_key (map to_attachment xs)
      ≡ all (λ a. is_private_upload_key chat_attachments a.file_key) xs
all-map [] = refl
all-map (x ∷ xs) = ground (arith, all-map xs)

pub new_message-IsFine :
    (u f n : ℕ) (input : CreateMessageInput)
    → check_content input ≡ ok tt
    → IsFine (new_message u f n input)
unfolding check_content new_message
new_message-IsFine u f n input h = record {
  not_system = ground arith;
  few = ground (arith, length-map input.attachments);
  keys = ground (arith, all-map input.attachments);
  full = ground (arith, length-map input.attachments);
  trimmed = trim-trim input.content;
}

-- The methods keep a message fine; what is written of it has the new content and deletion.
pub edit-IsFine : (t : Text) (i j : Message) → edit i t ≡ ok j → IsFine i → IsFine j
unfolding edit
edit-IsFine t i j h fine = record {
  not_system = ground (arith, fine.not_system);
  few = ground (arith, fine.few);
  keys = ground (arith, fine.keys);
  full = ground arith;
  trimmed = let e : j.content ≡ trim t = ground arith in rw e (trim-trim t);
}

pub soft_delete-IsFine : (n : ℕ) (i j : Message) → soft_delete n i ≡ ok j → IsFine i → IsFine j
unfolding soft_delete
soft_delete-IsFine n i j h fine = record {
  not_system = ground (arith, fine.not_system);
  few = ground (arith, fine.few);
  keys = ground (arith, fine.keys);
  full = ground (arith, fine.full);
  trimmed = ground (arith, fine.trimmed);
}
