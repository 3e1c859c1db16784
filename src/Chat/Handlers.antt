-- ===== src/Chat/Handlers.antt =====
-- src/modules/chat/application/commands. `now` is what the clock says, `fresh_id` the UUID of a new
-- entity; `sign` makes the signed URL of a stored key and a file
-- name, at a time. The response of
-- CreateConversationHandler is the conversation; what it looks up for its client is left out.
pub mod Sending
pub mod Retrying
pub mod Refusals
pub mod Changes
pub mod History
pub mod Content
pub mod Soundness
pub mod Runs
pub mod Starting
use Prim.Native.String.{String}
use text.Mathlib.Text.{◌==◌ as str_eq}
use recruitment_platform_be.Prelude.{
  ℕ, Bool, true, false, not, Option, none, some, List, [], ◌∷◌, ◌++◌, ◌==◌, ◌&&◌, ltb, all, length,
  map, is_some, if◌then◌else◌,
}
use recruitment_platform_be.Prelude.Action.{
  Result, ok, err, Action, pure, throw, throw_if, gets, modify, or_throw, lift, check, ◌>>=◌, ◌>>◌,
}
use recruitment_platform_be.Common.Text.{Text, trim, is_empty, take}
use recruitment_platform_be.Common.Database.{DatabaseError}
use recruitment_platform_be.FileUpload.Key.{chat_attachments, is_private_upload_key}
use recruitment_platform_be.Chat.Exceptions.{
  ChatException, conversation_not_found, message_not_found, chat_application_not_found,
  chat_job_not_found, application_not_accepted, system_message_not_allowed, too_many_attachments,
  invalid_attachment_url, empty_message, unauthorized_domain, type_error, database,
}
use recruitment_platform_be.Chat.Entity.{
  Message, MessageType, MessageAttachment, MessageResponse, Conversation, ConversationMember,
  ChatParticipantRole, candidate, recruiter, is_system, is_deleted, display_content, ensure_sender,
  edit, soft_delete, ensure_member, other_participant_id, to_dto,
}
use recruitment_platform_be.Chat.Repository.{
  Database, create_and_touch_conversation, find_or_create_for_application,
}

pub record ApplicationLookupResult : Type 0 where
  pub id : ℕ
  pub status : String
  pub user_id : ℕ
  pub job_id : ℕ

pub record JobLookupResult : Type 0 where
  pub id : ℕ
  pub title : String
  pub posted_by_id : ℕ
  pub company_id : ℕ

pub record MessageSentEvent : Type 0 where
  pub message : MessageResponse
  pub conversation_id : ℕ
  pub sender_id : ℕ
  pub recipient_id : ℕ
  pub job_title : String
  pub preview : Text

pub record World (S : Type 0) : Type 0 where
  pub store : S
  pub events : List MessageSentEvent

pub record AttachmentInput : Type 0 where
  pub file_name : String
  pub file_key : Text
  pub mime_type : String
  pub file_size : ℕ

pub record CreateMessageInput : Type 0 where
  pub conversation_id : ℕ
  pub client_message_id : ℕ
  pub content : Text
  pub message_type : MessageType
  pub attachments : List AttachmentInput

pub record Ports : Type 0 where
  pub find_application : ℕ → Option ApplicationLookupResult
  pub find_job : ℕ → Option JobLookupResult
  -- the signed URL, which depends on the time at which it is made
  pub sign : (key : Text) (file_name : String) (now expires_in_seconds : ℕ) → Text

abbrev attachment_url_expiry_seconds : ℕ
attachment_url_expiry_seconds = 300

abbrev max_attachments_per_message : ℕ
max_attachments_per_message = 5

-- The checks of CreateMessageHandler on a message that is not there yet.
unfoldable pub check_content : CreateMessageInput → Result ChatException (Unit {0})
check_content input =
    if is_system input.message_type
    then err system_message_not_allowed
    else if ltb max_attachments_per_message (length input.attachments)
    then err too_many_attachments
    else if is_empty (trim input.content) && length input.attachments == 0
    then err empty_message
    else check (all (λ a. is_private_upload_key chat_attachments a.file_key) input.attachments)
        invalid_attachment_url

abbrev pub to_attachment : AttachmentInput → MessageAttachment
to_attachment a = record {
  file_name = a.file_name;
  file_url = a.file_key;
  mime_type = a.mime_type;
  file_size = a.file_size;
}

unfoldable pub new_message : (sender_id fresh_id now : ℕ) → CreateMessageInput → Message
new_message sender_id fresh_id now input = record {
  id = fresh_id;
  conversation_id = input.conversation_id;
  sender_id = sender_id;
  content = trim input.content;
  message_type = input.message_type;
  client_message_id = input.client_message_id;
  created_at = now;
  deleted_at = none;
  attachments = map to_attachment input.attachments;
}

abbrev member : (now user_id : ℕ) → ChatParticipantRole → ConversationMember
member now user_id as_role = record {
  user_id = user_id;
  role = as_role;
  joined_at = now;
  last_read_at = none;
}

-- The conversation and the two members that CreateConversationHandler makes.
abbrev pub opened :
    (recruiter_id fresh_id now : ℕ)
    → ApplicationLookupResult
    → JobLookupResult
    → Conversation × List ConversationMember
opened recruiter_id fresh_id now application job = (
  record {
    id = fresh_id;
    job_id = job.id;
    application_id = application.id;
    candidate_id = application.user_id;
    recruiter_id = recruiter_id;
    last_message_at = none;
  },
  member now application.user_id candidate ∷ member now recruiter_id recruiter ∷ [],
)

module _ {S : Type 0} (db : Database S) (ports : Ports) where
  -- MessageAttachmentUrlResolver.resolve
  unfoldable pub resolve : (now : ℕ) → MessageResponse → MessageResponse
  resolve now dto = record dto {
    attachments =
        map
          (λ a.
            if is_private_upload_key chat_attachments a.file_url
            then record a {
              file_url = ports.sign a.file_url a.file_name now attachment_url_expiry_seconds;
            }
            else a)
          dto.attachments;
  }

  abbrev run_write :
      {A : Type 0} → (S → Result DatabaseError A × S) → Action ChatException (World S) A
  run_write put w = (
    elim (put w.store).0 [ ok a ↦ ok a | err e ↦ err database ],
    record w { store = (put w.store).1 },
  )

  abbrev find_joined : (user_id conversation_id : ℕ) → Action ChatException (World S) Conversation
  find_joined user_id conversation_id = do
    conversation ←
        or_throw (← gets (λ w. db.find_conversation conversation_id w.store)) conversation_not_found
    lift (ensure_member conversation user_id)
    pure conversation

  -- What CreateMessageHandler does with a message that is not there yet.
  unfoldable pub insert_message :
      (sender_id fresh_id now : ℕ)
      → CreateMessageInput
      → Conversation
      → Action ChatException (World S) MessageResponse
  unfolding create_and_touch_conversation new_message
  insert_message sender_id fresh_id now input conversation = do
    lift (check_content input)
    saved ← run_write (create_and_touch_conversation db (new_message sender_id fresh_id now input))
    recipient_id ← lift (other_participant_id conversation sender_id)
    let dto = resolve now (to_dto saved)
    let title : String = elim (ports.find_job conversation.job_id) [
      | some job ↦ job.title
      | none ↦ "a job"
    ]
    modify (λ w. record w {
      events =
          w.events
          ++ record {
            message = dto;
            conversation_id = input.conversation_id;
            sender_id = sender_id;
            recipient_id = recipient_id;
            job_title = title;
            preview = take 120 (display_content saved);
          }
            ∷ [];
    })
    pure dto

  unfoldable pub create_message :
      (sender_id fresh_id now : ℕ)
      → CreateMessageInput
      → Action ChatException (World S) MessageResponse
  create_message sender_id fresh_id now input = do
    conversation ← find_joined sender_id input.conversation_id
    existing ←
        gets
          (λ w. db.find_by_client_message_id input.conversation_id input.client_message_id w.store)
    elim existing [
      | some m ↦ pure (resolve now (to_dto m))
      | none ↦ insert_message sender_id fresh_id now input conversation
    ]

  unfoldable pub edit_message :
      (user_id message_id : ℕ) → (content : Text) → Action ChatException (World S) MessageResponse
  edit_message user_id message_id content = do
    message ← or_throw (← gets (λ w. db.find_message message_id w.store)) message_not_found
    lift (ensure_sender message user_id)
    edited ← lift (edit message content)
    updated ← run_write (db.update_message edited)
    pure (to_dto updated)

  unfoldable pub delete_message :
      (user_id message_id now : ℕ) → Action ChatException (World S) MessageResponse
  delete_message user_id message_id now = do
    message ← or_throw (← gets (λ w. db.find_message message_id w.store)) message_not_found
    lift (ensure_sender message user_id)
    deleted ← lift (soft_delete now message)
    updated ← run_write (db.update_message deleted)
    pure (to_dto updated)

  unfoldable pub mark_conversation_read :
      (user_id conversation_id now : ℕ) → Action ChatException (World S) (Unit {0})
  mark_conversation_read user_id conversation_id now = do
    find_joined user_id conversation_id
    run_write (db.mark_member_read conversation_id user_id now)

  unfoldable pub create_conversation :
      (recruiter_id application_id fresh_id now : ℕ) → Action ChatException (World S) Conversation
  unfolding find_or_create_for_application
  create_conversation recruiter_id application_id fresh_id now = do
    application ← or_throw (ports.find_application application_id) chat_application_not_found
    throw_if (not (str_eq application.status "HIRED")) application_not_accepted
    job ← or_throw (ports.find_job application.job_id) chat_job_not_found
    lift (
        check (job.posted_by_id == recruiter_id)
          (unauthorized_domain "CHAT_CONVERSATION_START_ACCESS_DENIED"))
    let (conversation, members) = opened recruiter_id fresh_id now application job
    found ← run_write (find_or_create_for_application db conversation members)
    or_throw found.0 type_error
