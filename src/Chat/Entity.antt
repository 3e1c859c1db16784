-- ===== src/Chat/Entity.antt =====
-- src/modules/chat/domain/entities and the response that src/modules/chat/application/mappers makes
-- of a message. Content and stored file keys are text; what the code only passes on is a string.
-- The time of the last update and the identifiers of attachments are left out.
use Prim.Native.String.{String}
use recruitment_platform_be.Prelude.{
  ℕ, Bool, true, false, Option, some, List, [], ◌==◌, ◌||◌, not, is_some, if◌then◌else◌,
}
use recruitment_platform_be.Prelude.Action.{Result, ok, err, check}
use recruitment_platform_be.Common.Text.{Text, units, trim, is_empty}
use recruitment_platform_be.Chat.Exceptions.{
  ChatException, not_conversation_member, not_message_sender, cannot_edit_deleted_message,
  only_text_messages_editable, message_content_empty, message_already_deleted,
}

pub data MessageType : Type 0 where
  text_message image_message file_message system_message : MessageType

abbrev pub is_text : MessageType → Bool
is_text MessageType.text_message = true
is_text _ = false

abbrev pub is_system : MessageType → Bool
is_system MessageType.system_message = true
is_system _ = false

pub record MessageAttachment : Type 0 where
  pub file_name : String
  pub file_url : Text
  pub mime_type : String
  pub file_size : ℕ

pub record Message : Type 0 where
  pub id : ℕ
  pub conversation_id : ℕ
  pub sender_id : ℕ
  pub content : Text
  pub message_type : MessageType
  pub client_message_id : ℕ
  pub created_at : ℕ
  pub deleted_at : Option ℕ
  pub attachments : List MessageAttachment

abbrev pub is_deleted : Message → Bool
is_deleted m = is_some m.deleted_at

abbrev deleted_message_placeholder : String
deleted_message_placeholder = "Tin nhắn này đã bị xoá"

unfoldable pub display_content : Message → Text
display_content m = if is_deleted m then units deleted_message_placeholder else m.content

unfoldable pub ensure_sender : Message → (user_id : ℕ) → Result ChatException (Unit {0})
ensure_sender m user_id = check (m.sender_id == user_id) not_message_sender

unfoldable pub edit : Message → (new_content : Text) → Result ChatException Message
edit m new_content =
    if is_deleted m
    then err cannot_edit_deleted_message
    else if not (is_text m.message_type)
    then err only_text_messages_editable
    else if is_empty (trim new_content)
    then err message_content_empty
    else ok (record m { content = trim new_content })

unfoldable pub soft_delete : (now : ℕ) → Message → Result ChatException Message
soft_delete now m =
    if is_deleted m then err message_already_deleted else ok (record m { deleted_at = some now })

-- `status` is ACTIVE from the constructor on; nothing else reads or writes it.
pub record Conversation : Type 0 where
  pub id : ℕ
  pub job_id : ℕ
  pub application_id : ℕ
  pub candidate_id : ℕ
  pub recruiter_id : ℕ
  pub last_message_at : Option ℕ

unfoldable pub is_member : Conversation → (user_id : ℕ) → Bool
is_member c user_id = c.candidate_id == user_id || c.recruiter_id == user_id

unfoldable pub ensure_member : Conversation → (user_id : ℕ) → Result ChatException (Unit {0})
unfolding is_member
ensure_member c user_id = check (is_member c user_id) not_conversation_member

unfoldable pub other_participant_id : Conversation → (user_id : ℕ) → Result ChatException ℕ
unfolding ensure_member
other_participant_id c user_id = elim (ensure_member c user_id) [
  | ok _ ↦ ok (if c.candidate_id == user_id then c.recruiter_id else c.candidate_id)
  | err e ↦ err e
]

pub data ChatParticipantRole : Type 0 where
  candidate recruiter : ChatParticipantRole

pub record ConversationMember : Type 0 where
  pub user_id : ℕ
  pub role : ChatParticipantRole
  pub joined_at : ℕ
  pub last_read_at : Option ℕ

-- What a client is told of a message.
pub record MessageResponse : Type 0 where
  pub id : ℕ
  pub conversation_id : ℕ
  pub sender_id : ℕ
  pub content : Text
  pub message_type : MessageType
  pub client_message_id : ℕ
  pub is_deleted : Bool
  pub created_at : ℕ
  pub attachments : List MessageAttachment

unfoldable pub to_dto : Message → MessageResponse
unfolding display_content
to_dto m = record {
  id = m.id;
  conversation_id = m.conversation_id;
  sender_id = m.sender_id;
  content = display_content m;
  message_type = m.message_type;
  client_message_id = m.client_message_id;
  is_deleted = is_deleted m;
  created_at = m.created_at;
  attachments = if is_deleted m then [] else m.attachments;
}
