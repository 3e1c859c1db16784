-- ===== src/Chat/Exceptions.antt =====
-- src/modules/chat/domain/exceptions/chat.exceptions.ts, with the exception that `ensureOwner` throws
-- under the code of its caller, the `TypeError` of a null that is used, and an error of the database
-- that is passed on.
use Prim.Native.String.{String}
use recruitment_platform_be.Common.Exceptions.{Category}

pub data ChatException : Type 0 where
  conversation_not_found message_not_found chat_application_not_found : ChatException
  chat_job_not_found application_not_accepted not_conversation_member : ChatException
  not_message_sender system_message_not_allowed too_many_attachments : ChatException
  invalid_attachment_url empty_message cannot_edit_deleted_message : ChatException
  only_text_messages_editable message_content_empty message_already_deleted : ChatException
  unauthorized_domain : (code : String) → ChatException
  type_error database : ChatException

pub data Kind : Type 0 where
  domain : (category : Category) → (code : String) → Kind
  not_domain : Kind

-- The class that an exception extends, and its code.
unfoldable pub kind : ChatException → Kind
kind conversation_not_found = domain Category.entity_not_found "CHAT_CONVERSATION_NOT_FOUND"
kind message_not_found = domain Category.entity_not_found "CHAT_MESSAGE_NOT_FOUND"
kind chat_application_not_found = domain Category.entity_not_found "CHAT_APPLICATION_NOT_FOUND"
kind chat_job_not_found = domain Category.entity_not_found "CHAT_JOB_NOT_FOUND"
kind application_not_accepted =
    domain Category.business_rule_violation "CHAT_APPLICATION_NOT_ACCEPTED"
kind not_conversation_member = domain Category.unauthorized_domain "CHAT_NOT_MEMBER"
kind not_message_sender = domain Category.unauthorized_domain "CHAT_NOT_SENDER"
kind system_message_not_allowed =
    domain Category.business_rule_violation "CHAT_SYSTEM_MESSAGE_NOT_ALLOWED"
kind too_many_attachments = domain Category.business_rule_violation "CHAT_TOO_MANY_ATTACHMENTS"
kind invalid_attachment_url = domain Category.business_rule_violation "CHAT_INVALID_ATTACHMENT_URL"
kind empty_message = domain Category.business_rule_violation "CHAT_EMPTY_MESSAGE"
kind cannot_edit_deleted_message =
    domain Category.business_rule_violation "CHAT_EDIT_DELETED_MESSAGE"
kind only_text_messages_editable = domain Category.business_rule_violation "CHAT_ONLY_TEXT_EDITABLE"
kind message_content_empty = domain Category.business_rule_violation "CHAT_MESSAGE_CONTENT_EMPTY"
kind message_already_deleted =
    domain Category.business_rule_violation "CHAT_MESSAGE_ALREADY_DELETED"
kind (unauthorized_domain code) = domain Category.unauthorized_domain code
kind type_error = not_domain
kind database = not_domain
