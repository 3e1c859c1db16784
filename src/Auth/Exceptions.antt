-- ===== src/Auth/Exceptions.antt =====
-- src/modules/auth/domain/exceptions/auth.exceptions.ts, and an error that is none of them and is
-- passed on.
use Prim.Native.String.{String}
use recruitment_platform_be.Common.Exceptions.{Category}

pub data AuthException : Type 0 where
  user_not_found invalid_verification_code email_already_registered : AuthException
  invalid_credentials account_blocked account_locked email_not_verified : AuthException
  invalid_old_password invalid_refresh_token refresh_token_access_denied : AuthException
  invalid_or_expired_exchange_code unexpected : AuthException

pub data Kind : Type 0 where
  domain : (category : Category) → (code : String) → Kind
  not_domain : Kind

-- The class that an exception extends, and its code.
unfoldable pub kind : AuthException → Kind
kind user_not_found = domain Category.entity_not_found "AUTH_USER_NOT_FOUND"
kind invalid_verification_code = domain Category.entity_not_found "AUTH_INVALID_VERIFICATION_CODE"
kind email_already_registered = domain Category.duplicate_entity "AUTH_EMAIL_ALREADY_REGISTERED"
kind invalid_credentials = domain Category.authentication_failed "AUTH_INVALID_CREDENTIALS"
kind account_blocked = domain Category.authentication_failed "AUTH_ACCOUNT_BLOCKED"
kind account_locked = domain Category.authentication_failed "AUTH_ACCOUNT_LOCKED"
kind email_not_verified = domain Category.authentication_failed "AUTH_EMAIL_NOT_VERIFIED"
kind invalid_old_password = domain Category.unauthorized_domain "AUTH_INVALID_OLD_PASSWORD"
kind invalid_refresh_token = domain Category.authentication_failed "AUTH_INVALID_REFRESH_TOKEN"
kind refresh_token_access_denied =
    domain Category.authentication_failed "AUTH_REFRESH_ACCESS_DENIED"
kind invalid_or_expired_exchange_code =
    domain Category.authentication_failed "AUTH_INVALID_EXCHANGE_CODE"
kind unexpected = not_domain
