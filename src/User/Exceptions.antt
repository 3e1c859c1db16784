-- ===== src/User/Exceptions.antt =====
-- src/modules/user/domain/exceptions/user.exceptions.ts, and an error that is none of them and is
-- passed on.
use Prim.Native.String.{String}
use recruitment_platform_be.Common.Exceptions.{Category}

pub data UserException : Type 0 where
  user_not_found cannot_modify_own_account cannot_remove_last_admin : UserException
  invalid_avatar_url unexpected : UserException

pub data Kind : Type 0 where
  domain : (category : Category) → (code : String) → Kind
  not_domain : Kind

unfoldable pub kind : UserException → Kind
kind user_not_found = domain Category.entity_not_found "USER_NOT_FOUND"
kind cannot_modify_own_account =
    domain Category.business_rule_violation "USER_CANNOT_MODIFY_OWN_ACCOUNT"
kind cannot_remove_last_admin =
    domain Category.business_rule_violation "USER_CANNOT_REMOVE_LAST_ADMIN"
kind invalid_avatar_url = domain Category.business_rule_violation "USER_INVALID_AVATAR_URL"
kind unexpected = not_domain
