-- ===== src/Common/Exceptions.antt =====
-- src/common/exceptions/domain.exception.ts. A class is a category; the exceptions of the modules
-- are subclasses that fix the code.
use Prim.Native.String.{String}

pub data Category : Type 0 where
  domain_error entity_not_found business_rule_violation duplicate_entity : Category
  unauthorized_domain authentication_failed external_service : Category

pub record DomainException : Type 0 where
  pub category : Category
  pub message : String
  pub code : String

-- The code of an exception that is thrown without one.
unfoldable pub default_code : Category → String
default_code Category.domain_error = "DOMAIN_ERROR"
default_code Category.entity_not_found = "ENTITY_NOT_FOUND"
default_code Category.business_rule_violation = "BUSINESS_RULE_VIOLATION"
default_code Category.duplicate_entity = "DUPLICATE_ENTITY"
default_code Category.unauthorized_domain = "UNAUTHORIZED_ACTION"
default_code Category.authentication_failed = "AUTHENTICATION_FAILED"
default_code Category.external_service = "EXTERNAL_SERVICE_ERROR"
