-- ===== src/Common/Filter.antt =====
-- src/common/filters/http-exception.filter.ts: what `GlobalExceptionFilter.catch` answers.
-- The log line is left out, and so is the body of an HttpException that is an object with no
-- `message`.
pub mod Laws
use Prim.Native.String
use Prim.Native.String.{String}
use text.Mathlib.Text.{◌==◌ as str_eq}
use recruitment_platform_be.Prelude.{
  ℕ, Bool, true, false, Option, none, some, List, [], ◌∷◌, leb, ◌&&◌, ◌==◌, if◌then◌else◌,
}
use recruitment_platform_be.Common.Exceptions.{Category, DomainException}

-- `string | string[]`
pub data Message : Type 0 where
  one : String → Message
  many : List String → Message

-- What a handler can throw: `other` is a value that is no Error.
pub data Caught : Type 0 where
  http_exception : (status : ℕ) → (body : Option Message) → Caught
  domain_exception : DomainException → Caught
  prisma_error : (code : String) → (target : Option (List String)) → Caught
  error : String → Caught
  other : Caught

pub record Response : Type 0 where
  pub status : ℕ
  pub message : String
  pub code : String

-- `xs.join(sep)`
pub join : String → List String → String
join sep [] = ""
join sep (x ∷ []) = x
join sep (x ∷ y ∷ xs) = String.◌++◌ x (String.◌++◌ sep (join sep (y ∷ xs)))

unfoldable pub map_domain_exception_to_status : Category → ℕ
map_domain_exception_to_status Category.entity_not_found = 404
map_domain_exception_to_status Category.authentication_failed = 401
map_domain_exception_to_status Category.unauthorized_domain = 403
map_domain_exception_to_status Category.duplicate_entity = 409
map_domain_exception_to_status Category.business_rule_violation = 400
map_domain_exception_to_status Category.external_service = 503
map_domain_exception_to_status Category.domain_error = 400

abbrev is_array : Message → Bool
is_array (one s) = false
is_array (many ss) = true

record Draft : Type 0 where
  status : ℕ
  message : Message
  code : String

abbrev internal : Draft
internal = record {
  status = 500;
  message = one "Internal server error";
  code = "INTERNAL_SERVER_ERROR";
}

abbrev body_message : Option Message → Message
body_message none = internal.message
body_message (some m) = m

unique_violation_message : Option (List String) → String
unfolding join
unique_violation_message none = "A record with this value already exists"
unique_violation_message (some target) =
    String.◌++◌ "A record with this " (String.◌++◌ (join ", " target) " already exists")

prisma_draft : String → Option (List String) → Draft
unfolding unique_violation_message
prisma_draft code target =
    if str_eq code "P2002"
    then record {
      status = 409;
      message = one (unique_violation_message target);
      code = "DUPLICATE_ENTITY";
    }
    else if str_eq code "P2025"
    then record {
      status = 404;
      message = one "The requested record no longer exists";
      code = "ENTITY_NOT_FOUND";
    }
    else if str_eq code "P2003"
    then record {
      status = 400;
      message = one "One or more referenced ids do not exist";
      code = "INVALID_REFERENCE";
    }
    else internal

-- The status, message and code that the chain of `instanceof` tests arrives at.
draft : Caught → Draft
unfolding map_domain_exception_to_status prisma_draft
draft (http_exception status body) = record {
  status = status;
  message = body_message body;
  code = if status == 400 && is_array (body_message body) then "VALIDATION_ERROR" else "HTTP_ERROR";
}
draft (domain_exception e) = record {
  status = map_domain_exception_to_status e.category;
  message = one e.message;
  code = e.code;
}
draft (prisma_error code target) = prisma_draft code target
draft (error message) = record internal { message = one message }
draft other = internal

final_message : Message → String
unfolding join
final_message (one s) = s
final_message (many ss) = join ", " ss

-- A body with a status of 500 or more never echoes the message.
unfoldable pub catch : Caught → Response
unfolding draft final_message
catch e = record {
  status = (draft e).status;
  message =
      if leb 500 (draft e).status then "Internal server error" else final_message (draft e).message;
  code = if leb 500 (draft e).status then "INTERNAL_SERVER_ERROR" else (draft e).code;
}
