-- ===== src/Job/Exceptions.antt =====
-- src/modules/job/domain/exceptions/job.exceptions.ts, and an error of the database that is passed
-- on.
use Prim.Native.String.{String}
use recruitment_platform_be.Prelude.{ℕ, List}
use recruitment_platform_be.Common.Exceptions.{Category}

pub data JobException : Type 0 where
  job_not_found job_category_not_found : JobException
  job_skill_not_found : (missing : List ℕ) → JobException
  company_profile_required job_already_open job_already_closed job_not_closed : JobException
  job_already_deleted job_ownership job_not_accepting_applications job_expired : JobException
  job_removed invalid_salary_range database : JobException

pub data Kind : Type 0 where
  domain : (category : Category) → (code : String) → Kind
  not_domain : Kind

-- The class that an exception extends, and its code.
unfoldable pub kind : JobException → Kind
kind job_not_found = domain Category.entity_not_found "JOB_NOT_FOUND"
kind job_category_not_found = domain Category.entity_not_found "JOB_CATEGORY_NOT_FOUND"
kind (job_skill_not_found missing) = domain Category.entity_not_found "JOB_SKILL_NOT_FOUND"
kind company_profile_required =
    domain Category.business_rule_violation "JOB_COMPANY_PROFILE_REQUIRED"
kind job_already_open = domain Category.business_rule_violation "JOB_ALREADY_OPEN"
kind job_already_closed = domain Category.business_rule_violation "JOB_ALREADY_CLOSED"
kind job_not_closed = domain Category.business_rule_violation "JOB_NOT_CLOSED"
kind job_already_deleted = domain Category.business_rule_violation "JOB_ALREADY_DELETED"
kind job_ownership = domain Category.unauthorized_domain "JOB_NOT_OWNER"
kind job_not_accepting_applications =
    domain Category.business_rule_violation "JOB_NOT_ACCEPTING_APPLICATIONS"
kind job_expired = domain Category.business_rule_violation "JOB_EXPIRED"
kind job_removed = domain Category.business_rule_violation "JOB_REMOVED"
kind invalid_salary_range = domain Category.business_rule_violation "JOB_INVALID_SALARY_RANGE"
kind database = not_domain
