-- ===== src/Application/Exceptions.antt =====
-- src/modules/application/domain/exceptions/application.exceptions.ts, with the exception that
-- `ensureOwner` throws, and an error of the database that a handler passes on. Messages are left
-- out, and so are the ids that only they show.
use Prim.Native.String.{String}
use recruitment_platform_be.Application.Status.{ApplicationStatus}
use recruitment_platform_be.Common.Exceptions.{Category}

pub data ApplicationException : Type 0 where
  job_application_not_found referenced_job_not_found : ApplicationException
  referenced_cv_not_found job_not_accepting_applications job_posting_expired : ApplicationException
  job_posting_removed cv_not_published referenced_cv_deleted : ApplicationException
  cv_ownership already_applied application_ownership : ApplicationException
  invalid_application_status_transition : (from to : ApplicationStatus) → ApplicationException
  application_history_view_not_allowed status_update_access_denied : ApplicationException
  database : ApplicationException

-- The class that an exception extends; what the database throws is no domain exception.
pub data Kind : Type 0 where
  domain : (category : Category) → (code : String) → Kind
  not_domain : Kind

unfoldable pub kind : ApplicationException → Kind
kind job_application_not_found = domain Category.entity_not_found "APPLICATION_NOT_FOUND"
kind referenced_job_not_found = domain Category.entity_not_found "APPLICATION_JOB_NOT_FOUND"
kind referenced_cv_not_found = domain Category.entity_not_found "APPLICATION_CV_NOT_FOUND"
kind job_not_accepting_applications =
    domain Category.business_rule_violation "APPLICATION_JOB_NOT_ACCEPTING"
kind job_posting_expired = domain Category.business_rule_violation "APPLICATION_JOB_EXPIRED"
kind job_posting_removed = domain Category.business_rule_violation "APPLICATION_JOB_REMOVED"
kind cv_not_published = domain Category.business_rule_violation "APPLICATION_CV_NOT_PUBLISHED"
kind referenced_cv_deleted = domain Category.business_rule_violation "APPLICATION_CV_DELETED"
kind cv_ownership = domain Category.unauthorized_domain "APPLICATION_CV_NOT_OWNER"
kind already_applied = domain Category.duplicate_entity "APPLICATION_ALREADY_APPLIED"
kind application_ownership = domain Category.unauthorized_domain "APPLICATION_NOT_OWNER"
kind (invalid_application_status_transition from to) =
    domain Category.business_rule_violation "APPLICATION_INVALID_STATUS_TRANSITION"
kind application_history_view_not_allowed =
    domain Category.unauthorized_domain "APPLICATION_HISTORY_VIEW_NOT_ALLOWED"
kind status_update_access_denied =
    domain Category.unauthorized_domain "APPLICATION_STATUS_UPDATE_ACCESS_DENIED"
kind database = not_domain
