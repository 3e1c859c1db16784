-- ===== src/Interview/Exceptions.antt =====
-- src/modules/interview/domain/exceptions/interview.exceptions.ts, with the exception that
-- `ensureOwner` throws under the code of its caller, and an error of the database that is passed on.
use Prim.Native.String.{String}
use recruitment_platform_be.Common.Exceptions.{Category}

pub data InterviewException : Type 0 where
  interview_not_found interview_application_not_found interview_job_not_found : InterviewException
  interview_view_not_allowed interview_already_cancelled : InterviewException
  cannot_reschedule_cancelled_interview interview_time_in_past : InterviewException
  interview_not_actionable : (action : String) → InterviewException
  interview_location_or_meeting_link_required interview_already_scheduled : InterviewException
  interview_application_not_interviewable : InterviewException
  unauthorized_domain : (code : String) → InterviewException
  database : InterviewException

pub data Kind : Type 0 where
  domain : (category : Category) → (code : String) → Kind
  not_domain : Kind

-- The class that an exception extends, and its code.
unfoldable pub kind : InterviewException → Kind
kind interview_not_found = domain Category.entity_not_found "INTERVIEW_NOT_FOUND"
kind interview_application_not_found =
    domain Category.entity_not_found "INTERVIEW_APPLICATION_NOT_FOUND"
kind interview_job_not_found = domain Category.entity_not_found "INTERVIEW_JOB_NOT_FOUND"
kind interview_view_not_allowed = domain Category.unauthorized_domain "INTERVIEW_VIEW_NOT_ALLOWED"
kind interview_already_cancelled =
    domain Category.business_rule_violation "INTERVIEW_ALREADY_CANCELLED"
kind cannot_reschedule_cancelled_interview =
    domain Category.business_rule_violation "INTERVIEW_CANNOT_RESCHEDULE_CANCELLED"
kind interview_time_in_past = domain Category.business_rule_violation "INTERVIEW_TIME_IN_PAST"
kind (interview_not_actionable action) =
    domain Category.business_rule_violation "INTERVIEW_NOT_ACTIONABLE"
kind interview_location_or_meeting_link_required =
    domain Category.business_rule_violation "INTERVIEW_LOCATION_OR_LINK_REQUIRED"
kind interview_already_scheduled =
    domain Category.business_rule_violation "INTERVIEW_ALREADY_SCHEDULED"
kind interview_application_not_interviewable =
    domain Category.business_rule_violation "INTERVIEW_APPLICATION_NOT_INTERVIEWABLE"
kind (unauthorized_domain code) = domain Category.unauthorized_domain code
kind database = not_domain
