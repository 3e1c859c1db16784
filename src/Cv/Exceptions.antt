-- ===== src/Cv/Exceptions.antt =====
-- src/modules/cv/domain/exceptions/cv.exceptions.ts, and an error that is none of them and is passed
-- on.
use Prim.Native.String.{String}
use recruitment_platform_be.Common.Exceptions.{Category}

pub data CvException : Type 0 where
  cv_not_found cv_already_published cv_already_draft cv_already_deleted : CvException
  cv_not_deleted cv_ownership cv_download_access_denied cv_title_required : CvException
  cv_file_required cv_invalid_file_type cv_file_too_large : CvException
  cv_referenced_by_active_application unexpected : CvException

pub data Kind : Type 0 where
  domain : (category : Category) → (code : String) → Kind
  not_domain : Kind

unfoldable pub kind : CvException → Kind
kind cv_not_found = domain Category.entity_not_found "CV_NOT_FOUND"
kind cv_already_published = domain Category.business_rule_violation "CV_ALREADY_PUBLISHED"
kind cv_already_draft = domain Category.business_rule_violation "CV_ALREADY_DRAFT"
kind cv_already_deleted = domain Category.business_rule_violation "CV_ALREADY_DELETED"
kind cv_not_deleted = domain Category.business_rule_violation "CV_NOT_DELETED"
kind cv_ownership = domain Category.unauthorized_domain "CV_NOT_OWNER"
kind cv_download_access_denied = domain Category.unauthorized_domain "CV_DOWNLOAD_ACCESS_DENIED"
kind cv_title_required = domain Category.business_rule_violation "CV_TITLE_REQUIRED"
kind cv_file_required = domain Category.business_rule_violation "CV_FILE_REQUIRED"
kind cv_invalid_file_type = domain Category.business_rule_violation "CV_INVALID_FILE_TYPE"
kind cv_file_too_large = domain Category.business_rule_violation "CV_FILE_TOO_LARGE"
kind cv_referenced_by_active_application =
    domain Category.business_rule_violation "CV_REFERENCED_BY_ACTIVE_APPLICATION"
kind unexpected = not_domain
