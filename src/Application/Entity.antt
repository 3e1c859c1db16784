-- ===== src/Application/Entity.antt =====
-- src/modules/application/domain/entities/job-application.entity.ts. Ids are only compared, so they
-- are numbers; the timestamps of BaseEntity are left out.
pub mod Lifecycle
use Prim.Native.String.{String}
use recruitment_platform_be.Prelude.{ℕ, Option, if◌then◌else◌, or_else}
use recruitment_platform_be.Prelude.Action.{Result, ok, err}
use recruitment_platform_be.Application.Status.{
  ApplicationStatus, applied, withdrawn, is_terminal_application_status,
  can_transition_application_status,
}
use recruitment_platform_be.Application.Exceptions.{
  ApplicationException, invalid_application_status_transition,
}

pub record JobApplication : Type 0 where
  pub id : ℕ
  pub status : ApplicationStatus
  pub cover_letter : Option String
  pub user_id : ℕ
  pub job_id : ℕ
  pub cv_id : Option ℕ

unfoldable pub new :
    (id : ℕ) (status : Option ApplicationStatus) (cover_letter : Option String) (user_id job_id : ℕ)
    (cv_id : Option ℕ)
    → JobApplication
new id status cover_letter user_id job_id cv_id = record {
  id = id;
  status = or_else status applied;
  cover_letter = cover_letter;
  user_id = user_id;
  job_id = job_id;
  cv_id = cv_id;
}

unfoldable pub transition_to :
    JobApplication → ApplicationStatus → Result ApplicationException JobApplication
transition_to a new_status =
    if can_transition_application_status a.status new_status
    then ok (record a { status = new_status })
    else err (invalid_application_status_transition a.status new_status)

unfoldable pub withdraw : JobApplication → Result ApplicationException JobApplication
withdraw a =
    if is_terminal_application_status a.status
    then err (invalid_application_status_transition a.status withdrawn)
    else ok (record a { status = withdrawn })
