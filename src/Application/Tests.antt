-- ===== src/Application/Tests.antt =====
-- Runs of the handlers of the application module on concrete data, and the theorems at them.
use recruitment_platform_be.Prelude.{ℕ, ◌≡◌, refl, true, false, Option, none, some, List, [], ◌∷◌}
use recruitment_platform_be.Prelude.Action.{ok, err}
use recruitment_platform_be.Application.Status.{
  applied, screening, shortlisted, interview, offer, hired, can_transition_application_status,
  is_terminal_application_status,
}
use recruitment_platform_be.Application.Exceptions.{already_applied, application_ownership}
use recruitment_platform_be.Application.Entity.{JobApplication, new, transition_to, withdraw}
use recruitment_platform_be.Application.Entity.Lifecycle.{
  Request, transition, withdrawal, trace, final, way_to_hired, hired_by_pipeline,
}
use recruitment_platform_be.Application.Repository.Memory.{
  Memory, empty, memory, memory-IsRepository,
}
use recruitment_platform_be.Application.Handlers.{
  JobLookupResult, CvLookupResult, ApplyJobInput, World, insert_application, apply_job,
  update_application_status, withdraw_application, check_application,
}
use recruitment_platform_be.Application.Handlers.Applying.{
  IsApplied, apply_job_accepted, insert_application_race,
}
use recruitment_platform_be.Application.Handlers.Audit.{IsAudited}
use recruitment_platform_be.Application.Handlers.Runs.{apply, update, leave, run, run-IsAudited}

abbrev candidate : ℕ
candidate = 7

abbrev recruiter : ℕ
recruiter = 9

abbrev job : JobLookupResult
job = record {
  id = 3;
  title = "Backend Engineer";
  posted_by_id = recruiter;
  is_open = true;
  is_expired = false;
  is_deleted = false;
}

abbrev cv : CvLookupResult
cv = record { id = 5; user_id = candidate; is_published = true; is_deleted = false }

abbrev find_job : ℕ → Option JobLookupResult
find_job k = some job

abbrev find_cv : ℕ → Option CvLookupResult
find_cv k = some cv

abbrev input : ApplyJobInput
input = record { job_id = 3; cv_id = 5; cover_letter = none }

abbrev start : World Memory
start = record { store = empty; events = [] }

abbrev application : JobApplication
application = record {
  id = 1;
  status = applied;
  cover_letter = none;
  user_id = candidate;
  job_id = 3;
  cv_id = some 5;
}

handlers : Unit {0}
unfolding apply_job check_application insert_application update_application_status
    withdraw_application transition_to withdraw new can_transition_application_status
    is_terminal_application_status run trace final
handlers = tt

abbrev first_world : World Memory
first_world = (apply_job memory find_job find_cv candidate 11 input start).1

apply_once :
    apply_job memory find_job find_cv candidate 11 input start ≡ (ok application, first_world)
unfolding handlers
apply_once = refl

apply_twice :
    (apply_job memory find_job find_cv candidate 12 input first_world).0 ≡ err already_applied
unfolding handlers
apply_twice = refl

withdraw_by_other : (withdraw_application memory 8 1 first_world).0 ≡ err application_ownership
unfolding handlers
withdraw_by_other = refl

abbrev to_hired : List Request
to_hired =
    transition screening
    ∷ transition offer
    ∷ transition shortlisted
    ∷ transition interview
    ∷ transition offer
    ∷ transition hired
    ∷ withdrawal
    ∷ []

to_hired-final : (final application to_hired).status ≡ hired
unfolding handlers
to_hired-final = refl

hired_by_pipeline_example : trace application to_hired ≡ way_to_hired applied
hired_by_pipeline_example = hired_by_pipeline application to_hired to_hired-final

apply_job_accepted_example :
    IsApplied memory-IsRepository candidate input job cv application start first_world
apply_job_accepted_example =
    apply_job_accepted memory-IsRepository find_job find_cv candidate 11 input start first_world job
      cv application refl refl apply_once

insert_application_race_example :
    insert_application memory candidate 12 input job first_world
    ≡ (err already_applied, first_world)
unfolding handlers
insert_application_race_example =
    insert_application_race memory-IsRepository candidate 12 input job first_world application refl

abbrev second_world : World Memory
second_world = (update_application_status memory find_job recruiter 1 screening none first_world).1

abbrev screened : JobApplication
screened = record application { status = screening }

abbrev left_world : World Memory
left_world = (withdraw_application memory candidate 1 first_world).1

run-IsAudited_example :
    IsAudited memory
      (run memory find_job find_cv
        (apply candidate 11 input
          ∷ update recruiter 1 screening none
          ∷ update recruiter 1 hired none
          ∷ leave candidate 1
          ∷ [])
        start).store
run-IsAudited_example =
    run-IsAudited memory-IsRepository find_job find_cv
      (apply candidate 11 input
        ∷ update recruiter 1 screening none
        ∷ update recruiter 1 hired none
        ∷ leave candidate 1
        ∷ [])
      start (λ k a found. cc)
