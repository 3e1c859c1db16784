-- ===== src/Application/Handlers.antt =====
-- src/modules/application/application/commands: the handlers of a request to apply for a job, to
-- move an application on, and to withdraw it. The lookups of jobs and CVs are read-only ports, so
-- they are functions; emitted events are kept in a list. A query that fails for lack of a database
-- is left out, and so is the mapping of an application to its response, which copies its fields.
pub mod Applying
pub mod Moving
pub mod Audit
pub mod Runs
use Prim.Native.String.{String}
use recruitment_platform_be.Prelude.{
  ℕ, Bool, true, false, not, Option, none, some, List, [], ◌∷◌, ◌++◌, ◌==◌, is_some, if◌then◌else◌,
}
use recruitment_platform_be.Prelude.Action.{
  Result, ok, err, Action, pure, throw, throw_if, gets, modify, or_throw, lift, check, ◌>>=◌, ◌>>◌,
}
use recruitment_platform_be.Common.Database.{DatabaseError, is_unique_constraint_violation}
use recruitment_platform_be.Application.Status.{ApplicationStatus}
use recruitment_platform_be.Application.Exceptions.{
  ApplicationException, job_application_not_found, referenced_job_not_found,
  referenced_cv_not_found, job_not_accepting_applications, job_posting_expired, job_posting_removed,
  cv_not_published, referenced_cv_deleted, cv_ownership, already_applied, application_ownership,
  status_update_access_denied, database,
}
use recruitment_platform_be.Application.Entity.{JobApplication, new, transition_to, withdraw}
use recruitment_platform_be.Application.Repository.{StatusChange, Write, ApplicationRepository}

pub record JobLookupResult : Type 0 where
  pub id : ℕ
  pub title : String
  pub posted_by_id : ℕ
  pub is_open : Bool
  pub is_expired : Bool
  pub is_deleted : Bool

pub record CvLookupResult : Type 0 where
  pub id : ℕ
  pub user_id : ℕ
  pub is_published : Bool
  pub is_deleted : Bool

pub data ApplicationEvent : Type 0 where
  job_applied :
      (application_id user_id job_id cv_id job_owner_id : ℕ) (job_title : String) → ApplicationEvent
  application_status_changed :
      (application_id user_id job_id : ℕ) (job_title : String) (status : ApplicationStatus)
      → ApplicationEvent

-- The database and the events emitted so far.
pub record World (S : Type 0) : Type 0 where
  pub store : S
  pub events : List ApplicationEvent

pub record ApplyJobInput : Type 0 where
  pub job_id : ℕ
  pub cv_id : ℕ
  pub cover_letter : Option String

-- The `catch` around the insert; any other error is thrown on.
abbrev caught : DatabaseError → ApplicationException
caught e = if is_unique_constraint_violation e then already_applied else database

abbrev thrown_on : DatabaseError → ApplicationException
thrown_on e = database

module _ {S : Type 0} (repository : ApplicationRepository S) where
  abbrev write :
      (DatabaseError → ApplicationException)
      → (S → Write S)
      → Action ApplicationException (World S) JobApplication
  write f put w = (
    elim (put w.store).0 [ ok a ↦ ok a | err e ↦ err (f e) ],
    record w { store = (put w.store).1 },
  )

  abbrev emit : ApplicationEvent → Action ApplicationException (World S) (Unit {0})
  emit e = modify (λ w. record w { events = w.events ++ e ∷ [] })

  -- The insert, which another request may come before.
  unfoldable pub insert_application :
      (user_id fresh_id : ℕ)
      → ApplyJobInput
      → JobLookupResult
      → Action ApplicationException (World S) JobApplication
  unfolding new
  insert_application user_id fresh_id input job = do
    saved ← write caught (
        repository.save
          (new fresh_id none input.cover_letter user_id input.job_id (some input.cv_id)))
    emit (job_applied saved.id user_id input.job_id input.cv_id job.posted_by_id job.title)
    pure saved

  module _ (find_job : ℕ → Option JobLookupResult) where
    module _ (find_cv : ℕ → Option CvLookupResult) where
      -- Up to the check that no application is there yet.
      unfoldable pub check_application :
          (user_id : ℕ) → ApplyJobInput → Action ApplicationException (World S) JobLookupResult
      check_application user_id input = do
        job ← or_throw (find_job input.job_id) referenced_job_not_found
        cv ← or_throw (find_cv input.cv_id) referenced_cv_not_found
        throw_if (not job.is_open) job_not_accepting_applications
        throw_if job.is_expired job_posting_expired
        throw_if job.is_deleted job_posting_removed
        throw_if (not cv.is_published) cv_not_published
        throw_if cv.is_deleted referenced_cv_deleted
        throw_if (not (cv.user_id == user_id)) cv_ownership
        existing ← gets (λ w. repository.find_by_user_id_and_job_id user_id input.job_id w.store)
        throw_if (is_some existing) already_applied
        pure job

      unfoldable pub apply_job :
          (user_id fresh_id : ℕ)
          → ApplyJobInput
          → Action ApplicationException (World S) JobApplication
      unfolding check_application insert_application
      apply_job user_id fresh_id input = do
        job ← check_application user_id input
        insert_application user_id fresh_id input job

    unfoldable pub update_application_status :
        (recruiter_id application_id : ℕ) (status : ApplicationStatus) (note : Option String)
        → Action ApplicationException (World S) JobApplication
    unfolding transition_to
    update_application_status recruiter_id application_id status note = do
      found ← gets (λ w. repository.find_by_id application_id w.store)
      application ← or_throw found job_application_not_found
      job ← or_throw (find_job application.job_id) referenced_job_not_found
      lift (check (job.posted_by_id == recruiter_id) status_update_access_denied)
      moved ← lift (transition_to application status)
      updated ← write thrown_on (
          repository.update_with_status_history moved (record {
            application_id = moved.id;
            from_status = some application.status;
            to_status = moved.status;
            changed_by_id = some recruiter_id;
            note = note;
          }))
      emit (application_status_changed updated.id updated.user_id job.id job.title updated.status)
      pure updated

  unfoldable pub withdraw_application :
      (user_id application_id : ℕ) → Action ApplicationException (World S) JobApplication
  unfolding withdraw
  withdraw_application user_id application_id = do
    found ← gets (λ w. repository.find_by_id application_id w.store)
    application ← or_throw found job_application_not_found
    lift (check (application.user_id == user_id) application_ownership)
    left ← lift (withdraw application)
    write thrown_on (
        repository.update_with_status_history left (record {
          application_id = left.id;
          from_status = some application.status;
          to_status = left.status;
          changed_by_id = some user_id;
          note = none;
        }))
