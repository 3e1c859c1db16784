-- ===== src/Interview/Handlers.antt =====
-- src/modules/interview/application/commands. The lookups are read-only ports, so they are
-- functions; `now` is what `Date.now()` returns. A mail that cannot be sent is only logged, so the
-- list of mails holds the attempts. An input text for a time is already parsed.
pub mod Refusals
pub mod Soundness
pub mod Runs
pub mod FinalStatus
use Prim.Native.String.{String}
use text.Mathlib.Text.{◌==◌ as str_eq}
use recruitment_platform_be.Prelude.{
  ℕ, Bool, not, Option, none, some, List, [], ◌∷◌, ◌++◌, ◌==◌, any, leb, or_else,
}
use recruitment_platform_be.Prelude.Action.{
  ok, err, Action, pure, throw_if, gets, modify, or_throw, lift, check, ◌>>=◌, ◌>>◌,
}
use recruitment_platform_be.Interview.Exceptions.{
  InterviewException, interview_not_found, interview_application_not_found, interview_job_not_found,
  interview_time_in_past, interview_already_scheduled, interview_application_not_interviewable,
  unauthorized_domain, database,
}
use recruitment_platform_be.Interview.Entity.{
  InterviewSchedule, Changes, new, reschedule, cancel, complete, mark_no_show, is_active,
}
use recruitment_platform_be.Interview.Repository.{InterviewScheduleRepository, Write}

pub record ApplicationLookupResult : Type 0 where
  pub id : ℕ
  pub user_id : ℕ
  pub job_id : ℕ
  pub status : String

pub record JobLookupResult : Type 0 where
  pub id : ℕ
  pub title : String
  pub posted_by_id : ℕ

pub record UserLookupResult : Type 0 where
  pub id : ℕ
  pub email : String
  pub full_name : String

-- What `buildInterviewEmail` is given, and to whom the mail goes.
pub data Mail : Type 0 where
  scheduled_mail rescheduled_mail :
      (to job_title : String) (at : ℕ) (location link note : Option String) → Mail
  cancelled_mail : (to job_title : String) (at : ℕ) → Mail

pub record World (S : Type 0) : Type 0 where
  pub store : S
  pub mails : List Mail

pub record ScheduleInterviewInput : Type 0 where
  pub job_application_id : ℕ
  pub scheduled_at : ℕ
  pub location : Option String
  pub meeting_link : Option String
  pub note : Option String
  pub duration_minutes : Option ℕ

pub record RescheduleInterviewInput : Type 0 where
  pub scheduled_at : Option ℕ
  pub changes : Changes

abbrev terminal_application_statuses : List String
terminal_application_statuses = "HIRED" ∷ "REJECTED" ∷ "WITHDRAWN" ∷ []

-- True where `ensureApplicationInterviewable` throws.
unfoldable pub is_final_status : String → Bool
is_final_status status = any (λ s. str_eq s status) terminal_application_statuses

-- The ports of the module.
pub record Ports : Type 0 where
  pub find_application : ℕ → Option ApplicationLookupResult
  pub find_job : ℕ → Option JobLookupResult
  pub find_user : ℕ → Option UserLookupResult

module _ {S : Type 0} (repository : InterviewScheduleRepository S) (ports : Ports) where
  abbrev write : (S → Write S) → Action InterviewException (World S) InterviewSchedule
  write put w = (
    elim (put w.store).0 [ ok i ↦ ok i | err e ↦ err database ],
    record w { store = (put w.store).1 },
  )

  -- The candidate may be gone; then no mail is sent.
  abbrev notify : ℕ → (String → Mail) → Action InterviewException (World S) (Unit {0})
  notify user_id mail = modify (λ w. elim (ports.find_user user_id) [
    | none ↦ w
    | some user ↦ record w { mails = w.mails ++ mail user.email ∷ [] }
  ])

  -- The application can still have interviews, and the requester posted its job.
  abbrev authorize :
      (recruiter_id application_id : ℕ) (code : String)
      → Action InterviewException (World S) (ApplicationLookupResult × JobLookupResult)
  authorize recruiter_id application_id code = do
    application ← or_throw (ports.find_application application_id) interview_application_not_found
    throw_if (is_final_status application.status) interview_application_not_interviewable
    job ← or_throw (ports.find_job application.job_id) interview_job_not_found
    lift (check (job.posted_by_id == recruiter_id) (unauthorized_domain code))
    pure (application, job)

  abbrev find_interview : ℕ → Action InterviewException (World S) InterviewSchedule
  find_interview id = do
    or_throw (← gets (λ w. repository.find_by_id id w.store)) interview_not_found

  -- Up to the check that no active interview is there yet.
  unfoldable pub check_schedule :
      (now recruiter_id : ℕ)
      → ScheduleInterviewInput
      → Action InterviewException (World S) (ApplicationLookupResult × JobLookupResult)
  check_schedule now recruiter_id input = do
    found ← authorize recruiter_id input.job_application_id "INTERVIEW_SCHEDULE_ACCESS_DENIED"
    throw_if (leb input.scheduled_at now) interview_time_in_past
    existing ← gets (λ w. repository.find_by_application_id input.job_application_id w.store)
    throw_if (any is_active existing) interview_already_scheduled
    pure found

  -- The insert and the mail.
  unfoldable pub insert_schedule :
      (recruiter_id fresh_id : ℕ)
      → ScheduleInterviewInput
      → ApplicationLookupResult × JobLookupResult
      → Action InterviewException (World S) InterviewSchedule
  insert_schedule recruiter_id fresh_id input (application, job) = do
    interview ← lift (
        new fresh_id input.job_application_id input.scheduled_at input.duration_minutes
          input.location input.meeting_link input.note none (some recruiter_id))
    saved ← write (repository.save interview)
    notify application.user_id (λ to.
        scheduled_mail to job.title saved.scheduled_at saved.location saved.meeting_link saved.note)
    pure saved

  unfoldable pub schedule_interview :
      (now recruiter_id fresh_id : ℕ)
      → ScheduleInterviewInput
      → Action InterviewException (World S) InterviewSchedule
  unfolding check_schedule insert_schedule
  schedule_interview now recruiter_id fresh_id input = do
    found ← check_schedule now recruiter_id input
    insert_schedule recruiter_id fresh_id input found

  unfoldable pub reschedule_interview :
      (now recruiter_id interview_id : ℕ)
      → RescheduleInterviewInput
      → Action InterviewException (World S) InterviewSchedule
  reschedule_interview now recruiter_id interview_id input = do
    interview ← find_interview interview_id
    (application, job) ←
        authorize recruiter_id interview.job_application_id "INTERVIEW_RESCHEDULE_ACCESS_DENIED"
    moved ←
        lift (
          reschedule now interview (or_else input.scheduled_at interview.scheduled_at)
            input.changes)
    saved ← write (repository.update moved)
    notify application.user_id (λ to.
        rescheduled_mail to job.title saved.scheduled_at saved.location saved.meeting_link
          saved.note)
    pure saved

  unfoldable pub cancel_interview :
      (recruiter_id interview_id : ℕ) → Action InterviewException (World S) InterviewSchedule
  cancel_interview recruiter_id interview_id = do
    interview ← find_interview interview_id
    (application, job) ←
        authorize recruiter_id interview.job_application_id "INTERVIEW_CANCEL_ACCESS_DENIED"
    cancelled ← lift (cancel interview)
    saved ← write (repository.update cancelled)
    notify application.user_id (λ to. cancelled_mail to job.title saved.scheduled_at)
    pure saved

  unfoldable pub complete_interview :
      (recruiter_id interview_id : ℕ) → Action InterviewException (World S) InterviewSchedule
  complete_interview recruiter_id interview_id = do
    interview ← find_interview interview_id
    authorize recruiter_id interview.job_application_id "INTERVIEW_COMPLETE_ACCESS_DENIED"
    completed ← lift (complete interview)
    write (repository.update completed)

  unfoldable pub mark_interview_no_show :
      (recruiter_id interview_id : ℕ) → Action InterviewException (World S) InterviewSchedule
  mark_interview_no_show recruiter_id interview_id = do
    interview ← find_interview interview_id
    authorize recruiter_id interview.job_application_id "INTERVIEW_NO_SHOW_ACCESS_DENIED"
    missed ← lift (mark_no_show interview)
    write (repository.update missed)
