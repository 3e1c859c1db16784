-- ===== src/Job/Handlers.antt =====
-- src/modules/job/application/commands. `now` is what the clock says, `fresh_id` the UUID of a new
-- job; the lookups are read-only ports, so they are functions. The response of a command is the job.
pub mod Expiry
pub mod Steps
pub mod Ownership
pub mod Validity
use Prim.Native.String.{String}
use recruitment_platform_be.Prelude.{
  unique, ℕ, Bool, true, false, not, Option, none, some, List, [], ◌∷◌, ◌==◌, ltb, length, filter,
  includes, or_else, is_some, if◌then◌else◌,
}
use recruitment_platform_be.Prelude.Action.{
  Result, ok, err, Action, pure, throw, throw_if, gets, or_throw, lift, ◌>>=◌, ◌>>◌,
}
use recruitment_platform_be.Common.Text.{Text}
use recruitment_platform_be.Job.Exceptions.{
  JobException, job_not_found, job_category_not_found, job_skill_not_found,
  company_profile_required, database,
}
use recruitment_platform_be.Job.Entity.{
  Job, JobStatus, Details, draft, salary_range, open_it, close, reopen, soft_delete, ensure_owner,
  update_details,
}
use recruitment_platform_be.Job.Repository.{JobRepository, Write, find_by_id}

pub record CreateJobInput : Type 0 where
  pub title : Text
  pub description : Text
  pub category_id : Option ℕ
  pub location : Text
  pub address : Option Text
  pub employment_type : Option String
  pub work_mode : Option String
  pub level : Option String
  pub salary_min : Option ℕ
  pub salary_max : Option ℕ
  pub currency : Option String
  pub requirements : Option (List Text)
  pub benefits : Option (List Text)
  pub working_hours : Option (List Text)
  pub expires_at : Option ℕ
  pub skill_ids : Option (List ℕ)

pub record UpdateJobInput : Type 0 where
  pub details : Details
  pub skill_ids : Option (List ℕ)

pub record Ports : Type 0 where
  pub get_recruiter_company_id : ℕ → Option ℕ
  pub category_exists : ℕ → Bool
  pub skill_exists : ℕ → Bool

-- The given category, or the one that is asked for, must exist.
abbrev pub missing_category : (ℕ → Bool) → Option ℕ → Bool
missing_category exists none = false
missing_category exists (some c) = not (exists c)

abbrev pub is_nil : List ℕ → Bool
is_nil [] = true
is_nil (n ∷ ns) = false

-- The given skills that do not exist.
abbrev pub missing_skills : (ℕ → Bool) → Option (List ℕ) → List ℕ
missing_skills exists skill_ids = filter (λ id. not (exists id)) (unique (or_else skill_ids []))

-- The skill tags of an update: none for `undefined`.
abbrev pub replaced_skills : Option (List ℕ) → Option (List ℕ)
replaced_skills none = none
replaced_skills (some ids) = some (unique ids)

unfoldable pub new_job :
    (recruiter_id company_id fresh_id : ℕ) → CreateJobInput → Result JobException Job
unfolding salary_range open_it
new_job recruiter_id company_id fresh_id input =
    elim (salary_range input.salary_min input.salary_max (or_else input.currency "VND")) [
      | ok salary ↦ open_it (record {
        id = fresh_id;
        title = input.title;
        description = input.description;
        company_id = company_id;
        category_id = input.category_id;
        location = input.location;
        address = input.address;
        employment_type = or_else input.employment_type "FULL_TIME";
        work_mode = or_else input.work_mode "ONSITE";
        level = input.level;
        status = draft;
        view_count = 0;
        salary = salary;
        requirements = or_else input.requirements [];
        benefits = or_else input.benefits [];
        working_hours = or_else input.working_hours [];
        expires_at = input.expires_at;
        deleted_at = none;
        posted_by_id = recruiter_id;
      })
      | err e ↦ err e
    ]

module _ {S : Type 0} (repository : JobRepository S) where
  abbrev pub write : (S → Write S) → Action JobException S Job
  write put s = (elim (put s).0 [ ok j ↦ ok j | err e ↦ err database ], (put s).1)

  -- The job, if the requester owns it.
  abbrev pub find_owned : (recruiter_id job_id : ℕ) → Action JobException S Job
  find_owned recruiter_id job_id = do
    job ← or_throw (← gets (find_by_id repository job_id)) job_not_found
    lift (ensure_owner job recruiter_id)
    pure job

  unfoldable pub close_job : (recruiter_id job_id : ℕ) → Action JobException S Job
  close_job recruiter_id job_id = do
    job ← find_owned recruiter_id job_id
    changed ← lift (close job)
    write (repository.update changed none)

  unfoldable pub reopen_job : (recruiter_id job_id : ℕ) → Action JobException S Job
  reopen_job recruiter_id job_id = do
    job ← find_owned recruiter_id job_id
    changed ← lift (reopen job)
    write (repository.update changed none)

  unfoldable pub delete_job : (recruiter_id job_id now : ℕ) → Action JobException S Job
  delete_job recruiter_id job_id now = do
    job ← find_owned recruiter_id job_id
    changed ← lift (soft_delete now job)
    write (repository.update changed none)

  -- The loop of CloseExpiredJobsHandler: the first failure ends it.
  unfoldable pub close_all : List Job → Action JobException S (Unit {0})
  close_all [] = pure tt
  close_all (job ∷ jobs) =
      let rest = close_all jobs in
      lift (close job) >>= λ changed. write (repository.update changed none) >> rest

  unfoldable pub close_expired_jobs : (now : ℕ) → Action JobException S (Unit {0})
  unfolding close_all
  close_expired_jobs now s = close_all (repository.find_expired_open_jobs now s) s

  module _ (ports : Ports) where
    unfoldable pub create_job :
        (recruiter_id fresh_id : ℕ) → CreateJobInput → Action JobException S Job
    create_job recruiter_id fresh_id input = do
      company_id ← or_throw (ports.get_recruiter_company_id recruiter_id) company_profile_required
      throw_if (missing_category ports.category_exists input.category_id) job_category_not_found
      let skill_ids : List ℕ = unique (or_else input.skill_ids [])
      let missing : List ℕ = missing_skills ports.skill_exists input.skill_ids
      throw_if (not (is_nil missing)) (job_skill_not_found missing)
      job ← lift (new_job recruiter_id company_id fresh_id input)
      write (repository.save job (if is_nil skill_ids then none else some skill_ids))

    unfoldable pub update_job :
        (recruiter_id job_id : ℕ) → UpdateJobInput → Action JobException S Job
    update_job recruiter_id job_id input = do
      job ← find_owned recruiter_id job_id
      throw_if (missing_category ports.category_exists (or_else input.details.category_id none))
          job_category_not_found
      let missing : List ℕ = missing_skills ports.skill_exists input.skill_ids
      throw_if (not (is_nil missing)) (job_skill_not_found missing)
      changed ← lift (update_details input.details job)
      write (repository.update changed (replaced_skills input.skill_ids))
