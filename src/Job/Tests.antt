-- ===== src/Job/Tests.antt =====
-- The commands of the job module on concrete jobs, and the theorems at them.
use recruitment_platform_be.Prelude.{ℕ, ◌≡◌, ◌⊎◌, refl, true, false, none, some, List, [], ◌∷◌}
use recruitment_platform_be.Prelude.Action.{ok, err}
use recruitment_platform_be.Common.Text.{units}
use recruitment_platform_be.Job.Exceptions.{job_not_found, invalid_salary_range}
use recruitment_platform_be.Job.Entity.{
  Job, open_status, salary_range, open_it, close, reopen, soft_delete, ensure_owner, is_expired,
  update_details, is_deleted,
}
use recruitment_platform_be.Job.Repository.{find_by_id, is_expired_open}
use recruitment_platform_be.Job.Repository.Memory.{Memory, empty, memory, memory-IsRepository}
use recruitment_platform_be.Job.Handlers.{
  Ports, CreateJobInput, new_job, create_job, close_job, reopen_job, delete_job, update_job,
  close_all, close_expired_jobs,
}
use recruitment_platform_be.Job.Handlers.Expiry.{closed_job}
use recruitment_platform_be.Job.Handlers.Ownership.{
  Command, create_it, close_it, reopen_it, delete_it, expire, changer, changed, execute,
  execute_owned,
}
use recruitment_platform_be.Job.Handlers.Validity.{IsJobSound, run, run-IsJobSound}

handlers : Unit {0}
unfolding salary_range open_it close reopen soft_delete ensure_owner is_expired update_details
    find_by_id is_expired_open new_job create_job close_job reopen_job delete_job update_job
    close_all close_expired_jobs run
handlers = tt

abbrev ports : Ports
ports = record {
  get_recruiter_company_id = λ k. some 5;
  category_exists = λ k. true;
  skill_exists = λ k. true;
}

abbrev input : CreateJobInput
input = record {
  title = units "Backend Engineer";
  description = units "Node";
  category_id = none;
  location = units "Hanoi";
  address = none;
  employment_type = none;
  work_mode = none;
  level = none;
  salary_min = some 10;
  salary_max = some 20;
  currency = none;
  requirements = none;
  benefits = none;
  working_hours = none;
  expires_at = some 500;
  skill_ids = some (1 ∷ 1 ∷ []);
}

wrong_salary :
    (create_job memory ports 9 1 (record input { salary_min = some 30 }) empty).0
    ≡ err invalid_salary_range
unfolding handlers
wrong_salary = refl

abbrev first_store : Memory
first_store = execute memory ports (create_it 9 1 input) empty

abbrev first : Job
first = record {
  id = 1;
  title = units "Backend Engineer";
  description = units "Node";
  company_id = 5;
  category_id = none;
  location = units "Hanoi";
  address = none;
  employment_type = "FULL_TIME";
  work_mode = "ONSITE";
  level = none;
  status = open_status;
  view_count = 0;
  salary = record { min = some 10; max = some 20; currency = "VND" };
  requirements = [];
  benefits = [];
  working_hours = [];
  expires_at = some 500;
  deleted_at = none;
  posted_by_id = 9;
}

created : create_job memory ports 9 1 input empty ≡ (ok first, first_store)
unfolding handlers
created = refl

abbrev deleted_store : Memory
deleted_store = execute memory ports (delete_it 9 1 300) first_store

deleted_not_found : (reopen_job memory 9 1 deleted_store).0 ≡ err job_not_found
unfolding handlers
deleted_not_found = refl

abbrev late_store : Memory
late_store = execute memory ports (expire 600) first_store

execute_owned_example :
    (m : Job) × (memory.find_row 1 (execute memory ports (close_it 9 1) first_store) ≡ some m)
    × (m.posted_by_id ≡ first.posted_by_id)
    × ((m ≡ first)
        ⊎ ((changer (close_it 9 1) ≡ some first.posted_by_id)
            × (changed (close_it 9 1) ≡ some 1)
            × (is_deleted first ≡ false))
        ⊎ ((now : ℕ) × (close_it 9 1 ≡ expire now)
            × (is_expired_open now first ≡ true)
            × (m ≡ closed_job first)))
unfolding handlers
execute_owned_example =
    execute_owned memory-IsRepository ports (close_it 9 1) first_store 1 first refl

abbrev commands : List Command
commands = create_it 9 1 input ∷ close_it 9 1 ∷ reopen_it 9 1 ∷ expire 600 ∷ delete_it 9 1 700 ∷ []

run-IsJobSound_example : IsJobSound memory (run memory ports commands empty)
run-IsJobSound_example =
    run-IsJobSound memory-IsRepository ports commands empty (record { valid = λ k j found. cc })
