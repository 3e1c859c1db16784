-- ===== src/Interview/Tests.antt =====
-- Runs of the handlers of the interview module on concrete data, and the theorems at them.
use recruitment_platform_be.Prelude.{ℕ, ◌≡◌, arith, refl, none, some, [], ◌∷◌}
use recruitment_platform_be.Prelude.Action.{ok, err}
use recruitment_platform_be.Interview.Exceptions.{interview_already_scheduled}
use recruitment_platform_be.Interview.Entity.{
  InterviewSchedule, Changes, scheduled, rescheduled, new, reschedule, cancel, complete,
  mark_no_show, is_active,
}
use recruitment_platform_be.Interview.Entity.Lifecycle.{serve_all}
use recruitment_platform_be.Interview.Repository.{members}
use recruitment_platform_be.Interview.Repository.Memory.{Memory, empty, memory, memory-IsRepository}
use recruitment_platform_be.Interview.Handlers.{
  ApplicationLookupResult, JobLookupResult, World, ScheduleInterviewInput, Ports, is_final_status,
  check_schedule, insert_schedule, schedule_interview, reschedule_interview, cancel_interview,
  complete_interview, mark_interview_no_show,
}
use recruitment_platform_be.Interview.Handlers.Refusals.{schedule, cancel_it, miss_it, execute}
use recruitment_platform_be.Interview.Handlers.Soundness.{IsSound}
use recruitment_platform_be.Interview.Handlers.Runs.{run, run-IsSound, schedule_race}

abbrev recruiter : ℕ
recruiter = 9

abbrev application : ApplicationLookupResult
application = record { id = 4; user_id = 7; job_id = 3; status = "INTERVIEW" }

abbrev job : JobLookupResult
job = record { id = 3; title = "Backend Engineer"; posted_by_id = recruiter }

abbrev ports : Ports
ports = record {
  find_application = λ k. some application;
  find_job = λ k. some job;
  find_user = λ k. some (record { id = k; email = "an@example.com"; full_name = "An" });
}

abbrev input : ScheduleInterviewInput
input = record {
  job_application_id = 4;
  scheduled_at = 2000;
  location = some "Room 1";
  meeting_link = none;
  note = none;
  duration_minutes = some 45;
}

abbrev start : World Memory
start = record { store = empty; mails = [] }

handlers : Unit {0}
unfolding schedule_interview check_schedule insert_schedule reschedule_interview cancel_interview
    complete_interview mark_interview_no_show new reschedule cancel complete mark_no_show is_active
    is_final_status run serve_all
handlers = tt

abbrev first_world : World Memory
first_world = (schedule_interview memory ports 1000 recruiter 1 input start).1

abbrev first : InterviewSchedule
first = record {
  id = 1;
  job_application_id = 4;
  scheduled_at = 2000;
  duration_minutes = some 45;
  location = some "Room 1";
  meeting_link = none;
  note = none;
  status = scheduled;
  created_by_id = some recruiter;
}

schedule_once :
    schedule_interview memory ports 1000 recruiter 1 input start ≡ (ok first, first_world)
unfolding handlers
schedule_once = refl

schedule_twice :
    (execute memory ports (schedule 1000 recruiter 2 input) first_world).0
    ≡ err interview_already_scheduled
unfolding handlers
schedule_twice = refl

abbrev unchanged : Changes
unchanged = record { location = none; meeting_link = none; note = none; duration_minutes = none }

abbrev moved : InterviewSchedule
moved = record first { scheduled_at = 3000; status = rescheduled }

run-IsSound_example :
    IsSound memory
      (run memory ports
        (schedule 1000 recruiter 1 input
          ∷ schedule 1000 recruiter 2 input
          ∷ miss_it recruiter 1
          ∷ cancel_it recruiter 1
          ∷ [])
        start).store
run-IsSound_example =
    run-IsSound memory-IsRepository ports
      (schedule 1000 recruiter 1 input
        ∷ schedule 1000 recruiter 2 input
        ∷ miss_it recruiter 1
        ∷ cancel_it recruiter 1
        ∷ [])
      start (record { one_active = λ j. ground arith; placed = λ k i found. cc })

abbrev second_world : World Memory
second_world = (insert_schedule memory ports recruiter 2 input (application, job) first_world).1

schedule_race_example : members memory is_active 4 second_world.store ≡ 2
unfolding handlers
schedule_race_example =
    schedule_race memory-IsRepository ports 1000 recruiter recruiter 1 2 input input
      (application, job) (application, job) start first_world second_world first
      (record first { id = 2 }) refl refl refl refl refl
