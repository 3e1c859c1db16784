-- ===== src/Interview/Handlers/Refusals.antt =====
-- A request about interviews that is refused leaves the database and the mails as they were.
use recruitment_platform_be.Prelude.{ℕ, ◌≡◌, none, some, inl, inr, arith, Option-cases, or_else}
use recruitment_platform_be.Prelude.Action.{Result, ok, err, Result-cases}
use recruitment_platform_be.Interview.Exceptions.{InterviewException}
use recruitment_platform_be.Interview.Entity.{
  InterviewSchedule, new, reschedule, cancel, complete, mark_no_show,
}
use recruitment_platform_be.Interview.Entity.Lifecycle.{
  Call, reschedule_call, cancel_call, complete_call, no_show_call, serve,
}
use recruitment_platform_be.Interview.Repository.{InterviewScheduleRepository, IsRepository, Write}
use recruitment_platform_be.Interview.Handlers.{
  Ports, World, ScheduleInterviewInput, RescheduleInterviewInput, check_schedule, insert_schedule,
  schedule_interview, reschedule_interview, cancel_interview, complete_interview,
  mark_interview_no_show,
}

-- A request to the module.
pub data Command : Type 0 where
  schedule : (now recruiter_id fresh_id : ℕ) → ScheduleInterviewInput → Command
  move : (now recruiter_id interview_id : ℕ) → RescheduleInterviewInput → Command
  cancel_it complete_it miss_it : (recruiter_id interview_id : ℕ) → Command

module _ {S : Type 0} (repository : InterviewScheduleRepository S) (ports : Ports) where
  abbrev pub execute : Command → World S → Result InterviewException InterviewSchedule × World S
  execute (schedule n r f i) = schedule_interview repository ports n r f i
  execute (move n r k i) = reschedule_interview repository ports n r k i
  execute (cancel_it r k) = cancel_interview repository ports r k
  execute (complete_it r k) = complete_interview repository ports r k
  execute (miss_it r k) = mark_interview_no_show repository ports r k

-- A write that went through, or changed nothing.
abbrev IsAtomic : {S : Type 0} → Write S → S → Type 0
IsAtomic w s = elim w.0 [ ok i ↦ Unit | err e ↦ w.1 ≡ s ]

-- What a call of a method keeps of the interview.
pub serve_keeps :
    (c : Call) (i j : InterviewSchedule)
    → serve c i ≡ ok j
    → (j.id ≡ i.id) × (j.job_application_id ≡ i.job_application_id)
unfolding reschedule cancel complete mark_no_show
serve_keeps (reschedule_call n a c) i j h = (ground arith, ground arith)
serve_keeps cancel_call i j h = (ground arith, ground arith)
serve_keeps complete_call i j h = (ground arith, ground arith)
serve_keeps no_show_call i j h = (ground arith, ground arith)

module _ {S : Type 0} {repository : InterviewScheduleRepository S} (laws : IsRepository repository)
    (ports : Ports) where
  -- An update after a call of a method on the interview that was found: it goes through, or it
  -- changes nothing.
  update_or_unchanged :
      (c : Call) (k : ℕ) (i j : InterviewSchedule) (s : S)
      → repository.find_by_id k s ≡ some i
      → serve c i ≡ ok j
      → IsAtomic (repository.update j s) s
  update_or_unchanged c k i j s found served =
      let (same_id, same_application) = serve_keeps c i j served in
      let at_id : repository.find_by_id j.id s ≡ some i =
        ground (arith, laws.found_id k i s found, found, same_id) in
      ground (arith, laws.update_outcome i j s at_id same_application)

  schedule_refused :
      (n r f : ℕ) (i : ScheduleInterviewInput) (w : World S) (e : InterviewException)
      → (schedule_interview repository ports n r f i w).0 ≡ err e
      → (schedule_interview repository ports n r f i w).1 ≡ w
  unfolding schedule_interview check_schedule insert_schedule
  schedule_refused n r f i w e h =
      elim (Result-cases (
        new f i.job_application_id i.scheduled_at i.duration_minutes i.location i.meeting_link
          i.note none (some r))) [
            | inl (x, made) ↦ ground (arith, laws.save_outcome x w.store)
            | inr (x, failed) ↦ ground arith
          ]

  -- The four handlers that update an interview: what is found, and what the method answers.
  reschedule_refused :
      (n r k : ℕ) (i : RescheduleInterviewInput) (w : World S) (e : InterviewException)
      → (reschedule_interview repository ports n r k i w).0 ≡ err e
      → (reschedule_interview repository ports n r k i w).1 ≡ w
  unfolding reschedule_interview
  reschedule_refused n r k i w e h = elim (Option-cases (repository.find_by_id k w.store)) [
    | inl missing ↦ ground arith
    | inr (x, found) ↦
        let c = reschedule_call n (or_else i.scheduled_at x.scheduled_at) i.changes in
        elim (Result-cases (serve c x)) [
          | inl (y, done) ↦ ground (arith, update_or_unchanged c k x y w.store found done)
          | inr (y, failed) ↦ ground arith
        ]
  ]

  cancel_refused :
      (r k : ℕ) (w : World S) (e : InterviewException)
      → (cancel_interview repository ports r k w).0 ≡ err e
      → (cancel_interview repository ports r k w).1 ≡ w
  unfolding cancel_interview
  cancel_refused r k w e h = elim (Option-cases (repository.find_by_id k w.store)) [
    | inl missing ↦ ground arith
    | inr (x, found) ↦ elim (Result-cases (cancel x)) [
      | inl (y, done) ↦ ground (arith, update_or_unchanged cancel_call k x y w.store found done)
      | inr (y, failed) ↦ ground arith
    ]
  ]

  complete_refused :
      (r k : ℕ) (w : World S) (e : InterviewException)
      → (complete_interview repository ports r k w).0 ≡ err e
      → (complete_interview repository ports r k w).1 ≡ w
  unfolding complete_interview
  complete_refused r k w e h = elim (Option-cases (repository.find_by_id k w.store)) [
    | inl missing ↦ ground arith
    | inr (x, found) ↦ elim (Result-cases (complete x)) [
      | inl (y, done) ↦ ground (arith, update_or_unchanged complete_call k x y w.store found done)
      | inr (y, failed) ↦ ground arith
    ]
  ]

  no_show_refused :
      (r k : ℕ) (w : World S) (e : InterviewException)
      → (mark_interview_no_show repository ports r k w).0 ≡ err e
      → (mark_interview_no_show repository ports r k w).1 ≡ w
  unfolding mark_interview_no_show
  no_show_refused r k w e h = elim (Option-cases (repository.find_by_id k w.store)) [
    | inl missing ↦ ground arith
    | inr (x, found) ↦ elim (Result-cases (mark_no_show x)) [
      | inl (y, done) ↦ ground (arith, update_or_unchanged no_show_call k x y w.store found done)
      | inr (y, failed) ↦ ground arith
    ]
  ]

  -- A request about interviews that is refused, for whatever reason, leaves the database and the
  -- mails as they were.
  pub execute_refused :
      (c : Command) (w : World S) (e : InterviewException)
      → (execute repository ports c w).0 ≡ err e
      → (execute repository ports c w).1 ≡ w
  execute_refused (schedule n r f i) = schedule_refused n r f i
  execute_refused (move n r k i) = reschedule_refused n r k i
  execute_refused (cancel_it r k) = cancel_refused r k
  execute_refused (complete_it r k) = complete_refused r k
  execute_refused (miss_it r k) = no_show_refused r k
