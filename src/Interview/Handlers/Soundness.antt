-- ===== src/Interview/Handlers/Soundness.antt =====
-- What holds of the interviews in the database after any requests, and where it can fail.
use recruitment_platform_be.Prelude.{
  ℕ, ◌≤◌, ◌<◌, ◌≡◌, true, false, none, some, any, inl, inr, arith, or_else, ==_iff,
  count_of_not_any, refl,
}
use recruitment_platform_be.Prelude.Action.{ok, Result-cases, pair_of_ok}
use recruitment_platform_be.Interview.Entity.{InterviewSchedule, new, reschedule, is_active}
use recruitment_platform_be.Interview.Entity.Lifecycle.{
  Call, reschedule_call, cancel_call, complete_call, no_show_call, serve, IsPlaced, serve_active,
  new-IsPlaced,
}
use recruitment_platform_be.Interview.Repository.{
  InterviewScheduleRepository, IsRepository, Inserted, members, save-eq-ok, update-eq-ok,
}
use recruitment_platform_be.Interview.Handlers.{
  Ports, World, is_final_status, ScheduleInterviewInput, RescheduleInterviewInput,
  ApplicationLookupResult, JobLookupResult, check_schedule, insert_schedule, schedule_interview,
  reschedule_interview, cancel_interview, complete_interview, mark_interview_no_show,
}
use recruitment_platform_be.Interview.Handlers.Refusals.{
  Command, schedule, move, cancel_it, complete_it, miss_it, execute, execute_refused,
}

pub new_application :
    (f : ℕ) (input : ScheduleInterviewInput) (r : ℕ) (i : InterviewSchedule)
    → new f input.job_application_id input.scheduled_at input.duration_minutes input.location
        input.meeting_link input.note none
        (some r)
      ≡ ok i
    → (i.job_application_id ≡ input.job_application_id) × (is_active i ≡ true)
unfolding new is_active
new_application f input r i h = (ground arith, ground arith)

pub is_active-id : (i : InterviewSchedule) (k : ℕ) → is_active (record i { id = k }) ≡ is_active i
unfolding is_active
is_active-id i k = refl

module _ {S : Type 0} (repository : InterviewScheduleRepository S) where
  -- No application has two active interviews, and every interview has a place.
  pub record IsSound (s : S) : Type 0 where
    pub one_active : (j : ℕ) → members repository is_active j s ≤ 1
    pub placed : (k : ℕ) (i : InterviewSchedule) → repository.find_by_id k s ≡ some i → IsPlaced i

module _ {S : Type 0} {repository : InterviewScheduleRepository S}
    (laws : IsRepository repository) where
  Inserted-IsSound :
      (i b : InterviewSchedule) (s s' : S)
      → Inserted repository i s (ok b, s')
      → any is_active (repository.find_by_application_id i.job_application_id s) ≡ false
      → IsPlaced i
      → IsSound repository s
      → IsSound repository s'
  Inserted-IsSound i b s s' ins idle placed h = record {
    one_active = λ j. ground (
      arith,
      ins.3 is_active j,
      h.one_active j,
      count_of_not_any is_active (repository.find_by_application_id i.job_application_id s) idle,
      ==_iff j i.job_application_id,
    );
    placed = λ k x found. ground (arith, ins.2 k, ins.0, h.placed k x, placed);
  }

  -- A call of a method on the interview that was found, and the update that went through.
  Updated-IsSound :
      (c : Call) (k : ℕ) (old i b : InterviewSchedule) (s s' : S)
      → repository.find_by_id k s ≡ some old
      → serve c old ≡ ok i
      → repository.update i s ≡ (ok b, s')
      → IsSound repository s
      → IsSound repository s'
  Updated-IsSound c k old i b s s' found served put h =
      let (was_active, still_placed, same_id, same_application) =
        serve_active c old i (h.placed k old found) served in
      let at_id : repository.find_by_id i.id s ≡ some old =
        ground (arith, laws.found_id k old s found, found, same_id) in
      let up = update-eq-ok repository laws old i b s s' at_id same_application put in
      record {
        one_active = λ j. ground (arith, up.2 is_active j, h.one_active j, was_active);
        placed = λ k' x found'. ground (arith, up.1 k', h.placed k' x, still_placed);
      }

  module _ (ports : Ports) where
    -- What a handler has done when it returns: the interview that it found, the method that it
    -- called and the update.
    abbrev Update : Call → ℕ → InterviewSchedule → S → S → Type 0
    Update c k b s s' =
        (old : InterviewSchedule) × (i : InterviewSchedule) × (repository.find_by_id k s ≡ some old)
        × (serve c old ≡ ok i)
        × (repository.update i s ≡ (ok b, s'))

    cancel_updates :
        (r k : ℕ) (w w' : World S) (b : InterviewSchedule)
        → cancel_interview repository ports r k w ≡ (ok b, w')
        → Update cancel_call k b w.store w'.store
    unfolding cancel_interview
    cancel_updates r k w w' b h = ground arith

    complete_updates :
        (r k : ℕ) (w w' : World S) (b : InterviewSchedule)
        → complete_interview repository ports r k w ≡ (ok b, w')
        → Update complete_call k b w.store w'.store
    unfolding complete_interview
    complete_updates r k w w' b h = ground arith

    no_show_updates :
        (r k : ℕ) (w w' : World S) (b : InterviewSchedule)
        → mark_interview_no_show repository ports r k w ≡ (ok b, w')
        → Update no_show_call k b w.store w'.store
    unfolding mark_interview_no_show
    no_show_updates r k w w' b h = ground arith

    reschedule_finds :
        (n r k : ℕ) (input : RescheduleInterviewInput) (w w' : World S) (b : InterviewSchedule)
        → reschedule_interview repository ports n r k input w ≡ (ok b, w')
        → (old : InterviewSchedule) × (i : InterviewSchedule) × (repository.find_by_id k w.store
            ≡ some old)
          × (reschedule n old (or_else input.scheduled_at old.scheduled_at) input.changes ≡ ok i)
          × (repository.update i w.store ≡ (ok b, w'.store))
    unfolding reschedule_interview
    reschedule_finds n r k input w w' b h = ground arith

    -- A request to schedule that is accepted is about an application that is not final, and its
    -- requester posted the job; the time is in the future, the application had no active
    -- interview, and what is written is the new interview with its place.
    pub schedule_accepted :
        (n r f : ℕ) (input : ScheduleInterviewInput) (w w' : World S) (b : InterviewSchedule)
        → schedule_interview repository ports n r f input w ≡ (ok b, w')
        → (i : InterviewSchedule) × (application : ApplicationLookupResult)
          × (job : JobLookupResult) × (new f input.job_application_id input.scheduled_at
                input.duration_minutes input.location input.meeting_link input.note none
                (some r)
              ≡ ok i)
          × (any is_active (repository.find_by_application_id input.job_application_id w.store)
              ≡ false)
          × (n < input.scheduled_at)
          × (ports.find_application input.job_application_id ≡ some application)
          × (is_final_status application.status ≡ false)
          × (ports.find_job application.job_id ≡ some job)
          × (job.posted_by_id ≡ r)
          × (repository.save i w.store ≡ (ok b, w'.store))
    unfolding schedule_interview check_schedule insert_schedule
    schedule_accepted n r f input w w' b h = ground arith

    execute_accepted :
        (c : Command) (w w' : World S) (b : InterviewSchedule)
        → execute repository ports c w ≡ (ok b, w')
        → IsSound repository w.store
        → IsSound repository w'.store
    execute_accepted (schedule n r f input) w w' b h sound =
        let (i, application', job, made, idle, future, found, open', found', owned, put) =
          schedule_accepted n r f input w w' b h in
        let (application, active) = new_application f input r i made in
        Inserted-IsSound i b w.store w'.store (save-eq-ok repository laws i b w.store w'.store put)
          (rw application idle)
          (new-IsPlaced f input.job_application_id input.scheduled_at input.duration_minutes
            input.location input.meeting_link input.note none (some r) i made)
          sound
    execute_accepted (move n r k input) w w' b h sound =
        let (old, i, found, served, put) = reschedule_finds n r k input w w' b h in
        Updated-IsSound
          (reschedule_call n (or_else input.scheduled_at old.scheduled_at) input.changes) k old i b
          w.store w'.store found served put sound
    execute_accepted (cancel_it r k) w w' b h sound =
        let (old, i, found, served, put) = cancel_updates r k w w' b h in
        Updated-IsSound cancel_call k old i b w.store w'.store found served put sound
    execute_accepted (complete_it r k) w w' b h sound =
        let (old, i, found, served, put) = complete_updates r k w w' b h in
        Updated-IsSound complete_call k old i b w.store w'.store found served put sound
    execute_accepted (miss_it r k) w w' b h sound =
        let (old, i, found, served, put) = no_show_updates r k w w' b h in
        Updated-IsSound no_show_call k old i b w.store w'.store found served put sound

    pub execute-IsSound :
        (c : Command) (w : World S)
        → IsSound repository w.store
        → IsSound repository (execute repository ports c w).1.store
    execute-IsSound c w sound = elim (Result-cases (execute repository ports c w).0) [
      | inl (b, e) ↦ execute_accepted c w (execute repository ports c w).1 b (pair_of_ok _ e) sound
      | inr (x, e) ↦ rw (execute_refused laws ports c w x e) sound
    ]
