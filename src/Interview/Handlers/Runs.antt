-- ===== src/Interview/Handlers/Runs.antt =====
-- Requests one after the other, and two that overlap.
use recruitment_platform_be.Prelude.{
  ℕ, ◌+◌, ◌≡◌, true, false, some, none, List, [], ◌∷◌, any, arith, count_of_not_any, ap, ◌∙◌,
}
use recruitment_platform_be.Prelude.Action.{ok}
use recruitment_platform_be.Interview.Entity.{InterviewSchedule, new, is_active}
use recruitment_platform_be.Interview.Repository.{
  InterviewScheduleRepository, IsRepository, members, save-eq-ok,
}
use recruitment_platform_be.Interview.Handlers.{
  Ports, World, ScheduleInterviewInput, ApplicationLookupResult, JobLookupResult, check_schedule,
  insert_schedule,
}
use recruitment_platform_be.Interview.Handlers.Refusals.{Command, execute}
use recruitment_platform_be.Interview.Handlers.Soundness.{
  IsSound, execute-IsSound, new_application, is_active-id,
}

module _ {S : Type 0} (repository : InterviewScheduleRepository S) (ports : Ports) where
  unfoldable pub run : List Command → World S → World S
  run [] w = w
  run (c ∷ cs) w = run cs (execute repository ports c w).1

module _ {S : Type 0} {repository : InterviewScheduleRepository S} (laws : IsRepository repository)
    (ports : Ports) where
  -- Whatever requests are served one after the other, refused ones included, no application has two
  -- active interviews and every interview has a location or a link, if that was so before.
  pub run-IsSound :
      (cs : List Command) (w : World S)
      → IsSound repository w.store
      → IsSound repository (run repository ports cs w).store
  unfolding run
  run-IsSound [] w sound = sound
  run-IsSound (c ∷ cs) w sound = run-IsSound cs _ (execute-IsSound laws ports c w sound)

  insert_schedule_saves :
      (r f : ℕ) (input : ScheduleInterviewInput) (found : ApplicationLookupResult × JobLookupResult)
      (w w' : World S) (b : InterviewSchedule)
      → insert_schedule repository ports r f input found w ≡ (ok b, w')
      → (i : InterviewSchedule) × (new f input.job_application_id input.scheduled_at
            input.duration_minutes input.location input.meeting_link input.note none
            (some r)
          ≡ ok i)
        × (repository.save i w.store ≡ (ok b, w'.store))
  unfolding insert_schedule
  insert_schedule_saves r f input found w w' b h = ground arith

  -- One more active interview for the application, whatever the database holds by then.
  insert_schedule_adds :
      (r f : ℕ) (input : ScheduleInterviewInput) (found : ApplicationLookupResult × JobLookupResult)
      (w w' : World S) (b : InterviewSchedule)
      → insert_schedule repository ports r f input found w ≡ (ok b, w')
      → members repository is_active input.job_application_id w'.store
        ≡ 1 + members repository is_active input.job_application_id w.store
  insert_schedule_adds r f input found w w' b h =
      let (i, made, put) = insert_schedule_saves r f input found w w' b h in
      let (application, active) = new_application f input r i made in
      let ins = save-eq-ok repository laws i b w.store w'.store put in
      let still_active : is_active b ≡ true = ap is_active ins.0 ∙ is_active-id i b.id ∙ active in
      ground (arith, ins.3 is_active input.job_application_id, application, still_active)

  check_schedule_idle :
      (now r : ℕ) (input : ScheduleInterviewInput)
      (found : ApplicationLookupResult × JobLookupResult) (w w' : World S)
      → check_schedule repository ports now r input w ≡ (ok found, w')
      → any is_active (repository.find_by_application_id input.job_application_id w.store) ≡ false
  unfolding check_schedule
  check_schedule_idle now r input found w w' h = ground arith

  -- The check for an active interview does not guard the insert: when two requests for one
  -- application have both passed the check before either inserts, and both inserts go through, the
  -- application has two active interviews.
  pub schedule_race :
      (now r₁ r₂ f₁ f₂ : ℕ) (one two : ScheduleInterviewInput)
      (found₁ found₂ : ApplicationLookupResult × JobLookupResult) (w w₁ w₂ : World S)
      (b₁ b₂ : InterviewSchedule)
      → two.job_application_id ≡ one.job_application_id
      → check_schedule repository ports now r₁ one w ≡ (ok found₁, w)
      → check_schedule repository ports now r₂ two w ≡ (ok found₂, w)
      → insert_schedule repository ports r₁ f₁ one found₁ w ≡ (ok b₁, w₁)
      → insert_schedule repository ports r₂ f₂ two found₂ w₁ ≡ (ok b₂, w₂)
      → members repository is_active one.job_application_id w₂.store ≡ 2
  schedule_race now r₁ r₂ f₁ f₂ one two found₁ found₂ w w₁ w₂ b₁ b₂ same c₁ c₂ h₁ h₂ = ground (
    arith,
    count_of_not_any is_active (repository.find_by_application_id one.job_application_id w.store)
        (check_schedule_idle now r₁ one found₁ w w c₁),
    insert_schedule_adds r₁ f₁ one found₁ w w₁ b₁ h₁,
    insert_schedule_adds r₂ f₂ two found₂ w₁ w₂ b₂ h₂,
    same,
  )
