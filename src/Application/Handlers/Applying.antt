-- ===== src/Application/Handlers/Applying.antt =====
-- What a request to apply for a job establishes, and what it leaves alone when it is refused.
use recruitment_platform_be.Prelude.{
  ℕ, true, false, Option, none, some, ◌∷◌, [], ◌++◌, ◌≡◌, ◌≢◌, arith,
}
use recruitment_platform_be.Prelude.Action.{ok, err}
use recruitment_platform_be.Application.Status.{applied}
use recruitment_platform_be.Application.Exceptions.{ApplicationException, already_applied}
use recruitment_platform_be.Application.Entity.{JobApplication, new}
use recruitment_platform_be.Application.Repository.{ApplicationRepository, IsRepository, save-eq-ok}
use recruitment_platform_be.Application.Handlers.{
  JobLookupResult, CvLookupResult, ApplyJobInput, World, job_applied, check_application,
  insert_application, apply_job,
}

module _ {S : Type 0} {repository : ApplicationRepository S} (laws : IsRepository repository) where
  insert_application_refused :
      (user_id fresh_id : ℕ) (input : ApplyJobInput) (job : JobLookupResult) (w : World S)
      {e : ApplicationException}
      → (insert_application repository user_id fresh_id input job w).0 ≡ err e
      → (insert_application repository user_id fresh_id input job w).1 ≡ w
  unfolding insert_application
  insert_application_refused user_id fresh_id input job w h = ground (
    arith,
    laws.save_outcome (new fresh_id none input.cover_letter user_id input.job_id (some input.cv_id))
        w.store,
  )

  -- A request to apply that is refused, for whatever reason, leaves the database and the events as
  -- they were.
  pub apply_job_refused :
      (find_job : ℕ → Option JobLookupResult) (find_cv : ℕ → Option CvLookupResult)
      (user_id fresh_id : ℕ) (input : ApplyJobInput) (w : World S) {e : ApplicationException}
      → (apply_job repository find_job find_cv user_id fresh_id input w).0 ≡ err e
      → (apply_job repository find_job find_cv user_id fresh_id input w).1 ≡ w
  unfolding apply_job check_application
  apply_job_refused find_job find_cv user_id fresh_id input w h = ground (
    arith,
    laws.save_outcome (new fresh_id none input.cover_letter user_id input.job_id (some input.cv_id))
        w.store,
  )

  -- What an accepted request to apply has found and done.
  pub record IsApplied (user_id : ℕ) (input : ApplyJobInput) (job : JobLookupResult)
      (cv : CvLookupResult) (a : JobApplication) (w w' : World S) : Type 0 where
    pub job_open : (job.is_open ≡ true) × (job.is_expired ≡ false) × (job.is_deleted ≡ false)
    pub cv_ready : (cv.is_published ≡ true) × (cv.is_deleted ≡ false) × (cv.user_id ≡ user_id)
    pub first_time : repository.find_by_user_id_and_job_id user_id input.job_id w.store ≡ none
    pub fields :
        (a.status ≡ applied)
        × (a.user_id ≡ user_id)
        × (a.job_id ≡ input.job_id)
        × (a.cv_id ≡ some input.cv_id)
        × (a.cover_letter ≡ input.cover_letter)
    pub is_new : repository.find_by_id a.id w.store ≡ none
    pub stored : repository.find_by_id a.id w'.store ≡ some a
    pub others :
        (k : ℕ) → k ≢ a.id → repository.find_by_id k w'.store ≡ repository.find_by_id k w.store
    pub announced :
        w'.events
        ≡ w.events
          ++ job_applied a.id user_id input.job_id input.cv_id job.posted_by_id job.title ∷ []

  -- A request to apply that is accepted met every condition on the job and on the CV, no application
  -- of the user for the job was there, and now the database holds that application, new and in the
  -- first stage, every other row is as it was, and one event tells the owner of the job.
  pub apply_job_accepted :
      (find_job : ℕ → Option JobLookupResult) (find_cv : ℕ → Option CvLookupResult)
      (user_id fresh_id : ℕ) (input : ApplyJobInput) (w w' : World S) (job : JobLookupResult)
      (cv : CvLookupResult) (a : JobApplication)
      → find_job input.job_id ≡ some job
      → find_cv input.cv_id ≡ some cv
      → apply_job repository find_job find_cv user_id fresh_id input w ≡ (ok a, w')
      → IsApplied user_id input job cv a w w'
  unfolding apply_job check_application new
  apply_job_accepted find_job find_cv user_id fresh_id input w w' job cv a hj hc h =
      let inserted =
        save-eq-ok repository laws
          (new fresh_id none input.cover_letter user_id input.job_id (some input.cv_id)) a w.store
          w'.store (ground arith) in
      record {
        job_open = ground arith;
        cv_ready = ground arith;
        first_time = ground arith;
        fields = ground (arith, inserted.0);
        is_new = inserted.1;
        stored = ground (arith, inserted.4 a.id);
        others = λ k ne. ground (arith, inserted.4 k, ne);
        announced = ground arith;
      }

  -- Two requests of one user for one job may both pass the check before either inserts. The one
  -- whose insert comes second, in whatever state the database is in by then, is answered
  -- `already_applied`, as if the check had seen the other, and it changes nothing.
  pub insert_application_race :
      (user_id fresh_id : ℕ) (input : ApplyJobInput) (job : JobLookupResult) (w : World S)
      (other : JobApplication)
      → repository.find_by_user_id_and_job_id user_id input.job_id w.store ≡ some other
      → insert_application repository user_id fresh_id input job w ≡ (err already_applied, w)
  unfolding insert_application
  insert_application_race user_id fresh_id input job w other h = ground (
    arith,
    laws.save_conflict
        (new fresh_id none input.cover_letter user_id input.job_id (some input.cv_id)) other
        w.store,
  )
