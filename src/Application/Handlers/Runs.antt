-- ===== src/Application/Handlers/Runs.antt =====
-- Sequences of requests to the module of applications, and what holds after each of them.
use Prim.Native.String.{String}
use recruitment_platform_be.Prelude.{
  ℕ, Option, none, some, List, ◌∷◌, [], ◌≡◌, inl, inr, arith, refl,
}
use recruitment_platform_be.Prelude.Action.{Result, ok, err, Result-cases, pair_of_ok}
use recruitment_platform_be.Application.Status.{ApplicationStatus, applied}
use recruitment_platform_be.Application.Exceptions.{ApplicationException}
use recruitment_platform_be.Application.Entity.{JobApplication, new}
use recruitment_platform_be.Application.Repository.{ApplicationRepository, IsRepository, save-eq-ok}
use recruitment_platform_be.Application.Handlers.{
  JobLookupResult, CvLookupResult, ApplyJobInput, World, check_application, apply_job,
  update_application_status, withdraw_application,
}
use recruitment_platform_be.Application.Handlers.Applying.{apply_job_refused}
use recruitment_platform_be.Application.Handlers.Moving.{
  update_application_status_refused, update_application_status_accepted,
  withdraw_application_refused, withdraw_application_accepted,
}
use recruitment_platform_be.Application.Handlers.Audit.{
  IsAudited, Inserted-IsAudited, IsMoved-IsAudited,
}

pub data Command : Type 0 where
  apply : (user_id fresh_id : ℕ) → ApplyJobInput → Command
  update : (recruiter_id application_id : ℕ) → ApplicationStatus → Option String → Command
  leave : (user_id application_id : ℕ) → Command

module _ {S : Type 0} (repository : ApplicationRepository S) (find_job : ℕ → Option JobLookupResult)
    (find_cv : ℕ → Option CvLookupResult) where
  abbrev pub execute : Command → World S → Result ApplicationException JobApplication × World S
  execute (apply u f i) = apply_job repository find_job find_cv u f i
  execute (update r a s n) = update_application_status repository find_job r a s n
  execute (leave u a) = withdraw_application repository u a

  unfoldable pub run : List Command → World S → World S
  run [] w = w
  run (c ∷ cs) w = run cs (execute c w).1

new_applied :
    (f u j : ℕ) (letter : Option String) (cv : Option ℕ)
    → (new f none letter u j cv).status ≡ applied
unfolding new
new_applied f u j letter cv = refl

module _ {S : Type 0} {repository : ApplicationRepository S} (laws : IsRepository repository)
    (find_job : ℕ → Option JobLookupResult) (find_cv : ℕ → Option CvLookupResult) where
  execute_refused :
      (c : Command) (w : World S) (e : ApplicationException)
      → (execute repository find_job find_cv c w).0 ≡ err e
      → (execute repository find_job find_cv c w).1 ≡ w
  execute_refused (apply u f i) w e = apply_job_refused laws find_job find_cv u f i w
  execute_refused (update r a s n) w e = update_application_status_refused laws find_job r a s n w
  execute_refused (leave u a) w e = withdraw_application_refused laws u a w

  apply_job_inserts :
      (u f : ℕ) (i : ApplyJobInput) (w w' : World S) (a : JobApplication)
      → apply_job repository find_job find_cv u f i w ≡ (ok a, w')
      → repository.save (new f none i.cover_letter u i.job_id (some i.cv_id)) w.store
        ≡ (ok a, w'.store)
  unfolding apply_job check_application
  apply_job_inserts u f i w w' a h = ground arith

  update_finds :
      (r k : ℕ) (s : ApplicationStatus) (n : Option String) (w w' : World S) (a : JobApplication)
      → update_application_status repository find_job r k s n w ≡ (ok a, w')
      → (b : JobApplication) × (job : JobLookupResult) × (repository.find_by_id k w.store ≡ some b)
        × (find_job b.job_id ≡ some job)
  unfolding update_application_status
  update_finds r k s n w w' a h = ground arith

  withdraw_finds :
      (u k : ℕ) (w w' : World S) (a : JobApplication)
      → withdraw_application repository u k w ≡ (ok a, w')
      → (b : JobApplication) × (repository.find_by_id k w.store ≡ some b)
  unfolding withdraw_application
  withdraw_finds u k w w' a h = ground arith

  execute_accepted :
      (c : Command) (w w' : World S) (a : JobApplication)
      → execute repository find_job find_cv c w ≡ (ok a, w')
      → IsAudited repository w.store
      → IsAudited repository w'.store
  execute_accepted (apply u f i) w w' a h audited =
      let entity = new f none i.cover_letter u i.job_id (some i.cv_id) in
      Inserted-IsAudited laws entity a w.store w'.store
        (save-eq-ok repository laws entity a w.store w'.store (apply_job_inserts u f i w w' a h))
        (new_applied f u i.job_id i.cover_letter (some i.cv_id)) audited
  execute_accepted (update r k s n) w w' a h audited =
      let (b, job, found, hj) = update_finds r k s n w w' a h in
      IsMoved-IsAudited laws k r n b a w.store w'.store
        (update_application_status_accepted laws find_job r k s n w w' b a job found hj h).2 audited
  execute_accepted (leave u k) w w' a h audited =
      let (b, found) = withdraw_finds u k w w' a h in
      IsMoved-IsAudited laws k u none b a w.store w'.store
        (withdraw_application_accepted laws u k w w' b a found h).2 audited

  execute-IsAudited :
      (c : Command) (w : World S)
      → IsAudited repository w.store
      → IsAudited repository (execute repository find_job find_cv c w).1.store
  execute-IsAudited c w audited = elim (Result-cases (execute repository find_job find_cv c w).0) [
    | inl (a, e) ↦
        execute_accepted c w (execute repository find_job find_cv c w).1 a (pair_of_ok _ e) audited
    | inr (x, e) ↦ rw (execute_refused c w x e) audited
  ]

  -- Whatever requests are served one after the other, refused ones included, the history of every
  -- application leads along the pipeline from `applied` to the status that the application has, if
  -- it did so before.
  pub run-IsAudited :
      (cs : List Command) (w : World S)
      → IsAudited repository w.store
      → IsAudited repository (run repository find_job find_cv cs w).store
  unfolding run
  run-IsAudited [] w audited = audited
  run-IsAudited (c ∷ cs) w audited = run-IsAudited cs _ (execute-IsAudited c w audited)
