-- ===== src/Application/Handlers/Moving.antt =====
-- What a request to move an application, or to withdraw it, establishes.
use recruitment_platform_be.Prelude.{
  ℕ, Option, none, some, ◌∷◌, [], ◌++◌, ◌≡◌, inl, inr, arith, Option-cases, ap, sym,
}
use mathlib.Core.Path.{subst}
use Prim.Native.String.{String}
use recruitment_platform_be.Prelude.Action.{ok, err}
use recruitment_platform_be.Application.Status.{ApplicationStatus, withdrawn}
use recruitment_platform_be.Application.Status.Pipeline.{◌↝◌}
use recruitment_platform_be.Application.Exceptions.{ApplicationException}
use recruitment_platform_be.Application.Entity.{JobApplication}
use recruitment_platform_be.Application.Entity.Lifecycle.{
  Request, transition, withdrawal, serve, serve-↝,
}
use recruitment_platform_be.Application.Repository.{
  ApplicationRepository, IsRepository, Updated, StatusChange, update-eq-ok,
}
use recruitment_platform_be.Application.Handlers.{
  JobLookupResult, World, application_status_changed, update_application_status,
  withdraw_application,
}

-- The history entry of a change.
abbrev pub change :
    (changed_by : ℕ) (note : Option String) (before after : JobApplication) → StatusChange
change changed_by note before after = record {
  application_id = after.id;
  from_status = some before.status;
  to_status = after.status;
  changed_by_id = some changed_by;
  note = note;
}

module _ {S : Type 0} {repository : ApplicationRepository S} (laws : IsRepository repository) where
  -- One move: the entry that the history gains, and the row before and after.
  pub record IsMoved (k : ℕ) (user_id : ℕ) (note : Option String) (before after : JobApplication)
      (s s' : S) : Type 0 where
    pub found : repository.find_by_id k s ≡ some before
    pub along : before.status ↝ after.status
    pub only_status : after ≡ record before { status = after.status }
    pub written : Updated repository after (change user_id note before after) s (ok after, s')

  -- The facts about one write, from the handler's own steps.
  IsMoved-of_write :
      (r : Request) (k user_id : ℕ) (note : Option String) (before moved after : JobApplication)
      (s s' : S)
      → repository.find_by_id k s ≡ some before
      → serve r before ≡ ok moved
      → repository.update_with_status_history moved (change user_id note before moved) s
        ≡ (ok after, s')
      → (after ≡ moved) × IsMoved k user_id note before after s s'
  IsMoved-of_write r k user_id note before moved after s s' found served put =
      let written = update-eq-ok repository laws moved after _ s s' put in
      let (along, only) = serve-↝ r before moved served in
      (
        written.0,
        subst (λ (a : JobApplication). IsMoved k user_id note before a s s') (sym written.0)
            (record {
              found = found;
              along = along;
              only_status = only;
              written =
                  subst
                    (λ (a : JobApplication).
                      Updated repository moved (change user_id note before moved) s (ok a, s'))
                    written.0 written;
            }),
      )

  -- A request to move an application that is refused leaves the database and the events alone.
  pub update_application_status_refused :
      (find_job : ℕ → Option JobLookupResult) (recruiter_id application_id : ℕ)
      (status : ApplicationStatus) (note : Option String) (w : World S) {e : ApplicationException}
      → (update_application_status repository find_job recruiter_id application_id status note w).0
        ≡ err e
      → (update_application_status repository find_job recruiter_id application_id status note w).1
        ≡ w
  unfolding update_application_status
  update_application_status_refused find_job recruiter_id application_id status note w h =
      elim (Option-cases (repository.find_by_id application_id w.store)) [
        | inl missing ↦ ground arith
        | inr (a, found) ↦ ground (
          arith,
          laws.update_outcome (record a { status = status })
              (record {
                application_id = a.id;
                from_status = some a.status;
                to_status = status;
                changed_by_id = some recruiter_id;
                note = note;
              })
              w.store,
        )
      ]

  pub withdraw_application_refused :
      (user_id application_id : ℕ) (w : World S) {e : ApplicationException}
      → (withdraw_application repository user_id application_id w).0 ≡ err e
      → (withdraw_application repository user_id application_id w).1 ≡ w
  unfolding withdraw_application
  withdraw_application_refused user_id application_id w h =
      elim (Option-cases (repository.find_by_id application_id w.store)) [
        | inl missing ↦ ground arith
        | inr (a, found) ↦ ground (
          arith,
          laws.update_outcome (record a { status = withdrawn })
              (record {
                application_id = a.id;
                from_status = some a.status;
                to_status = withdrawn;
                changed_by_id = some user_id;
                note = none;
              })
              w.store,
        )
      ]

  -- A move that is accepted was asked for by the owner of the job, follows the pipeline, changes
  -- nothing of the application but its status, is written with its history entry, and is announced.
  pub update_application_status_accepted :
      (find_job : ℕ → Option JobLookupResult) (recruiter_id application_id : ℕ)
      (status : ApplicationStatus) (note : Option String) (w w' : World S)
      (before after : JobApplication) (job : JobLookupResult)
      → repository.find_by_id application_id w.store ≡ some before
      → find_job before.job_id ≡ some job
      → update_application_status repository find_job recruiter_id application_id status note w
        ≡ (ok after, w')
      → (job.posted_by_id ≡ recruiter_id)
        × (after.status ≡ status)
        × IsMoved application_id recruiter_id note before after w.store w'.store
        × (w'.events
            ≡ w.events
              ++ application_status_changed after.id after.user_id job.id job.title after.status
                ∷ [])
  unfolding update_application_status
  update_application_status_accepted find_job recruiter_id application_id status note w w' before
        after job found hj h =
      let moved : JobApplication = record before { status = status } in
      let (same, is_moved) =
        IsMoved-of_write (transition status) application_id recruiter_id note before moved after
          w.store w'.store found (ground arith) (ground arith) in
      (ground arith, ap (λ (a : JobApplication). a.status) same, is_moved, ground arith)

  -- A withdrawal that is accepted was asked for by the candidate, ends an application that was open,
  -- and is written with its history entry; no event tells of it.
  pub withdraw_application_accepted :
      (user_id application_id : ℕ) (w w' : World S) (before after : JobApplication)
      → repository.find_by_id application_id w.store ≡ some before
      → withdraw_application repository user_id application_id w ≡ (ok after, w')
      → (before.user_id ≡ user_id)
        × (after.status ≡ withdrawn)
        × IsMoved application_id user_id none before after w.store w'.store
        × (w'.events ≡ w.events)
  unfolding withdraw_application
  withdraw_application_accepted user_id application_id w w' before after found h =
      let moved : JobApplication = record before { status = withdrawn } in
      let (same, is_moved) =
        IsMoved-of_write withdrawal application_id user_id none before moved after w.store w'.store
          found (ground arith) (ground arith) in
      (ground arith, ap (λ (a : JobApplication). a.status) same, is_moved, ground arith)
