-- ===== src/Job/Handlers/Steps.antt =====
-- What each command does to the rows, whether it succeeds or fails.
use recruitment_platform_be.Prelude.{
  unique, ℕ, ◌≡◌, ◌⊎◌, false, Option, none, some, or_else, List, [], ◌==◌, if◌then◌else◌, inl, inr,
  arith, Bool-cases, Option-cases, ==_iff,
}
use recruitment_platform_be.Prelude.Action.{Result, ok, err, Result-cases, lift, ◌>>=◌}
use recruitment_platform_be.Job.Exceptions.{JobException, job_not_found, job_ownership}
use recruitment_platform_be.Job.Entity.{
  Job, is_deleted, close, reopen, soft_delete, update_details, ensure_owner,
}
use recruitment_platform_be.Job.Repository.{JobRepository, find_by_id}
use recruitment_platform_be.Job.Handlers.{
  Ports, CreateJobInput, UpdateJobInput, close_job, reopen_job, delete_job, update_job, create_job,
  new_job, find_owned, write, missing_category, missing_skills, is_nil, replaced_skills,
}

module _ {S : Type 0} (repository : JobRepository S) where
  open repository use {find_row}

  -- The command failed, or it wrote what the method made of a job of the requester.
  abbrev pub Asked : (r k : ℕ) → (Job → Result JobException Job) → S → S → Type 0
  Asked r k method s s' =
      (s' ≡ s)
      ⊎ ((old : Job) × (m : Job) × (skills : Option (List ℕ)) × (find_row k s ≡ some old)
          × (is_deleted old ≡ false)
          × (old.posted_by_id ≡ r)
          × (method old ≡ ok m)
          × (s' ≡ (repository.update m skills s).1))

  -- The job is found and the requester's, or the command ends here.
  find_owned_cases :
      (r k : ℕ) (s : S)
      → ((old : Job) × (find_row k s ≡ some old)
          × (is_deleted old ≡ false)
          × (old.posted_by_id ≡ r)
          × (find_owned repository r k s ≡ (ok old, s)))
        ⊎ ((e : JobException) × (find_owned repository r k s ≡ (err e, s)))
  unfolding find_by_id ensure_owner
  find_owned_cases r k s = elim (Option-cases (find_row k s)) [
    | inl missing ↦ inr (job_not_found, ground arith)
    | inr (old, found) ↦ elim (Bool-cases (is_deleted old)) [
      | inl deleted ↦ inr (job_not_found, ground arith)
      | inr there ↦ elim (Bool-cases (old.posted_by_id == r)) [
        | inl own ↦ inl (old, found, there, ground (arith, ==_iff old.posted_by_id r), ground arith)
        | inr other ↦ inr (job_ownership, ground arith)
      ]
    ]
  ]

  -- The commands that call one method of a job.
  method_asks :
      (r k : ℕ) (method : Job → Result JobException Job) (s : S)
      → Asked r k method s
          ((find_owned repository r k >>= λ job.
              lift (method job) >>= λ m. write repository (repository.update m none))
            s).1
  method_asks r k method s = elim (find_owned_cases r k s) [
    | inl (old, found, there, own, step) ↦ elim (Result-cases (method old)) [
      | inl (m, served) ↦ inr (old, m, none, found, there, own, served, ground arith)
      | inr (x, failed) ↦ inl (ground arith)
    ]
    | inr (e, step) ↦ inl (ground arith)
  ]

  pub close_asks : (r k : ℕ) (s : S) → Asked r k close s (close_job repository r k s).1
  unfolding close_job
  close_asks r k s = method_asks r k close s

  pub reopen_asks : (r k : ℕ) (s : S) → Asked r k reopen s (reopen_job repository r k s).1
  unfolding reopen_job
  reopen_asks r k s = method_asks r k reopen s

  pub delete_asks :
      (r k now : ℕ) (s : S) → Asked r k (soft_delete now) s (delete_job repository r k now s).1
  unfolding delete_job
  delete_asks r k now s = method_asks r k (soft_delete now) s

  pub update_asks :
      (ports : Ports) (r k : ℕ) (input : UpdateJobInput) (s : S)
      → Asked r k (update_details input.details) s (update_job repository ports r k input s).1
  unfolding update_job
  update_asks ports r k input s = elim (find_owned_cases r k s) [
    | inl (old, found, there, own, step) ↦ elim (Result-cases (update_details input.details old)) [
      | inl (m, served) ↦
          elim (Bool-cases
            (missing_category ports.category_exists (or_else input.details.category_id none))) [
              | inl missing ↦ inl (ground arith)
              | inr known ↦
                  elim (Bool-cases (is_nil (missing_skills ports.skill_exists input.skill_ids))) [
                    | inl all' ↦ inr (
                      old,
                      m,
                      replaced_skills input.skill_ids,
                      found,
                      there,
                      own,
                      served,
                      ground arith,
                    )
                    | inr missing ↦ inl (ground arith)
                  ]
            ]
      | inr (x, failed) ↦ inl (ground arith)
    ]
    | inr (e, step) ↦ inl (ground arith)
  ]

  -- The command failed, or it saved a new job of the requester.
  pub create_adds :
      (ports : Ports) (r f : ℕ) (input : CreateJobInput) (s : S)
      → ((create_job repository ports r f input s).1 ≡ s)
        ⊎ ((company : ℕ) × (m : Job) × (skills : Option (List ℕ)) × (new_job r company f input
              ≡ ok m)
            × ((create_job repository ports r f input s).1 ≡ (repository.save m skills s).1))
  unfolding create_job
  create_adds ports r f input s = elim (Option-cases (ports.get_recruiter_company_id r)) [
    | inl missing ↦ inl (ground arith)
    | inr (company, has) ↦ elim (Result-cases (new_job r company f input)) [
      | inl (m, made) ↦
          let skills = unique (or_else input.skill_ids []) in
          elim (Bool-cases (missing_category ports.category_exists input.category_id)) [
            | inl missing ↦ inl (ground arith)
            | inr known ↦
                elim (Bool-cases (is_nil (missing_skills ports.skill_exists input.skill_ids))) [
                  | inl all' ↦
                      inr (
                        company,
                        m,
                        if is_nil skills then none else some skills,
                        made,
                        ground arith,
                      )
                  | inr missing ↦ inl (ground arith)
                ]
          ]
      | inr (x, failed) ↦ inl (ground arith)
    ]
  ]
