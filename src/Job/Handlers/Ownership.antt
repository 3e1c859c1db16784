-- ===== src/Job/Handlers/Ownership.antt =====
-- Who changes a job, and until when.
use mathlib.Core.Path.{subst}
use recruitment_platform_be.Prelude.{
  ℕ, ◌≡◌, ◌⊎◌, true, false, Option, none, some, List, ◌==◌, inl, inr, arith, refl, ap, sym,
  Bool-cases, ==_iff,
}
use recruitment_platform_be.Prelude.Action.{Result, ok, Result-cases, pair_of_ok}
use recruitment_platform_be.Job.Exceptions.{JobException}
use recruitment_platform_be.Job.Entity.{
  Job, Details, is_deleted, close, reopen, soft_delete, update_details,
}
use recruitment_platform_be.Job.Repository.{
  JobRepository, IsRepository, Updated, Inserted, is_expired_open,
}
use recruitment_platform_be.Job.Handlers.{
  Ports, CreateJobInput, UpdateJobInput, close_job, reopen_job, delete_job, update_job, create_job,
  close_expired_jobs,
}
use recruitment_platform_be.Job.Handlers.Expiry.{closed_job, close_expired_jobs_any}
use recruitment_platform_be.Job.Handlers.Steps.{
  Asked, close_asks, reopen_asks, delete_asks, update_asks, create_adds,
}

-- A command of the module.
pub data Command : Type 0 where
  create_it : (recruiter_id fresh_id : ℕ) → CreateJobInput → Command
  close_it reopen_it : (recruiter_id job_id : ℕ) → Command
  delete_it : (recruiter_id job_id now : ℕ) → Command
  update_it : (recruiter_id job_id : ℕ) → UpdateJobInput → Command
  expire : (now : ℕ) → Command

-- The recruiter who asks to change a job.
abbrev pub changer : Command → Option ℕ
changer (create_it r f i) = none
changer (close_it r k) = some r
changer (reopen_it r k) = some r
changer (delete_it r k now) = some r
changer (update_it r k i) = some r
changer (expire now) = none

-- The job that is to be changed.
abbrev pub changed : Command → Option ℕ
changed (create_it r f i) = none
changed (close_it r k) = some k
changed (reopen_it r k) = some k
changed (delete_it r k now) = some k
changed (update_it r k i) = some k
changed (expire now) = none

-- The database after a command, whether it succeeds or fails.
module _ {S : Type 0} (repository : JobRepository S) (ports : Ports) where
  abbrev pub execute : Command → S → S
  execute (create_it r f i) s = (create_job repository ports r f i s).1
  execute (close_it r k) s = (close_job repository r k s).1
  execute (reopen_it r k) s = (reopen_job repository r k s).1
  execute (delete_it r k now) s = (delete_job repository r k now s).1
  execute (update_it r k i) s = (update_job repository ports r k i s).1
  execute (expire now) s = (close_expired_jobs repository now s).1

-- The same job of the same owner.
abbrev pub Stays : Job → Job → Type 0
Stays j m = (m.id ≡ j.id) × (m.posted_by_id ≡ j.posted_by_id)

pub close-Stays : (j m : Job) → close j ≡ ok m → Stays j m
unfolding close
close-Stays j m h = (ground arith, ground arith)

pub reopen-Stays : (j m : Job) → reopen j ≡ ok m → Stays j m
unfolding reopen
reopen-Stays j m h = (ground arith, ground arith)

pub soft_delete-Stays : (now : ℕ) (j m : Job) → soft_delete now j ≡ ok m → Stays j m
unfolding soft_delete
soft_delete-Stays now j m h = (ground arith, ground arith)

pub update_details-Stays : (d : Details) (j m : Job) → update_details d j ≡ ok m → Stays j m
unfolding update_details
update_details-Stays d j m h = (ground arith, ground arith)

module _ {S : Type 0} {repository : JobRepository S} (laws : IsRepository repository)
    (ports : Ports) where
  open repository use {find_row}

  -- A row after a command of the recruiter `r` on the job `k`.
  pub Asked-row :
      (r k : ℕ) (method : Job → Result JobException Job) (s s' : S)
      → ((j m : Job) → method j ≡ ok m → Stays j m)
      → Asked repository r k method s s'
      → (n : ℕ) (j : Job) → find_row n s ≡ some j
      → (find_row n s' ≡ some j)
        ⊎ ((is_deleted j ≡ false)
            × (j.posted_by_id ≡ r)
            × (n ≡ k)
            × (m : Job) × (method j ≡ ok m)
            × (find_row n s' ≡ some (record m { view_count = j.view_count })))
  Asked-row r k method s s' stays (inl same) n j found = inl (rw same found)
  Asked-row r k method s s' stays (inr (old, m, skills, there, open', own, served, after)) n j
        found =
      let (same_id, same_owner) = stays old m served in
      let at_id : find_row m.id s ≡ some old =
        ground (arith, laws.found_id k old s there, same_id, there) in
      elim (Result-cases (repository.update m skills s).0) [
        | inl (b, e) ↦
            let up =
              subst (Updated repository old m s) (pair_of_ok _ e)
                (laws.update_outcome old m skills s at_id) in
            elim (Bool-cases (n == m.id)) [
              | inl here ↦
                  let one : j ≡ old = ground (arith, ==_iff n m.id, found, at_id) in
                  inr (
                    ground (arith, one, open'),
                    ground (arith, one, own),
                    ground (arith, ==_iff n m.id, same_id, laws.found_id k old s there),
                    m,
                    rw (sym one) at served,
                    ground (arith, after, up.1 n, up.0, one),
                  )
              | inr apart ↦ inl (ground (arith, after, up.1 n, found))
            ]
        | inr (x, e) ↦ inl (ground (arith, after, laws.update_outcome old m skills s at_id, found))
      ]

  saved_rows :
      (m : Job) (skills : Option (List ℕ)) (s : S) (n : ℕ) (j : Job)
      → find_row n s ≡ some j
      → find_row n (repository.save m skills s).1 ≡ some j
  saved_rows m skills s n j found = elim (Result-cases (repository.save m skills s).0) [
    | inl (b, e) ↦
        let ins = subst (Inserted repository m s) (pair_of_ok _ e) (laws.save_outcome m skills s) in
        ground (arith, ins.2 n, ins.1, ==_iff n b.id)
    | inr (x, e) ↦ ground (arith, laws.save_outcome m skills s)
  ]

  -- The same, as the answer for a command of the recruiter `r`.
  Asked-rows :
      {X : Job → Type 0} (r k : ℕ) (method : Job → Result JobException Job) (s s' : S)
      → ((j m : Job) → method j ≡ ok m → Stays j m)
      → Asked repository r k method s s'
      → (n : ℕ) (j : Job) → find_row n s ≡ some j
      → (m : Job) × (find_row n s' ≡ some m)
        × (m.posted_by_id ≡ j.posted_by_id)
        × ((m ≡ j)
            ⊎ ((some r ≡ some j.posted_by_id) × (some k ≡ some n) × (is_deleted j ≡ false))
            ⊎ X m)
  Asked-rows r k method s s' stays asked n j found =
      elim (Asked-row r k method s s' stays asked n j found) [
        | inl same ↦ (j, same, refl, inl refl)
        | inr (open', own, named, m, served, after) ↦ (
          record m { view_count = j.view_count },
          after,
          (stays j m served).1,
          inr (inl (ap some (sym own), ap some (sym named), open')),
        )
      ]

  -- After a command, successful or not, a job is still there under its owner. It is as it was, or it
  -- was not deleted and the command is its owner's and names this job, or it was open, past its end and not deleted
  -- at the time of the expiry command, which closed it.
  pub execute_owned :
      (c : Command) (s : S) (n : ℕ) (j : Job)
      → find_row n s ≡ some j
      → (m : Job) × (find_row n (execute repository ports c s) ≡ some m)
        × (m.posted_by_id ≡ j.posted_by_id)
        × ((m ≡ j)
            ⊎ ((changer c ≡ some j.posted_by_id) × (changed c ≡ some n) × (is_deleted j ≡ false))
            ⊎ ((now : ℕ) × (c ≡ expire now) × (is_expired_open now j ≡ true) × (m ≡ closed_job j)))
  execute_owned (create_it r f i) s n j found = elim (create_adds repository ports r f i s) [
    | inl same ↦ (j, rw same found, refl, inl refl)
    | inr (company, m, skills, made, after) ↦
        (j, ground (arith, after, saved_rows m skills s n j found), refl, inl refl)
  ]
  execute_owned (close_it r k) s n j found =
      Asked-rows r k close s _ close-Stays (close_asks repository r k s) n j found
  execute_owned (reopen_it r k) s n j found =
      Asked-rows r k reopen s _ reopen-Stays (reopen_asks repository r k s) n j found
  execute_owned (delete_it r k now) s n j found =
      Asked-rows r k (soft_delete now) s _ (soft_delete-Stays now)
        (delete_asks repository r k now s) n j found
  execute_owned (update_it r k i) s n j found =
      Asked-rows r k (update_details i.details) s _ (update_details-Stays i.details)
        (update_asks repository ports r k i s) n j found
  execute_owned (expire now) s n j found = elim (close_expired_jobs_any laws now s n j found) [
    | inl same ↦ (j, same, refl, inl refl)
    | inr (due, after) ↦ (closed_job j, after, refl, inr (inr (now, refl, due, refl)))
  ]
