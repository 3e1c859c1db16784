-- ===== src/Job/Handlers/Validity.antt =====
-- What holds of every job in the database after any commands.
use mathlib.Core.Path.{subst}
use recruitment_platform_be.Prelude.{
  ℕ, ◌≡◌, true, false, not, some, List, [], ◌∷◌, ◌||◌, inl, inr, arith, Option-cases,
}
use recruitment_platform_be.Prelude.Action.{Result, ok, Result-cases, pair_of_ok}
use recruitment_platform_be.Job.Exceptions.{JobException}
use recruitment_platform_be.Job.Entity.{
  Job, Details, is_deleted, is_closed, exceeds, close, reopen, soft_delete, update_details,
}
use recruitment_platform_be.Job.Repository.{
  JobRepository, IsRepository, Updated, Inserted, is_expired_open,
}
use recruitment_platform_be.Job.Handlers.{Ports, CreateJobInput, create_job, new_job}
use recruitment_platform_be.Job.Handlers.Expiry.{
  closed_job, close_expired_jobs_any, close_expired_jobs-none,
}
use recruitment_platform_be.Job.Handlers.Steps.{
  Asked, close_asks, reopen_asks, delete_asks, update_asks, create_adds,
}
use recruitment_platform_be.Job.Handlers.Ownership.{
  Command, create_it, close_it, reopen_it, delete_it, update_it, expire, execute, execute_owned,
  close-Stays, reopen-Stays, soft_delete-Stays, update_details-Stays,
}

-- The salary range is in order, and a deleted job is closed.
abbrev pub IsValid : Job → Type 0
IsValid j =
    (exceeds j.salary.min j.salary.max ≡ false)
    × ((not (is_deleted j) || is_closed j.status) ≡ true)

-- The methods, on a job that is not deleted.
abbrev IsKeeping : (Job → Result JobException Job) → Type 0
IsKeeping method = (j m : Job) → method j ≡ ok m → is_deleted j ≡ false → IsValid j → IsValid m

close-IsKeeping : IsKeeping close
unfolding close
close-IsKeeping j m h open' (salary, status) = (ground arith, ground arith)

reopen-IsKeeping : IsKeeping reopen
unfolding reopen
reopen-IsKeeping j m h open' (salary, status) = (ground arith, ground arith)

soft_delete-IsKeeping : (now : ℕ) → IsKeeping (soft_delete now)
unfolding soft_delete
soft_delete-IsKeeping now j m h open' (salary, status) = (ground arith, ground arith)

update_details-IsKeeping : (d : Details) → IsKeeping (update_details d)
unfolding update_details
update_details-IsKeeping d j m h open' (salary, status) = (ground arith, ground arith)

new_job-IsValid :
    (r c f : ℕ) (input : CreateJobInput) (m : Job) → new_job r c f input ≡ ok m → IsValid m
unfolding new_job
new_job-IsValid r c f input m h = (ground arith, ground arith)

due_kept : (now : ℕ) (j : Job) → is_expired_open now j ≡ true → is_deleted j ≡ false
unfolding is_expired_open
due_kept now j h = ground arith

module _ {S : Type 0} (repository : JobRepository S) where
  pub record IsJobSound (s : S) : Type 0 where
    pub valid : (k : ℕ) (j : Job) → repository.find_row k s ≡ some j → IsValid j

  unfoldable pub run : Ports → List Command → S → S
  run ports [] s = s
  run ports (c ∷ cs) s = run ports cs (execute repository ports c s)

module _ {S : Type 0} {repository : JobRepository S} (laws : IsRepository repository)
    (ports : Ports) where
  open repository use {find_row}

  Asked-IsJobSound :
      (r k : ℕ) (method : Job → Result JobException Job) (s s' : S)
      → IsKeeping method
      → ((j m : Job) → method j ≡ ok m → m.id ≡ j.id)
      → Asked repository r k method s s'
      → IsJobSound repository s
      → IsJobSound repository s'
  Asked-IsJobSound r k method s s' keeps same_id (inl same) sound = rw same sound
  Asked-IsJobSound r k method s s' keeps same_id
        (inr (old, m, skills, there, open', own, served, after)) sound =
      let at_id : find_row m.id s ≡ some old =
        ground (arith, laws.found_id k old s there, same_id old m served, there) in
      elim (Result-cases (repository.update m skills s).0) [
        | inl (b, e) ↦
            let up =
              subst (Updated repository old m s) (pair_of_ok _ e)
                (laws.update_outcome old m skills s at_id) in
            let kept = keeps old m served open' (sound.valid k old there) in
            record {
              valid = λ n j found. (
                ground (arith, after, up.1 n, up.0, kept.0, sound.valid n j),
                ground (arith, after, up.1 n, up.0, kept.1, sound.valid n j),
              );
            }
        | inr (x, e) ↦
            let same : s' ≡ s = ground (arith, after, laws.update_outcome old m skills s at_id) in
            rw same sound
      ]

  create-IsJobSound :
      (r f : ℕ) (input : CreateJobInput) (s : S)
      → IsJobSound repository s
      → IsJobSound repository (create_job repository ports r f input s).1
  create-IsJobSound r f input s sound = elim (create_adds repository ports r f input s) [
    | inl same ↦ rw same sound
    | inr (company, m, skills, made, after) ↦ elim (Result-cases (repository.save m skills s).0) [
      | inl (b, e) ↦
          let ins =
            subst (Inserted repository m s) (pair_of_ok _ e) (laws.save_outcome m skills s) in
          let valid = new_job-IsValid r company f input m made in
          record {
            valid = λ n j found. (
              ground (arith, after, ins.2 n, ins.0, valid.0, sound.valid n j),
              ground (arith, after, ins.2 n, ins.0, valid.1, sound.valid n j),
            );
          }
      | inr (x, e) ↦
          let same : (create_job repository ports r f input s).1 ≡ s =
            ground (arith, after, laws.save_outcome m skills s) in
          rw same sound
    ]
  ]

  execute-IsJobSound :
      (c : Command) (s : S)
      → IsJobSound repository s
      → IsJobSound repository (execute repository ports c s)
  execute-IsJobSound (create_it r f i) s sound = create-IsJobSound r f i s sound
  execute-IsJobSound (close_it r k) s sound =
      Asked-IsJobSound r k close s _ close-IsKeeping (λ j m h. (close-Stays j m h).0)
        (close_asks repository r k s) sound
  execute-IsJobSound (reopen_it r k) s sound =
      Asked-IsJobSound r k reopen s _ reopen-IsKeeping (λ j m h. (reopen-Stays j m h).0)
        (reopen_asks repository r k s) sound
  execute-IsJobSound (delete_it r k now) s sound =
      Asked-IsJobSound r k (soft_delete now) s _ (soft_delete-IsKeeping now)
        (λ j m h. (soft_delete-Stays now j m h).0) (delete_asks repository r k now s) sound
  execute-IsJobSound (update_it r k i) s sound =
      Asked-IsJobSound r k (update_details i.details) s _ (update_details-IsKeeping i.details)
        (λ j m h. (update_details-Stays i.details j m h).0) (update_asks repository ports r k i s)
        sound
  execute-IsJobSound (expire now) s sound = record {
    valid = λ n j found. elim (Option-cases (find_row n s)) [
      | inl missing ↦ ground (arith, close_expired_jobs-none laws now s n missing)
      | inr (old, there) ↦ elim (close_expired_jobs_any laws now s n old there) [
        | inl same ↦
            let one : j ≡ old = ground (arith, same, found) in rw one (sound.valid n old there)
        | inr (due, after) ↦
            let one : j ≡ closed_job old = ground (arith, after, found) in
            rw one ((sound.valid n old there).0, ground arith)
      ]
    ];
  }

  -- Whatever commands are run one after the other, failed ones included: the salary range of every
  -- job in the database is in order, and every deleted job is closed, if that was so before.
  pub run-IsJobSound :
      (cs : List Command) (s : S)
      → IsJobSound repository s
      → IsJobSound repository (run repository ports cs s)
  unfolding run
  run-IsJobSound [] s sound = sound
  run-IsJobSound (c ∷ cs) s sound = run-IsJobSound cs _ (execute-IsJobSound c s sound)

  -- A deleted job stays as it is under any commands.
  pub run_removed :
      (cs : List Command) (s : S) (k : ℕ) (j : Job)
      → find_row k s ≡ some j
      → is_deleted j ≡ true
      → find_row k (run repository ports cs s) ≡ some j
  unfolding run
  run_removed [] s k j found deleted = found
  run_removed (c ∷ cs) s k j found deleted =
      let (m, after, owner, cause) = execute_owned laws ports c s k j found in
      elim cause [
        | inl same ↦ run_removed cs _ k j (rw (← same) after) deleted
        | inr (inl (asked, named, open')) ↦ ground arith
        | inr (inr (now, expired, due, same)) ↦ ground (arith, due_kept now j due)
      ]
