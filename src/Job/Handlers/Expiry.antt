-- ===== src/Job/Handlers/Expiry.antt =====
-- The nightly command that closes the jobs whose end has passed.
use mathlib.Core.Path.{subst}
use recruitment_platform_be.Prelude.{
  ℕ, ◌≡◌, ◌⊎◌, Bool, true, false, none, some, List, [], ◌∷◌, ◌==◌, any, All, if◌then◌else◌, inl,
  inr, arith, Bool-cases, ==_iff,
}
use recruitment_platform_be.Prelude.Action.{ok, Result-cases, pair_of_ok}
use recruitment_platform_be.Job.Entity.{Job, closed, close, is_closed}
use recruitment_platform_be.Job.Repository.{
  JobRepository, IsRepository, Updated, IsDistinct, is_expired_open,
}
use recruitment_platform_be.Job.Handlers.{close_all, close_expired_jobs}

abbrev pub closed_job : Job → Job
closed_job j = record j { status = closed }

due_open : (now : ℕ) (j : Job) → is_expired_open now j ≡ true → is_closed j.status ≡ false
unfolding is_expired_open
due_open now j h = ground arith

abbrev has_id : ℕ → List Job → Bool
has_id k jobs = any (λ x. x.id == k) jobs

module _ {S : Type 0} {repository : JobRepository S} (laws : IsRepository repository) where
  open repository use {find_row}

  abbrev Listed : (now : ℕ) → List Job → S → Type 0
  Listed now jobs s = All (λ j. (find_row j.id s ≡ some j) × (is_expired_open now j ≡ true)) jobs

  -- Another row is written: the jobs that are left are still the rows.
  Listed-other :
      (now : ℕ) (j : Job) (jobs : List Job) (s s' : S)
      → has_id j.id jobs ≡ false
      → ((k : ℕ) → find_row k s' ≡ (if k == j.id then some (closed_job j) else find_row k s))
      → Listed now jobs s
      → Listed now jobs s'
  Listed-other now j [] s s' other written listed = tt
  Listed-other now j (x ∷ jobs) s s' other written ((found, open'), listed) = (
    (ground (arith, written x.id), open'),
    Listed-other now j jobs s s' (ground arith) written listed,
  )

  close_first :
      (now : ℕ) (j : Job) (jobs : List Job) (s s' : S)
      → find_row j.id s ≡ some j
      → is_expired_open now j ≡ true
      → close_all repository (j ∷ jobs) s ≡ (ok tt, s')
      → (s₁ : S) × ((k : ℕ)
          → find_row k s₁ ≡ (if k == j.id then some (closed_job j) else find_row k s))
        × (close_all repository jobs s₁ ≡ (ok tt, s'))
  unfolding close_all close
  close_first now j jobs s s' found open' h =
      elim (Result-cases (repository.update (closed_job j) none s).0) [
        | inl (b, e) ↦
            let s₁ = (repository.update (closed_job j) none s).1 in
            let put : repository.update (closed_job j) none s ≡ (ok b, s₁) = pair_of_ok _ e in
            let up =
              subst (Updated repository j (closed_job j) s) put
                (laws.update_outcome j (closed_job j) none s found) in
            (s₁, λ k. ground (arith, up.1 k, up.0), ground arith)
        | inr (x, e) ↦ ground arith
      ]

  close_all_rows :
      (now : ℕ) (jobs : List Job) (s s' : S)
      → IsDistinct jobs
      → Listed now jobs s
      → close_all repository jobs s ≡ (ok tt, s')
      → (k : ℕ) (j : Job) → find_row k s ≡ some j
      → find_row k s' ≡ some (if has_id k jobs then closed_job j else j)
  unfolding close_all
  close_all_rows now [] s s' distinct listed h k j found = ground (arith, found)
  close_all_rows now (x ∷ jobs) s s' (other, distinct) ((there, open'), listed) h k j found =
      let (s₁, written, rest) = close_first now x jobs s s' there open' h in
      let listed₁ = Listed-other now x jobs s s₁ other written listed in
      elim (Bool-cases (k == x.id)) [
        | inl here ↦
            let same : j ≡ x = ground (arith, ==_iff k x.id, found, there) in
            let after =
              close_all_rows now jobs s₁ s' distinct listed₁ rest k (closed_job x)
                (ground (arith, written k)) in
            ground (arith, after, same, other, ==_iff k x.id)
        | inr apart ↦
            let after =
              close_all_rows now jobs s₁ s' distinct listed₁ rest k j (ground (arith, written k)) in
            ground (arith, after)
      ]

  Listed-expired :
      (now : ℕ) (jobs : List Job) (s : S) (k : ℕ) (j : Job)
      → Listed now jobs s
      → find_row k s ≡ some j
      → has_id k jobs ≡ true
      → is_expired_open now j ≡ true
  Listed-expired now [] s k j listed found h = ground arith
  Listed-expired now (x ∷ jobs) s k j ((there, open'), listed) found h =
      elim (Bool-cases (x.id == k)) [
        | inl here ↦ ground (arith, ==_iff x.id k, there, found, open')
        | inr apart ↦ Listed-expired now jobs s k j listed found (ground arith)
      ]

  -- When the command succeeds, it has closed exactly the jobs that were open, past their end and
  -- not deleted, and changed nothing else of any job.
  pub close_expired_jobs_accepted :
      (now : ℕ) (s s' : S)
      → close_expired_jobs repository now s ≡ (ok tt, s')
      → (k : ℕ) (j : Job) → find_row k s ≡ some j
      → find_row k s' ≡ some (if is_expired_open now j then closed_job j else j)
  unfolding close_expired_jobs
  close_expired_jobs_accepted now s s' h k j found =
      let jobs = repository.find_expired_open_jobs now s in
      let after =
        close_all_rows now jobs s s' (laws.expired_distinct now s) (laws.expired_found now s) h k j
          found in
      elim (Bool-cases (has_id k jobs)) [
        | inl here ↦
            let due = Listed-expired now jobs s k j (laws.expired_found now s) found here in
            ground (arith, after, due)
        | inr apart ↦ ground (arith, after, laws.expired_complete now k j s found)
      ]

  close_step :
      (j : Job) (jobs : List Job) (now : ℕ) (s : S)
      → find_row j.id s ≡ some j
      → is_expired_open now j ≡ true
      → ((close_all repository (j ∷ jobs) s).1 ≡ s)
        ⊎ ((s₁ : S) × ((k : ℕ)
              → find_row k s₁ ≡ (if k == j.id then some (closed_job j) else find_row k s))
            × ((close_all repository (j ∷ jobs) s).1 ≡ (close_all repository jobs s₁).1))
  unfolding close_all close
  close_step j jobs now s found open' =
      elim (Result-cases (repository.update (closed_job j) none s).0) [
        | inl (b, e) ↦
            let s₁ = (repository.update (closed_job j) none s).1 in
            let up =
              subst (Updated repository j (closed_job j) s) (pair_of_ok _ e)
                (laws.update_outcome j (closed_job j) none s found) in
            inr (s₁, λ k. ground (arith, up.1 k, up.0), ground (arith, due_open now j open'))
        | inr (x, e) ↦ inl (
            ground (arith, due_open now j open', laws.update_outcome j (closed_job j) none s found))
      ]

  -- Also when the command fails half-way: a job is as it was, or it was due and is closed.
  close_all_any :
      (now : ℕ) (jobs : List Job) (s : S)
      → IsDistinct jobs
      → Listed now jobs s
      → (k : ℕ) (j : Job) → find_row k s ≡ some j
      → (find_row k (close_all repository jobs s).1 ≡ some j)
        ⊎ ((is_expired_open now j ≡ true)
            × (find_row k (close_all repository jobs s).1 ≡ some (closed_job j)))
  unfolding close_all
  close_all_any now [] s distinct listed k j found = inl found
  close_all_any now (x ∷ jobs) s (other, distinct) ((there, open'), listed) k j found =
      elim (close_step x jobs now s there open') [
        | inl same ↦ inl (rw same found)
        | inr (s₁, written, same) ↦
            let listed₁ = Listed-other now x jobs s s₁ other written listed in
            elim (Bool-cases (k == x.id)) [
              | inl here ↦
                  let one : j ≡ x = ground (arith, ==_iff k x.id, found, there) in
                  let after =
                    close_all_any now jobs s₁ distinct listed₁ k (closed_job x)
                      (ground (arith, written k)) in
                  inr (ground (arith, one, open'), ground (arith, after, same, one))
              | inr apart ↦
                  rw same
                    (close_all_any now jobs s₁ distinct listed₁ k j (ground (arith, written k)))
            ]
      ]

  pub close_expired_jobs_any :
      (now : ℕ) (s : S) (k : ℕ) (j : Job)
      → find_row k s ≡ some j
      → (find_row k (close_expired_jobs repository now s).1 ≡ some j)
        ⊎ ((is_expired_open now j ≡ true)
            × (find_row k (close_expired_jobs repository now s).1 ≡ some (closed_job j)))
  unfolding close_expired_jobs
  close_expired_jobs_any now s k j found =
      close_all_any now (repository.find_expired_open_jobs now s) s (laws.expired_distinct now s)
        (laws.expired_found now s) k j found

  close_all-none :
      (now : ℕ) (jobs : List Job) (s : S)
      → IsDistinct jobs
      → Listed now jobs s
      → (k : ℕ) → find_row k s ≡ none
      → find_row k (close_all repository jobs s).1 ≡ none
  unfolding close_all
  close_all-none now [] s distinct listed k missing = missing
  close_all-none now (x ∷ jobs) s (other, distinct) ((there, open'), listed) k missing =
      elim (close_step x jobs now s there open') [
        | inl same ↦ rw same missing
        | inr (s₁, written, same) ↦ rw same (
            close_all-none now jobs s₁ distinct (Listed-other now x jobs s s₁ other written listed)
              k (ground (arith, written k, missing, there, ==_iff k x.id)))
      ]

  pub close_expired_jobs-none :
      (now : ℕ) (s : S) (k : ℕ)
      → find_row k s ≡ none
      → find_row k (close_expired_jobs repository now s).1 ≡ none
  unfolding close_expired_jobs
  close_expired_jobs-none now s =
      close_all-none now (repository.find_expired_open_jobs now s) s (laws.expired_distinct now s)
        (laws.expired_found now s)
