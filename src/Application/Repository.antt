-- ===== src/Application/Repository.antt =====
-- What the handlers ask of IJobApplicationRepository and IApplicationStatusHistoryRepository
-- (src/modules/application/domain/repositories). The database behind them is a parameter: `S` is its
-- state, and `IsRepository` is what its constraints and its transaction promise.
pub mod Memory
use Prim.Native.String.{String}
use recruitment_platform_be.Prelude.{
  ℕ, ◌≡◌, Option, none, some, List, [], ◌∷◌, ◌++◌, ◌==◌, ◌&&◌, if◌then◌else◌,
}
use mathlib.Core.Path.{subst}
use recruitment_platform_be.Prelude.Action.{Result, ok, err}
use recruitment_platform_be.Common.Database.{DatabaseError, unique_violation}
use recruitment_platform_be.Application.Status.{ApplicationStatus}
use recruitment_platform_be.Application.Entity.{JobApplication}

-- CreateApplicationStatusHistoryInput
pub record StatusChange : Type 0 where
  pub application_id : ℕ
  pub from_status : Option ApplicationStatus
  pub to_status : ApplicationStatus
  pub changed_by_id : Option ℕ
  pub note : Option String

abbrev pub Write : Type 0 → Type 0
Write S = Result DatabaseError JobApplication × S

pub record ApplicationRepository (S : Type 0) : Type 0 where
  pub find_by_id : ℕ → S → Option JobApplication
  pub find_by_user_id_and_job_id : ℕ → ℕ → S → Option JobApplication
  pub save : JobApplication → S → Write S
  pub update_with_status_history : JobApplication → StatusChange → S → Write S
  pub find_history : ℕ → S → List StatusChange

module _ {S : Type 0} (repository : ApplicationRepository S) where
  open repository use {find_by_id, find_by_user_id_and_job_id, find_history}

  -- An insert goes through only if the pair of user and job is new; the database chooses the id
  -- (`toPersistence` leaves the entity's out), and no history entry refers to it yet.
  abbrev pub Inserted : JobApplication → S → Write S → Type 0
  Inserted a s w = elim w.0 [
    | ok b ↦
        (b ≡ record a { id = b.id })
        × (find_by_id b.id s ≡ none)
        × (find_history b.id s ≡ [])
        × (find_by_user_id_and_job_id a.user_id a.job_id s ≡ none)
        × ((k : ℕ) → find_by_id k w.1 ≡ (if k == b.id then some b else find_by_id k s))
        × ((u j : ℕ)
            → find_by_user_id_and_job_id u j w.1 ≡ (
                if u == a.user_id && j == a.job_id
                then some b
                else find_by_user_id_and_job_id u j s))
        × ((k : ℕ) → find_history k w.1 ≡ find_history k s)
    | err e ↦ w.1 ≡ s
  ]

  -- The row and its history entry are written together, or neither is.
  abbrev pub Updated : JobApplication → StatusChange → S → Write S → Type 0
  Updated a c s w = elim w.0 [
    | ok b ↦
        (b ≡ a)
        × ((k : ℕ) → find_by_id k w.1 ≡ (if k == a.id then some a else find_by_id k s))
        × ((k : ℕ)
            → find_history k w.1
              ≡ (if k == c.application_id then find_history k s ++ c ∷ [] else find_history k s))
    | err e ↦ w.1 ≡ s
  ]

  pub record IsRepository : Type 0 where
    pub save_outcome : (a : JobApplication) (s : S) → Inserted a s (repository.save a s)
    -- @@unique([userId, jobId])
    pub save_conflict :
        (a b : JobApplication) (s : S)
        → find_by_user_id_and_job_id a.user_id a.job_id s ≡ some b
        → repository.save a s ≡ (err unique_violation, s)
    pub update_outcome :
        (a : JobApplication) (c : StatusChange) (s : S)
        → Updated a c s (repository.update_with_status_history a c s)
    pub found_id : (k : ℕ) (a : JobApplication) (s : S) → find_by_id k s ≡ some a → a.id ≡ k

  -- The promises at a write that went through.
  module _ (laws : IsRepository) where
    pub save-eq-ok :
        (a b : JobApplication) (s s' : S)
        → repository.save a s ≡ (ok b, s')
        → Inserted a s (ok b, s')
    save-eq-ok a b s s' h = subst (Inserted a s) h (laws.save_outcome a s)

    pub update-eq-ok :
        (a b : JobApplication) (c : StatusChange) (s s' : S)
        → repository.update_with_status_history a c s ≡ (ok b, s')
        → Updated a c s (ok b, s')
    update-eq-ok a b c s s' h = subst (Updated a c s) h (laws.update_outcome a c s)
