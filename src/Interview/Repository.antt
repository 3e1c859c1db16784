-- ===== src/Interview/Repository.antt =====
-- What the handlers ask of IInterviewScheduleRepository
-- (src/modules/interview/domain/repositories). The database is a parameter: `S` is its state, and
-- `IsRepository` says what it promises. The list of an application's interviews is known by how many
-- of its members pass a test, so its order is left open.
pub mod Memory
use mathlib.Core.Path.{subst}
use recruitment_platform_be.Prelude.{
  ℕ, suc, ◌+◌, ◌≡◌, Bool, Option, none, some, List, ◌==◌, if◌then◌else◌, count,
}
use recruitment_platform_be.Prelude.Action.{Result, ok, err}
use recruitment_platform_be.Common.Database.{DatabaseError}
use recruitment_platform_be.Interview.Entity.{InterviewSchedule}

abbrev pub Write : Type 0 → Type 0
Write S = Result DatabaseError InterviewSchedule × S

pub record InterviewScheduleRepository (S : Type 0) : Type 0 where
  pub find_by_id : ℕ → S → Option InterviewSchedule
  pub find_by_application_id : ℕ → S → List InterviewSchedule
  pub save : InterviewSchedule → S → Write S
  pub update : InterviewSchedule → S → Write S

abbrev pub weight : Bool → ℕ
weight b = if b then 1 else 0

module _ {S : Type 0} (repository : InterviewScheduleRepository S) where
  open repository use {find_by_id, find_by_application_id}

  abbrev pub members : (InterviewSchedule → Bool) → ℕ → S → ℕ
  members p j s = count p (find_by_application_id j s)

  -- An insert: the database chooses the id, which `toPersistence` leaves out.
  abbrev pub Inserted : InterviewSchedule → S → Write S → Type 0
  Inserted i s w = elim w.0 [
    | ok b ↦
        (b ≡ record i { id = b.id })
        × (find_by_id b.id s ≡ none)
        × ((k : ℕ) → find_by_id k w.1 ≡ (if k == b.id then some b else find_by_id k s))
        × ((p : InterviewSchedule → Bool) (j : ℕ)
            → members p j w.1
              ≡ (if j == i.job_application_id then weight (p b) + members p j s else members p j s))
    | err e ↦ w.1 ≡ s
  ]

  -- An update of a row that is there, and that stays with its application.
  abbrev pub Updated : InterviewSchedule → InterviewSchedule → S → Write S → Type 0
  Updated old i s w = elim w.0 [
    | ok b ↦
        (b ≡ i)
        × ((k : ℕ) → find_by_id k w.1 ≡ (if k == i.id then some i else find_by_id k s))
        × ((p : InterviewSchedule → Bool) (j : ℕ)
            → (if j == i.job_application_id then weight (p old) else 0) + members p j w.1
              ≡ (if j == i.job_application_id then weight (p i) else 0) + members p j s)
    | err e ↦ w.1 ≡ s
  ]

  pub record IsRepository : Type 0 where
    pub save_outcome : (i : InterviewSchedule) (s : S) → Inserted i s (repository.save i s)
    pub update_outcome :
        (old i : InterviewSchedule) (s : S)
        → find_by_id i.id s ≡ some old
        → i.job_application_id ≡ old.job_application_id
        → Updated old i s (repository.update i s)
    pub found_id : (k : ℕ) (i : InterviewSchedule) (s : S) → find_by_id k s ≡ some i → i.id ≡ k

  module _ (laws : IsRepository) where
    pub save-eq-ok :
        (i b : InterviewSchedule) (s s' : S)
        → repository.save i s ≡ (ok b, s')
        → Inserted i s (ok b, s')
    save-eq-ok i b s s' h = subst (Inserted i s) h (laws.save_outcome i s)

    pub update-eq-ok :
        (old i b : InterviewSchedule) (s s' : S)
        → find_by_id i.id s ≡ some old
        → i.job_application_id ≡ old.job_application_id
        → repository.update i s ≡ (ok b, s')
        → Updated old i s (ok b, s')
    update-eq-ok old i b s s' found stays h =
        subst (Updated old i s) h (laws.update_outcome old i s found stays)
