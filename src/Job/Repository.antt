-- ===== src/Job/Repository.antt =====
-- What the handlers ask of IJobRepository (src/modules/job/domain/repositories). The database behind
-- it is a parameter: `S` is its state, and `IsRepository` is what it promises. `find_row` sees deleted
-- jobs as well, `find_by_id` does not.
pub mod Memory
use mathlib.Core.Path.{subst}
use recruitment_platform_be.Prelude.{
  ℕ, ◌≡◌, Bool, true, false, Option, none, some, List, [], ◌∷◌, ◌==◌, ◌&&◌, not, any, All,
  if◌then◌else◌,
}
use recruitment_platform_be.Prelude.Action.{Result, ok, err}
use recruitment_platform_be.Common.Database.{DatabaseError}
use recruitment_platform_be.Job.Entity.{Job, is_open_status, is_deleted, is_expired}

abbrev pub Write : Type 0 → Type 0
Write S = Result DatabaseError Job × S

pub record JobRepository (S : Type 0) : Type 0 where
  pub find_row : ℕ → S → Option Job
  pub find_expired_open_jobs : (now : ℕ) → S → List Job
  pub save : Job → Option (List ℕ) → S → Write S
  pub update : Job → Option (List ℕ) → S → Write S

-- `where: { id, deletedAt: null }`
abbrev present : Option Job → Option Job
present none = none
present (some j) = if is_deleted j then none else some j

-- Open, past its end, and not deleted.
unfoldable pub is_expired_open : (now : ℕ) → Job → Bool
unfolding is_expired
is_expired_open now j = is_open_status j.status && is_expired now j && not (is_deleted j)

-- No two jobs of a list have the same id.
abbrev pub IsDistinct : List Job → Type 0
IsDistinct [] = Unit
IsDistinct (j ∷ js) = (any (λ x. x.id == j.id) js ≡ false) × IsDistinct js

module _ {S : Type 0} (repository : JobRepository S) where
  open repository use {find_row, find_expired_open_jobs}

  unfoldable pub find_by_id : ℕ → S → Option Job
  find_by_id k s = present (find_row k s)

  -- An insert: the database chooses the id.
  abbrev pub Inserted : Job → S → Write S → Type 0
  Inserted j s w = elim w.0 [
    | ok b ↦
        (b ≡ record j { id = b.id })
        × (find_row b.id s ≡ none)
        × ((k : ℕ) → find_row k w.1 ≡ (if k == b.id then some b else find_row k s))
    | err e ↦ w.1 ≡ s
  ]

  -- An update of a row that is there: every column but the view count.
  abbrev pub Updated : Job → Job → S → Write S → Type 0
  Updated old j s w = elim w.0 [
    | ok b ↦
        (b ≡ record j { view_count = old.view_count })
        × ((k : ℕ) → find_row k w.1 ≡ (if k == j.id then some b else find_row k s))
    | err e ↦ w.1 ≡ s
  ]

  pub record IsRepository : Type 0 where
    pub save_outcome :
        (j : Job) (skills : Option (List ℕ)) (s : S) → Inserted j s (repository.save j skills s)
    pub update_outcome :
        (old j : Job) (skills : Option (List ℕ)) (s : S)
        → find_row j.id s ≡ some old
        → Updated old j s (repository.update j skills s)
    pub found_id : (k : ℕ) (j : Job) (s : S) → find_row k s ≡ some j → j.id ≡ k
    -- The query gives each open and expired job that is there once.
    pub expired_found :
        (now : ℕ) (s : S)
        → All
            (λ j. (find_row j.id s ≡ some j) × (is_expired_open now j ≡ true))
            (find_expired_open_jobs now s)
    pub expired_complete :
        (now k : ℕ) (j : Job) (s : S)
        → find_row k s ≡ some j
        → is_expired_open now j ≡ true
        → any (λ x. x.id == k) (find_expired_open_jobs now s) ≡ true
    pub expired_distinct : (now : ℕ) (s : S) → IsDistinct (find_expired_open_jobs now s)
