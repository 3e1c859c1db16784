-- ===== src/Job/Repository/Memory.antt =====
-- A repository of jobs in memory that keeps the promises: the rows that were written, read from the
-- latest on.
use recruitment_platform_be.Prelude.{
  ℕ, ◌+◌, ◌≡◌, Bool, true, false, not, Option, none, some, List, [], ◌∷◌, ◌==◌, any, filter, All,
  is_some, if◌then◌else◌, inl, inr, arith, refl, Bool-cases, ==_iff,
}
use recruitment_platform_be.Prelude.Action.{ok, err}
use recruitment_platform_be.Common.Database.{other_failure}
use recruitment_platform_be.Job.Entity.{Job}
use recruitment_platform_be.Job.Repository.{
  JobRepository, IsRepository, Write, IsDistinct, is_expired_open,
}

pub record Memory : Type 0 where
  pub rows : List Job
  pub next_id : ℕ

abbrev pub empty : Memory
empty = record { rows = []; next_id = 1 }

abbrev row : ℕ → List Job → Option Job
row k [] = none
row k (x ∷ rows) = let rest = row k rows in if k == x.id then some x else rest

abbrev without : ℕ → List Job → List Job
without k = filter (λ x. not (x.id == k))

-- The latest row of each job.
abbrev current : List Job → List Job
current [] = []
current (x ∷ rows) = x ∷ without x.id (current rows)

abbrev expired : (now : ℕ) → List Job → List Job
expired now rows = filter (is_expired_open now) (current rows)

abbrev save : Job → Memory → Write Memory
save j s = if is_some (row s.next_id s.rows) then (err other_failure, s) else (
  ok (record j { id = s.next_id }),
  record { rows = record j { id = s.next_id } ∷ s.rows; next_id = s.next_id + 1 },
)

abbrev update : Job → Memory → Write Memory
update j s = elim (row j.id s.rows) [
  | none ↦ (err other_failure, s)
  | some old ↦ (
    ok (record j { view_count = old.view_count }),
    record s { rows = record j { view_count = old.view_count } ∷ s.rows },
  )
]

abbrev pub memory : JobRepository Memory
memory = record {
  find_row = λ k s. row k s.rows;
  find_expired_open_jobs = λ now s. expired now s.rows;
  save = λ j skills s. save j s;
  update = λ j skills s. update j s;
}

row_id : (k : ℕ) (j : Job) (rows : List Job) → row k rows ≡ some j → j.id ≡ k
row_id k j [] h = ground arith
row_id k j (x ∷ rows) h = ground (arith, row_id k j rows)

any-filter :
    (p : Job → Bool) (m : ℕ) (js : List Job)
    → any (λ x. x.id == m) js ≡ false
    → any (λ x. x.id == m) (filter p js) ≡ false
any-filter p m [] h = refl
any-filter p m (x ∷ js) h = ground (arith, any-filter p m js)

filter-IsDistinct : (p : Job → Bool) (js : List Job) → IsDistinct js → IsDistinct (filter p js)
filter-IsDistinct p [] h = tt
filter-IsDistinct p (x ∷ js) (other, h) = elim (Bool-cases (p x)) [
  | inl kept ↦ rw kept (any-filter p x.id js other, filter-IsDistinct p js h)
  | inr dropped ↦ rw dropped (filter-IsDistinct p js h)
]

any-without : (m : ℕ) (js : List Job) → any (λ x. x.id == m) (without m js) ≡ false
any-without m [] = refl
any-without m (x ∷ js) = ground (arith, any-without m js)

current-IsDistinct : (rows : List Job) → IsDistinct (current rows)
current-IsDistinct [] = tt
current-IsDistinct (x ∷ rows) = (
  any-without x.id (current rows),
  filter-IsDistinct (λ y. not (y.id == x.id)) (current rows) (current-IsDistinct rows),
)

without-found :
    (x : Job) (rows js : List Job)
    → All (λ j. row j.id rows ≡ some j) js
    → All (λ j. row j.id (x ∷ rows) ≡ some j) (without x.id js)
without-found x rows [] h = tt
without-found x rows (y ∷ js) (found, h) = elim (Bool-cases (y.id == x.id)) [
  | inl same ↦ rw same (without-found x rows js h)
  | inr other ↦ rw other (ground (arith, other, found), without-found x rows js h)
]

current_found : (rows : List Job) → All (λ j. row j.id rows ≡ some j) (current rows)
current_found [] = tt
current_found (x ∷ rows) =
    (ground (arith, ==_iff x.id x.id), without-found x rows (current rows) (current_found rows))

filter_found :
    (p : Job → Bool) (rows js : List Job)
    → All (λ j. row j.id rows ≡ some j) js
    → All (λ j. (row j.id rows ≡ some j) × (p j ≡ true)) (filter p js)
filter_found p rows [] h = tt
filter_found p rows (x ∷ js) (found, h) = elim (Bool-cases (p x)) [
  | inl kept ↦ rw kept ((found, kept), filter_found p rows js h)
  | inr dropped ↦ rw dropped (filter_found p rows js h)
]

any-filter-without :
    (p : Job → Bool) (k m : ℕ) (js : List Job)
    → (k == m) ≡ false
    → any (λ x. x.id == k) (filter p js) ≡ true
    → any (λ x. x.id == k) (filter p (without m js)) ≡ true
any-filter-without p k m [] h there = ground arith
any-filter-without p k m (x ∷ js) h there = ground (arith, any-filter-without p k m js)

expired_complete :
    (p : Job → Bool) (k : ℕ) (j : Job) (rows : List Job)
    → row k rows ≡ some j
    → p j ≡ true
    → any (λ x. x.id == k) (filter p (current rows)) ≡ true
expired_complete p k j [] found due = ground arith
expired_complete p k j (x ∷ rows) found due = elim (Bool-cases (k == x.id)) [
  | inl same ↦ ground (arith, ==_iff k x.id, ==_iff x.id k)
  | inr other ↦
      ground (arith, any-filter-without p k x.id (current rows) other, expired_complete p k j rows)
]

pub memory-IsRepository : IsRepository memory
memory-IsRepository = record {
  save_outcome = λ j skills s. ground arith;
  update_outcome = λ old j skills s found. ground arith;
  found_id = λ k j s. row_id k j s.rows;
  expired_found =
      λ now s. filter_found (is_expired_open now) s.rows (current s.rows) (current_found s.rows);
  expired_complete = λ now k j s. expired_complete (is_expired_open now) k j s.rows;
  expired_distinct =
      λ now s. filter-IsDistinct (is_expired_open now) (current s.rows) (current-IsDistinct s.rows);
}
