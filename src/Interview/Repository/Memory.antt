-- ===== src/Interview/Repository/Memory.antt =====
-- A repository of interviews in memory that keeps the promises.
use recruitment_platform_be.Prelude.{
  ℕ, ◌+◌, Option, none, some, List, [], ◌∷◌, ◌≡◌, Bool, ◌==◌, filter, count, if◌then◌else◌, is_some,
  arith, Bool-cases, ==_iff, inl, inr,
}
use recruitment_platform_be.Prelude.Action.{ok, err}
use recruitment_platform_be.Common.Database.{other_failure}
use recruitment_platform_be.Interview.Entity.{InterviewSchedule}
use recruitment_platform_be.Interview.Repository.{
  InterviewScheduleRepository, IsRepository, Write, Inserted, Updated, weight,
}

pub record Memory : Type 0 where
  pub rows : List InterviewSchedule
  pub next_id : ℕ

abbrev pub empty : Memory
empty = record { rows = []; next_id = 1 }

abbrev by_id : ℕ → List InterviewSchedule → Option InterviewSchedule
by_id k [] = none
by_id k (i ∷ rows) = if k == i.id then some i else by_id k rows

abbrev replace : InterviewSchedule → List InterviewSchedule → List InterviewSchedule
replace i [] = []
replace i (x ∷ rows) = if i.id == x.id then i ∷ rows else x ∷ replace i rows

abbrev of_application : ℕ → List InterviewSchedule → List InterviewSchedule
of_application j = filter (λ i. j == i.job_application_id)

abbrev save : InterviewSchedule → Memory → Write Memory
save i s = elim (by_id s.next_id s.rows) [
  | some x ↦ (err other_failure, s)
  | none ↦ (
    ok (record i { id = s.next_id }),
    record { rows = record i { id = s.next_id } ∷ s.rows; next_id = s.next_id + 1 },
  )
]

abbrev update : InterviewSchedule → Memory → Write Memory
update i s =
    if is_some (by_id i.id s.rows)
    then (ok i, record s { rows = replace i s.rows })
    else (err other_failure, s)

abbrev pub memory : InterviewScheduleRepository Memory
memory = record {
  find_by_id = λ k s. by_id k s.rows;
  find_by_application_id = λ j s. of_application j s.rows;
  save = save;
  update = update;
}

save_promise : (i : InterviewSchedule) (s : Memory) → Inserted memory i s (save i s)
save_promise i s = ground arith

by_id-replace :
    (i old : InterviewSchedule) (rows : List InterviewSchedule)
    → by_id i.id rows ≡ some old
    → (k : ℕ) → by_id k (replace i rows) ≡ (if k == i.id then some i else by_id k rows)
by_id-replace i old [] h k = ground arith
by_id-replace i old (x ∷ rows) h k = elim (Bool-cases (i.id == x.id)) [
  | inl here ↦ ground (arith, (==_iff i.id x.id).0 here)
  | inr there ↦ ground (arith, by_id-replace i old rows (ground arith) k)
]

count-replace :
    (i old : InterviewSchedule) (rows : List InterviewSchedule)
    → by_id i.id rows ≡ some old
    → i.job_application_id ≡ old.job_application_id
    → (p : InterviewSchedule → Bool) (j : ℕ)
    → (if j == i.job_application_id then weight (p old) else 0)
        + count p (of_application j (replace i rows))
      ≡ (if j == i.job_application_id then weight (p i) else 0) + count p (of_application j rows)
count-replace i old [] h same p j = ground arith
count-replace i old (x ∷ rows) h same p j = elim (Bool-cases (i.id == x.id)) [
  | inl here ↦ let found : x ≡ old = ground arith in ground (arith, found, same)
  | inr there ↦ ground (arith, count-replace i old rows (ground arith) same p j)
]

update_promise :
    (old i : InterviewSchedule) (s : Memory)
    → by_id i.id s.rows ≡ some old
    → i.job_application_id ≡ old.job_application_id
    → Updated memory old i s (update i s)
update_promise old i s found same =
    ground (arith, by_id-replace i old s.rows found, count-replace i old s.rows found same)

by_id_promise :
    (k : ℕ) (i : InterviewSchedule) (rows : List InterviewSchedule)
    → by_id k rows ≡ some i
    → i.id ≡ k
by_id_promise k i [] h = ground arith
by_id_promise k i (x ∷ rows) h = ground (arith, by_id_promise k i rows)

pub memory-IsRepository : IsRepository memory
memory-IsRepository = record {
  save_outcome = save_promise;
  update_outcome = update_promise;
  found_id = λ k i s. by_id_promise k i s.rows;
}
