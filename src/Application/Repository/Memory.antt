-- ===== src/Application/Repository/Memory.antt =====
-- A repository in memory that keeps the promises: the newest version of a row comes first.
use recruitment_platform_be.Prelude.{
  ℕ, ◌+◌, Option, none, some, List, [], ◌∷◌, ◌++◌, ◌≡◌, Bool, true, false, ◌==◌, ◌&&◌,
  if◌then◌else◌, is_some, arith,
}
use recruitment_platform_be.Prelude.Action.{ok, err}
use recruitment_platform_be.Common.Database.{unique_violation, other_failure}
use recruitment_platform_be.Application.Entity.{JobApplication}
use recruitment_platform_be.Application.Repository.{
  ApplicationRepository, IsRepository, StatusChange, Write, Inserted, Updated,
}

pub record Memory : Type 0 where
  pub rows : List JobApplication
  pub log : ℕ → List StatusChange
  pub next_id : ℕ

abbrev pub empty : Memory
empty = record { rows = []; log = λ k. []; next_id = 1 }

abbrev by_id : ℕ → List JobApplication → Option JobApplication
by_id k [] = none
by_id k (a ∷ rows) = if k == a.id then some a else by_id k rows

abbrev by_pair : ℕ → ℕ → List JobApplication → Option JobApplication
by_pair u j [] = none
by_pair u j (a ∷ rows) = if u == a.user_id && j == a.job_id then some a else by_pair u j rows

abbrev is_empty : List StatusChange → Bool
is_empty [] = true
is_empty (c ∷ cs) = false

abbrev save : JobApplication → Memory → Write Memory
save a s =
    if is_some (by_pair a.user_id a.job_id s.rows)
    then (err unique_violation, s)
    else elim (by_id s.next_id s.rows) [
      | some b ↦ (err other_failure, s)
      | none ↦ elim (s.log s.next_id) [
        | c ∷ cs ↦ (err other_failure, s)
        | [] ↦ (
          ok (record a { id = s.next_id }),
          record s { rows = record a { id = s.next_id } ∷ s.rows; next_id = s.next_id + 1 },
        )
      ]
    ]

abbrev update : JobApplication → StatusChange → Memory → Write Memory
update a c s =
    if is_some (by_id a.id s.rows)
    then (
      ok a,
      record s {
        rows = a ∷ s.rows;
        log = λ k. if k == c.application_id then s.log k ++ c ∷ [] else s.log k;
      },
    )
    else (err other_failure, s)

abbrev pub memory : ApplicationRepository Memory
memory = record {
  find_by_id = λ k s. by_id k s.rows;
  find_by_user_id_and_job_id = λ u j s. by_pair u j s.rows;
  save = save;
  update_with_status_history = update;
  find_history = λ k s. s.log k;
}

save_promise : (a : JobApplication) (s : Memory) → Inserted memory a s (save a s)
save_promise a s = ground arith

save_conflict_promise :
    (a b : JobApplication) (s : Memory)
    → by_pair a.user_id a.job_id s.rows ≡ some b
    → save a s ≡ (err unique_violation, s)
save_conflict_promise a b s h = ground arith

update_promise :
    (a : JobApplication) (c : StatusChange) (s : Memory) → Updated memory a c s (update a c s)
update_promise a c s = ground arith

by_id_promise :
    (k : ℕ) (a : JobApplication) (rows : List JobApplication) → by_id k rows ≡ some a → a.id ≡ k
by_id_promise k a [] h = ground arith
by_id_promise k a (b ∷ rows) h = ground (arith, by_id_promise k a rows)

pub memory-IsRepository : IsRepository memory
memory-IsRepository = record {
  save_outcome = save_promise;
  save_conflict = save_conflict_promise;
  update_outcome = update_promise;
  found_id = λ k a s. by_id_promise k a s.rows;
}
