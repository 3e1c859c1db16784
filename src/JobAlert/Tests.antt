-- ===== src/JobAlert/Tests.antt =====
-- Saved searches and a digest on concrete rows, and the theorems at them.
use recruitment_platform_be.Prelude.{
  ℕ, ◌+◌, ◌≡◌, ◌≤◌, ◌<◌, ◌⊎◌, refl, arith, true, false, none, some, List, [], ◌∷◌, ◌==◌,
  if◌then◌else◌, length, count, All,
}
use recruitment_platform_be.Prelude.Action.{ok, err}
use recruitment_platform_be.Prelude.Rows.{IsDistinct}
use recruitment_platform_be.Common.Tables.{memory, memory-IsDatabase}
use recruitment_platform_be.JobAlert.SavedSearches.{
  SavedSearch, CreateSavedSearchInput, category_not_found, count_by_user_id, create, delete,
  create_saved_search, delete_saved_search,
}
use recruitment_platform_be.JobAlert.SavedSearches.Limit.{
  Command, create_it, delete_it, run, run_bounded,
}
use recruitment_platform_be.JobAlert.Digest.{
  find_batch, batch_size, batches, Ports, send_digest_for, Tally, tally,
}
use recruitment_platform_be.JobAlert.Digest.Batches.{flatten, batches_total}
use recruitment_platform_be.JobAlert.Digest.Counts.{
  none_yet, delivered, is_silent, is_failing, tally_counts,
}
use recruitment_platform_be.JobAlert.Digest.Workers.{
  Pool, start, resume, Step, finish, Steps, here, later, occurrences, workers_complete,
}

code : Unit {0}
unfolding count_by_user_id create delete create_saved_search delete_saved_search run find_batch
    batches send_digest_for tally start resume
code = tt

abbrev everything : CreateSavedSearchInput
everything = record {
  keyword = none;
  location = none;
  category_id = none;
  employment_type = none;
  work_mode = none;
}

abbrev commands : List Command
commands =
    create_it (λ c. true) 4 2 everything ∷ create_it (λ c. true) 4 1 everything ∷ delete_it 4 2 ∷ []

wrong_category :
    (create_saved_search memory (λ c. false) 4 1 (record everything { category_id = some 3 }) []).0
    ≡ err category_not_found
unfolding code
wrong_category = refl

run_bounded_example : count_by_user_id 4 (run memory commands []) ≤ 20
unfolding code
run_bounded_example = run_bounded memory-IsDatabase commands 4 [] (omega arith)

abbrev search : ℕ → ℕ → SavedSearch
search id user_id = record { id = id; user_id = user_id; input = everything }

abbrev rows : List SavedSearch
rows = search 1 4 ∷ search 2 5 ∷ search 7 4 ∷ []

rows-IsDistinct : IsDistinct (λ (s : SavedSearch). s.id) rows
rows-IsDistinct = (refl, (refl, (refl, tt)))

-- The second batch starts after the cursor.
second_batch : find_batch (some 1) 1 rows ≡ search 2 5 ∷ []
unfolding code
second_batch = refl

one_batch : batches 2 none rows ≡ some (rows ∷ [])
unfolding code
one_batch = refl

batches_total_example :
    (bs : List (List SavedSearch)) × (batches 4 none rows ≡ some bs)
    × (flatten bs ≡ rows)
    × All (λ b. (0 < length b) × (length b ≤ batch_size)) bs
batches_total_example = batches_total 4 rows rows-IsDistinct (omega arith)

-- User 5 is gone, and the search is counted all the same.
abbrev ports : Ports
ports = record {
  find_recent_matching_jobs = λ input since. ok 3;
  find_user_email = λ u. ok (if u == 4 then some "a@b.vn" else none);
  send_email = λ mail. true;
}

abbrev done : Tally
done = tally ports 0 rows none_yet

counted_three : (done.emails_sent ≡ 3) × (length done.mails ≡ 2)
unfolding code
counted_three = (refl, refl)

-- A mail that does not go out and a lookup that throws are failures.
two_failures :
    ((tally (record ports { send_email = λ mail. false }) 0 rows none_yet).failures ≡ 2)
    × ((tally (record ports { find_user_email = λ u. err tt }) 0 rows none_yet).failures ≡ 3)
unfolding code
two_failures = (refl, refl)

tally_counts_example :
    (done.mails ≡ delivered ports 0 rows)
    × (done.failures ≡ count (is_failing ports 0) rows)
    × (done.emails_sent ≡ length done.mails + count (is_silent ports 0) rows)
    × (done.emails_sent + done.failures ≡ length rows)
tally_counts_example = tally_counts ports 0 rows

-- Two workers, three items: the second item is done first.
abbrev items : List ℕ
items = 1 ∷ 2 ∷ 3 ∷ []

abbrev first_done : Pool ℕ
first_done = resume (1 ∷ []) [] 2 (3 ∷ []) []

first_step : Steps (start 2 items) 1 first_done
unfolding code
first_step = later here (finish (1 ∷ []) [] 2 (start 2 items) refl)

workers_complete_example :
    (length first_done.running ≤ 2)
    × (1 ≤ length items)
    × (occurrences (λ n. n == 3) first_done ≡ count (λ n. n == 3) items)
    × (((q : Pool ℕ) × Step first_done q)
        ⊎ ((1 ≡ length items)
            × (count (λ n. n == 3) first_done.completed ≡ count (λ n. n == 3) items)))
workers_complete_example =
    workers_complete 2 items (λ n. n == 3) 1 first_done (omega arith) first_step
