-- ===== src/JobAlert/Digest.antt =====
-- send-job-alert-digests.command.ts, with `findBatch` of the repository. What a search finds, who its
-- user is and whether a mail goes out are the ports'. A mail is its address and the number of jobs
-- that it announces; its text is left out.
pub mod Batches
pub mod Workers
pub mod Counts
use Prim.Native.String.{String}
use recruitment_platform_be.Prelude.{
  ℕ, zero, suc, ◌+◌, ◌-◌, Bool, true, false, Option, none, some, List, [], ◌∷◌, ◌++◌, ◌==◌, take,
  drop, if◌then◌else◌,
}
use recruitment_platform_be.Prelude.Action.{Result, ok, err}
use recruitment_platform_be.JobAlert.SavedSearches.{SavedSearch, CreateSavedSearchInput}

abbrev pub one_day_ms : ℕ
one_day_ms = 86400000

abbrev pub batch_size : ℕ
batch_size = 200

abbrev pub send_concurrency : ℕ
send_concurrency = 15

-- The rows after the cursor; none if the row of the cursor is gone.
abbrev pub after : (cursor : Option ℕ) → List SavedSearch → List SavedSearch
after none rows = rows
after (some id) [] = []
after (some id) (x ∷ rows) = let rest = after (some id) rows in if x.id == id then rows else rest

-- `skip: 1, cursor, take`, ordered by identifier
unfoldable pub find_batch : (cursor : Option ℕ) (n : ℕ) → List SavedSearch → List SavedSearch
find_batch cursor n rows = take n (after cursor rows)

-- `batch[batch.length - 1].id`
abbrev pub last_id : SavedSearch → List SavedSearch → ℕ
last_id x [] = x.id
last_id x (y ∷ ys) = last_id y ys

abbrev pub with_batch :
    List SavedSearch → Option (List (List SavedSearch)) → Option (List (List SavedSearch))
with_batch batch none = none
with_batch batch (some batches) = some (batch ∷ batches)

-- The loop over the batches, as long as the fuel lasts: the batches that it works through.
unfoldable pub batches :
    (fuel : ℕ) (cursor : Option ℕ) → List SavedSearch → Option (List (List SavedSearch))
unfolding find_batch
batches zero cursor rows = none
batches (suc fuel) cursor rows = elim (find_batch cursor batch_size rows) [
  | [] ↦ some []
  | x ∷ xs ↦ with_batch (x ∷ xs) (batches fuel (some (last_id x xs)) rows)
]

pub record Mail : Type 0 where
  pub to : String
  pub total : ℕ

pub record Ports : Type 0 where
  -- how many jobs newer than `since` match; `err` when it throws
  pub find_recent_matching_jobs : CreateSavedSearchInput → (since : ℕ) → Result (Unit {0}) ℕ
  -- the address of the user, if there is one; `err` when it throws
  pub find_user_email : (user_id : ℕ) → Result (Unit {0}) (Option String)
  -- `false` when it throws
  pub send_email : Mail → Bool

pub data Outcome : Type 0 where
  sent : Mail → Outcome
  nothing_to_send : Outcome
  digest_failed : Outcome

-- `sendDigestFor`
unfoldable pub send_digest_for : Ports → (since : ℕ) → SavedSearch → Outcome
send_digest_for ports since search = elim (ports.find_recent_matching_jobs search.input since) [
  | err _ ↦ digest_failed
  | ok total ↦ if total == 0 then nothing_to_send else elim (ports.find_user_email search.user_id) [
    | err _ ↦ digest_failed
    | ok none ↦ nothing_to_send
    | ok (some email) ↦
        let mail : Mail = record { to = email; total = total } in
        if ports.send_email mail then sent mail else digest_failed
  ]
]

pub record Tally : Type 0 where
  pub emails_sent : ℕ
  pub failures : ℕ
  pub mails : List Mail

-- What the task counts once the digest of a search is done.
abbrev pub tally_one : Outcome → Tally → Tally
tally_one (sent mail) t = record t { emails_sent = t.emails_sent + 1; mails = t.mails ++ mail ∷ [] }
tally_one nothing_to_send t = record t { emails_sent = t.emails_sent + 1 }
tally_one digest_failed t = record t { failures = t.failures + 1 }

-- The tasks in the order in which they are done.
unfoldable pub tally : Ports → (since : ℕ) → List SavedSearch → Tally → Tally
unfolding send_digest_for
tally ports since [] t = t
tally ports since (search ∷ rest) t =
    tally ports since rest (tally_one (send_digest_for ports since search) t)
