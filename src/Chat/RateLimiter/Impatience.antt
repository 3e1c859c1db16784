-- ===== src/Chat/RateLimiter/Impatience.antt =====
-- A client that goes on sending while it is refused, without Redis.
use recruitment_platform_be.Prelude.{
  ℕ, zero, suc, inl, inr, Bool-cases, ◌+◌, ◌-◌, ◌*◌, ◌≤◌, ◌<◌, ◌≡◌, Bool, false, List, [], ◌∷◌,
  filter, count, leb, if◌then◌else◌, arith, ==_iff, length-append,
}
use recruitment_platform_be.Chat.RateLimiter.{
  Timestamps, is_recent, consume_in_memory, send_rate_limit, send_rate_window_ms,
}
use recruitment_platform_be.Chat.RateLimiter.Windows.{count-append, count_le_length}

-- How many of the sends are let through.
unfoldable pub let_through : (user_id : ℕ) → List ℕ → Timestamps → ℕ
let_through u [] store = 0
let_through u (now ∷ times) store =
    let (allowed, after) = consume_in_memory u send_rate_limit send_rate_window_ms now store in
    let rest = let_through u times after in if allowed then suc rest else rest

-- No pause of half a second.
abbrev pub IsImpatient : (last : ℕ) → List ℕ → Type 0
IsImpatient last [] = Unit
IsImpatient last (now ∷ times) = (last ≤ now) × (now < last + 500) × IsImpatient now times

-- Sent within the last `j` pauses.
abbrev is_within : (last j t : ℕ) → Bool
is_within last j t = leb last (t + j * 499)

-- The last sends are all remembered: `n` of them, as far as the limit goes.
abbrev IsBusy : (n last : ℕ) → List ℕ → Type 0
IsBusy n last ts = (j : ℕ) → j < n → j < 20 → suc j ≤ count (is_within last j) ts

count-within :
    (last now j : ℕ) (ts : List ℕ)
    → now < last + 500
    → j < 20
    → count (is_within last j) ts ≤ count (is_within now (suc j)) (filter (is_recent 10000 now) ts)
count-within last now j [] h k = omega arith
count-within last now j (t ∷ ts) h k = ground (arith, count-within last now j ts h k)

-- One more send.
consume-IsBusy :
    (u n last now : ℕ) (store : Timestamps)
    → now < last + 500
    → IsBusy n last (store u)
    → IsBusy (suc n) now ((consume_in_memory u 20 10000 now store).1 u)
unfolding consume_in_memory
consume-IsBusy u n last now store soon busy zero h k = ground (
  arith,
  count-append (is_within now 0) (filter (is_recent 10000 now) (store u)) (now ∷ []),
  ==_iff u u,
)
consume-IsBusy u n last now store soon busy (suc j) h k = ground (
  arith,
  count-append (is_within now (suc j)) (filter (is_recent 10000 now) (store u)) (now ∷ []),
  ==_iff u u,
  busy j (omega arith) (omega arith),
  count-within last now j (store u) soon (omega arith),
)

-- With the limit's number of recent sends in memory, the next one is refused.
busy_refused :
    (u n last now : ℕ) (store : Timestamps)
    → now < last + 500
    → 20 ≤ n
    → IsBusy n last (store u)
    → (consume_in_memory u 20 10000 now store).0 ≡ false
unfolding consume_in_memory
busy_refused u n last now store soon full busy = ground (
  arith,
  busy 19 (omega arith) (omega arith),
  count-within last now 19 (store u) soon (omega arith),
  count_le_length (is_within now 20) (filter (is_recent 10000 now) (store u)),
  length-append (filter (is_recent 10000 now) (store u)) (now ∷ []),
)

let_through_rest :
    (u n last : ℕ) (times : List ℕ) (store : Timestamps)
    → IsImpatient last times
    → IsBusy n last (store u)
    → let_through u times store ≤ 20 - n
unfolding let_through
let_through_rest u n last [] store soon busy = omega arith
let_through_rest u n last (now ∷ times) store (le, soon, rest) busy =
    let after = consume_in_memory u 20 10000 now store in
    let induction =
      let_through_rest u (suc n) now times after.1 rest
        (consume-IsBusy u n last now store soon busy) in
    elim (Bool-cases (leb 20 n)) [
      | inl full ↦
          ground (arith, busy_refused u n last now store soon (ground arith) busy, induction)
      | inr room ↦ ground (arith, induction)
    ]

-- Without Redis, where the limiter keeps its quotas in memory: a client that sends again and again
-- with no pause of half a second gets at most 20 sends through, however long it goes on, since what
-- is refused counts as well.
pub let_through_bounded :
    (user_id first : ℕ) (times : List ℕ)
    → IsImpatient first times
    → let_through user_id times (λ k. []) ≤ send_rate_limit
let_through_bounded user_id first times soon =
    let_through_rest user_id 0 first times (λ k. []) soon (λ j h. omega arith)
