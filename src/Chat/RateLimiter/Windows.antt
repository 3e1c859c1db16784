-- ===== src/Chat/RateLimiter/Windows.antt =====
-- What the limiter in memory lets through in any window of time.
use recruitment_platform_be.Prelude.{
  ℕ, ◌+◌, ◌≤◌, ◌<◌, ◌≡◌, Bool, List, [], ◌∷◌, ◌++◌, ◌&&◌, filter, count, length, leb, ltb,
  if◌then◌else◌, arith, refl, inl, inr, Bool-cases,
}
use recruitment_platform_be.Chat.RateLimiter.{Timestamps, is_recent, consume_in_memory}

-- From `start` on, for `window` milliseconds.
abbrev pub is_in : (start window t : ℕ) → Bool
is_in start window t = leb start t && ltb t (start + window)

pub count_le_length : (p : ℕ → Bool) (ts : List ℕ) → count p ts ≤ length ts
count_le_length p [] = omega arith
count_le_length p (t ∷ ts) = ground (arith, count_le_length p ts)

pub count-append : (p : ℕ → Bool) (ts us : List ℕ) → count p (ts ++ us) ≡ count p ts + count p us
count-append p [] us = omega arith
count-append p (t ∷ ts) us = ground (arith, count-append p ts us)

-- Dropping what is no longer recent keeps what a window that is not over counts.
count-recent :
    (start window now : ℕ) (ts : List ℕ)
    → now < start + window
    → count (is_in start window) (filter (is_recent window now) ts) ≡ count (is_in start window) ts
count-recent start window now [] h = refl
count-recent start window now (t ∷ ts) h = ground (arith, count-recent start window now ts h)

-- The timestamps that are kept count every admitted call of a window that is not over, and no
-- window has admitted more than the limit.
abbrev pub IsWithin : (limit window now : ℕ) (ts admitted : List ℕ) → Type 0
IsWithin limit window now ts admitted =
    ((start : ℕ)
      → now < start + window
      → count (is_in start window) admitted ≤ count (is_in start window) ts)
    × ((start : ℕ) → count (is_in start window) admitted ≤ limit)

-- A call, and what has been admitted after it.
pub consume_in_memory-IsWithin :
    (key limit window last now : ℕ) (store : Timestamps) (admitted : List ℕ)
    → last ≤ now
    → IsWithin limit window last (store key) admitted
    → let (allowed, after) = consume_in_memory key limit window now store in
      IsWithin limit window now (after key) (if allowed then now ∷ admitted else admitted)
unfolding consume_in_memory
consume_in_memory-IsWithin key limit window last now store admitted le (counted, bounded) =
    let kept = filter (is_recent window now) (store key) in
    (
      λ start h. ground (
        arith,
        count-append (is_in start window) kept (now ∷ []),
        count-recent start window now (store key) (omega arith),
        counted start (omega arith),
      ),
      λ start. elim (Bool-cases (ltb now (start + window))) [
        | inl open' ↦ ground (
          arith,
          count-append (is_in start window) kept (now ∷ []),
          count-recent start window now (store key) (ground arith),
          counted start (ground arith),
          bounded start,
          count_le_length (is_in start window) (kept ++ now ∷ []),
        )
        | inr over ↦ ground (arith, bounded start)
      ],
    )
