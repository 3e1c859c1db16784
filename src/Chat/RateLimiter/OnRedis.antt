-- ===== src/Chat/RateLimiter/OnRedis.antt =====
-- The script on Redis, and how it compares with the limiter in memory.
use recruitment_platform_be.Prelude.{
  ℕ, ◌+◌, ◌-◌, ◌≤◌, ◌≡◌, Bool, true, List, [], ◌∷◌, ◌==◌, ◌&&◌, ◌||◌, not, filter, count, length,
  leb, ltb, if◌then◌else◌, arith, refl, inl, inr, Bool-cases, ==_iff, All, length-append,
}
use recruitment_platform_be.Chat.RateLimiter.{
  Timestamps, is_recent, consume_in_memory, Redis, sliding_window_script,
}
use recruitment_platform_be.Chat.RateLimiter.Windows.{count-append}

-- What the commands do, by how many scores of a key pass a test. The member that is added is new,
-- and a key does not expire while an entry of it is in the window.
pub record IsRedis {R : Type 0} (redis : Redis R) : Type 0 where
  pub zremrangebyscore_count :
      (key max : ℕ) (r : R) (p : ℕ → Bool) (k : ℕ)
      → count p (redis.scores k (redis.zremrangebyscore key max r)) ≡ (
          if k == key
          then count (λ t. p t && ltb max t) (redis.scores k r)
          else count p (redis.scores k r))
  pub zcard_count : (key : ℕ) (r : R) → redis.zcard key r ≡ length (redis.scores key r)
  pub zadd_count :
      (key score : ℕ) (r : R) (p : ℕ → Bool) (k : ℕ)
      → count p (redis.scores k (redis.zadd key score r))
        ≡ (if k == key && p score then 1 else 0) + count p (redis.scores k r)
  pub pexpire_scores :
      (key milliseconds : ℕ) (r : R) (k : ℕ)
      → redis.scores k (redis.pexpire key milliseconds r) ≡ redis.scores k r

-- Two tests that agree count the same.
count-eq : (p q : ℕ → Bool) (ts : List ℕ) → ((t : ℕ) → p t ≡ q t) → count p ts ≡ count q ts
count-eq p q [] h = refl
count-eq p q (t ∷ ts) h = ground (arith, count-eq p q ts h, h t)

length-eq-count : (ts : List ℕ) → length ts ≡ count (λ t. true) ts
length-eq-count [] = refl
length-eq-count (t ∷ ts) = ground (arith, length-eq-count ts)

-- The tests that are true of fewer times count less.
count_mono :
    (p q : ℕ → Bool) (ts : List ℕ) → ((t : ℕ) → p t ≡ true → q t ≡ true) → count p ts ≤ count q ts
count_mono p q [] h = omega arith
count_mono p q (t ∷ ts) h = ground (arith, count_mono p q ts h, h t)

length-recent :
    (window now : ℕ) (ts : List ℕ)
    → length (filter (is_recent window now) ts) ≡ count (is_recent window now) ts
length-recent window now [] = refl
length-recent window now (t ∷ ts) = ground (arith, length-recent window now ts)

-- What is recent later is among what is recent now.
count-recent_later :
    (window now later : ℕ) (ts : List ℕ)
    → now ≤ later
    → count (is_recent window later) (filter (is_recent window now) ts)
      ≡ count (is_recent window later) ts
count-recent_later window now later [] h = refl
count-recent_later window now later (t ∷ ts) h =
    ground (arith, count-recent_later window now later ts h)

-- The calls come in the order of time.
abbrev pub IsOrdered : (last : ℕ) → List ℕ → Type 0
IsOrdered last [] = Unit
IsOrdered last (now ∷ times) = (last ≤ now) × IsOrdered now times

module _ {R : Type 0} (redis : Redis R) where
  -- What both limiters answer to the same calls.
  unfoldable pub both : (key window limit : ℕ) → List ℕ → Timestamps → R → List (Bool × Bool)
  both key window limit [] store r = []
  both key window limit (now ∷ times) store r =
      let (in_memory, store') = consume_in_memory key limit window now store in
      let (on_redis, r') = sliding_window_script redis key now window limit r in
      (in_memory, on_redis) ∷ both key window limit times store' r'

module _ {R : Type 0} {redis : Redis R} (laws : IsRedis redis) where
  -- The entries before the test of the script.
  abbrev kept : (key now window : ℕ) → R → R
  kept key now window r = if leb window now then redis.zremrangebyscore key (now - window) r else r

  zcard-kept :
      (key now window : ℕ) (r : R)
      → redis.zcard key (kept key now window r) ≡ count (is_recent window now) (redis.scores key r)
  zcard-kept key now window r = elim (Bool-cases (leb window now)) [
    | inl full ↦ ground (
      arith,
      laws.zcard_count key (kept key now window r),
      length-eq-count (redis.scores key (kept key now window r)),
      laws.zremrangebyscore_count key (now - window) r (λ t. true) key,
      ==_iff key key,
      count-eq (λ t. true && ltb (now - window) t) (is_recent window now) (redis.scores key r)
          (λ t. ground arith),
    )
    | inr early ↦ ground (
      arith,
      laws.zcard_count key (kept key now window r),
      length-eq-count (redis.scores key r),
      count-eq (λ t. true) (is_recent window now) (redis.scores key r) (λ t. ground arith),
    )
  ]

  -- A call on Redis is let through exactly when fewer than the limit of the calls that were let
  -- through are recent.
  script_allows :
      (key now window limit : ℕ) (r : R)
      → (sliding_window_script redis key now window limit r).0
        ≡ ltb (count (is_recent window now) (redis.scores key r)) limit
  unfolding sliding_window_script
  script_allows key now window limit r = ground (arith, zcard-kept key now window r)

  kept_counts :
      (key now window : ℕ) (r : R) (later : ℕ)
      → now ≤ later
      → count (is_recent window later) (redis.scores key (kept key now window r))
        ≡ count (is_recent window later) (redis.scores key r)
  kept_counts key now window r later le = elim (Bool-cases (leb window now)) [
    | inl full ↦ ground (
      arith,
      laws.zremrangebyscore_count key (now - window) r (is_recent window later) key,
      ==_iff key key,
      count-eq (λ t. is_recent window later t && ltb (now - window) t) (is_recent window later)
          (redis.scores key r) (λ t. ground arith),
    )
    | inr early ↦ ground arith
  ]

  -- The entries afterwards, by those that are recent at a later time.
  script_counts :
      (key now window limit : ℕ) (r : R) (later : ℕ)
      → now ≤ later
      → let (allowed, after) = sliding_window_script redis key now window limit r in
        count (is_recent window later) (redis.scores key after)
        ≡ (if allowed && is_recent window later now then 1 else 0)
          + count (is_recent window later) (redis.scores key r)
  unfolding sliding_window_script
  script_counts key now window limit r later le = ground (
    arith,
    kept_counts key now window r later le,
    laws.zadd_count key now (kept key now window r) (is_recent window later) key,
    laws.pexpire_scores key window (redis.zadd key now (kept key now window r)) key,
    ==_iff key key,
  )

  -- At any later time, Redis counts no more calls than the memory holds.
  abbrev IsLighter : (key window last : ℕ) → Timestamps → R → Type 0
  IsLighter key window last store r =
      (later : ℕ)
      → last ≤ later
      → count (is_recent window later) (redis.scores key r)
        ≤ count (is_recent window later) (store key)

  consume-IsLighter :
      (key window limit last now : ℕ) (store : Timestamps) (r : R)
      → last ≤ now
      → IsLighter key window last store r
      → IsLighter key window now
          (consume_in_memory key limit window now store).1
          (sliding_window_script redis key now window limit r).1
  unfolding consume_in_memory
  consume-IsLighter key window limit last now store r le lighter later le' = ground (
    arith,
    script_counts key now window limit r later le',
    lighter later (omega arith),
    count-append (is_recent window later) (filter (is_recent window now) (store key)) (now ∷ []),
    count-recent_later window now later (store key) le',
    ==_iff key key,
  )

  allowed_in_memory :
      (key window limit last now : ℕ) (store : Timestamps) (r : R)
      → last ≤ now
      → IsLighter key window last store r
      → (consume_in_memory key limit window now store).0 ≡ true
      → (sliding_window_script redis key now window limit r).0 ≡ true
  unfolding consume_in_memory
  allowed_in_memory key window limit last now store r le lighter h = ground (
    arith,
    script_allows key now window limit r,
    lighter now le,
    length-append (filter (is_recent window now) (store key)) (now ∷ []),
    length-recent window now (store key),
  )

  both_allow :
      (key window limit last : ℕ) (times : List ℕ) (store : Timestamps) (r : R)
      → IsOrdered last times
      → IsLighter key window last store r
      → All (λ a. (not a.0 || a.1) ≡ true) (both redis key window limit times store r)
  unfolding both
  both_allow key window limit last [] store r ordered lighter = tt
  both_allow key window limit last (now ∷ times) store r (le, ordered) lighter = (
    ground (arith, allowed_in_memory key window limit last now store r le lighter),
    both_allow key window limit now times (consume_in_memory key limit window now store).1
        (sliding_window_script redis key now window limit r).1 ordered
        (consume-IsLighter key window limit last now store r le lighter),
  )

  -- On the same calls, in the order of time and from empty stores, the script on Redis lets through
  -- every call that the limiter in memory lets through.
  pub redis_allows :
      (key window limit : ℕ) (times : List ℕ) (r : R)
      → redis.scores key r ≡ []
      → IsOrdered 0 times
      → All (λ a. (not a.0 || a.1) ≡ true) (both redis key window limit times (λ k. []) r)
  redis_allows key window limit times r blank ordered =
      both_allow key window limit 0 times (λ k. []) r ordered (λ later le. ground (arith, blank))
