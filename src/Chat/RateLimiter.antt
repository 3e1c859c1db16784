-- ===== src/Chat/RateLimiter.antt =====
-- src/modules/chat/infrastructure/services/chat-rate-limiter.service.ts. The two maps from users to
-- timestamps are functions: a missing key reads as the empty list, as in the code. `now` is what
-- `Date.now()` returns. Redis is a parameter. The functions that consume or clear a quota are those
-- without Redis; with it, a quota is what the script below keeps, and clearing does nothing to it.
pub mod Windows
pub mod Runs
pub mod OnRedis
pub mod Impatience
use recruitment_platform_be.Prelude.{
  ℕ, ◌+◌, ◌-◌, Bool, true, false, ◌==◌, ltb, leb, List, [], ◌∷◌, ◌++◌, filter, length,
  if◌then◌else◌,
}

abbrev pub send_rate_limit : ℕ
send_rate_limit = 20

abbrev pub send_rate_window_ms : ℕ
send_rate_window_ms = 10000

abbrev pub read_rate_limit : ℕ
read_rate_limit = 30

abbrev pub read_rate_window_ms : ℕ
read_rate_window_ms = 10000

abbrev pub Timestamps : Type 0
Timestamps = ℕ → List ℕ

-- `store.set(key, value)`
abbrev pub set : ℕ → List ℕ → Timestamps → Timestamps
set key value store k = if k == key then value else store k

-- `now - t < windowMs`
abbrev pub is_recent : (window now t : ℕ) → Bool
is_recent window now t = ltb now (t + window)

unfoldable pub consume_in_memory : (key limit window now : ℕ) → Timestamps → Bool × Timestamps
consume_in_memory key limit window now store =
    let timestamps = filter (is_recent window now) (store key) ++ now ∷ [] in
    (leb (length timestamps) limit, set key timestamps store)

pub record Limiter : Type 0 where
  pub send_timestamps : Timestamps
  pub read_timestamps : Timestamps

-- The three methods when no Redis is configured.
unfoldable pub consume_send_quota : (user_id now : ℕ) → Limiter → Bool × Limiter
unfolding consume_in_memory
consume_send_quota user_id now limiter =
    let (allowed, store) =
      consume_in_memory user_id send_rate_limit send_rate_window_ms now limiter.send_timestamps in
    (allowed, record limiter { send_timestamps = store })

unfoldable pub consume_read_quota : (user_id now : ℕ) → Limiter → Bool × Limiter
unfolding consume_in_memory
consume_read_quota user_id now limiter =
    let (allowed, store) =
      consume_in_memory user_id read_rate_limit read_rate_window_ms now limiter.read_timestamps in
    (allowed, record limiter { read_timestamps = store })

-- `delete` on both maps
unfoldable pub clear_in_memory_quota : (user_id : ℕ) → Limiter → Limiter
clear_in_memory_quota user_id limiter = record {
  send_timestamps = set user_id [] limiter.send_timestamps;
  read_timestamps = set user_id [] limiter.read_timestamps;
}

-- The sorted sets of a Redis server, and the commands of the script.
pub record Redis (R : Type 0) : Type 0 where
  pub scores : (key : ℕ) → R → List ℕ
  pub zremrangebyscore : (key max : ℕ) → R → R
  pub zcard : (key : ℕ) → R → ℕ
  pub zadd : (key score : ℕ) → R → R
  pub pexpire : (key milliseconds : ℕ) → R → R

-- A range with a negative end removes nothing.
unfoldable pub sliding_window_script :
    {R : Type 0} → Redis R → (key now window limit : ℕ) → R → Bool × R
sliding_window_script redis key now window limit r =
    let kept = if leb window now then redis.zremrangebyscore key (now - window) r else r in
    if ltb (redis.zcard key kept) limit
    then (true, redis.pexpire key window (redis.zadd key now kept))
    else (false, kept)
