-- ===== src/Chat/Tests/Limits.antt =====
-- The limiter and the presence of users on concrete calls, and the theorems at them.
use recruitment_platform_be.Prelude.{
  ℕ, ◌≤◌, ◌≡◌, ◌⊎◌, arith, refl, Bool, true, false, not, none, some, List, [], ◌∷◌, ◌==◌, ◌&&◌,
  ◌||◌, ltb, filter, count, any, length, All, if◌then◌else◌,
}
use recruitment_platform_be.Chat.Entity.{Conversation}
use recruitment_platform_be.Chat.Presence.{add_socket, remove_socket, is_online}
use recruitment_platform_be.Chat.Presence.Connections as Connections
use recruitment_platform_be.Chat.Presence.Connections.{
  connect, disconnect, connections, is_of, is_at, run_refines,
}
use recruitment_platform_be.Chat.RateLimiter.{
  Redis, consume_in_memory, sliding_window_script, consume_send_quota, consume_read_quota,
  send_rate_limit, send_rate_window_ms, read_rate_limit, read_rate_window_ms,
}
use recruitment_platform_be.Chat.RateLimiter.Windows.{is_in}
use recruitment_platform_be.Chat.RateLimiter.Runs as Runs
use recruitment_platform_be.Chat.RateLimiter.Runs.{
  Event, send_call, read_call, clear_call, none_yet, run_limited,
}
use recruitment_platform_be.Chat.RateLimiter.OnRedis.{IsRedis, both, redis_allows}
use recruitment_platform_be.Chat.RateLimiter.Impatience.{let_through, let_through_bounded}
use recruitment_platform_be.Chat.Gateway.{Gateway, handle_connection, handle_disconnect}
use recruitment_platform_be.Chat.Gateway.Quota.{reconnect_resets}

-- Sorted sets as lists, by key.
abbrev Sets : Type 0
Sets = ℕ → List ℕ

abbrev redis : Redis Sets
redis = record {
  scores = λ k r. r k;
  zremrangebyscore = λ key max r k. if k == key then filter (λ t. ltb max t) (r k) else r k;
  zcard = λ k r. length (r k);
  zadd = λ key score r k. if k == key then score ∷ r k else r k;
  pexpire = λ key ms r. r;
}

count-filter :
    (max : ℕ) (p : ℕ → Bool) (ts : List ℕ)
    → count p (filter (λ t. ltb max t) ts) ≡ count (λ t. p t && ltb max t) ts
count-filter max p [] = refl
count-filter max p (t ∷ ts) = ground (arith, count-filter max p ts)

redis-IsRedis : IsRedis redis
redis-IsRedis = record {
  zremrangebyscore_count = λ key max r p k. ground (arith, count-filter max p (r k));
  zcard_count = λ key r. refl;
  zadd_count = λ key score r p k. ground arith;
  pexpire_scores = λ key ms r k. refl;
}

limiter : Unit {0}
unfolding consume_in_memory sliding_window_script both let_through
limiter = tt

-- A refused call counts in memory, and not on Redis: a limit of one call in ten milliseconds.
refused_call_counts :
    both redis 0 10 1 (0 ∷ 5 ∷ 12 ∷ []) (λ k. []) (λ k. [])
    ≡ (true, true) ∷ (false, false) ∷ (false, true) ∷ []
unfolding limiter
refused_call_counts = refl

redis_allows_example :
    All (λ a. (not a.0 || a.1) ≡ true) (both redis 0 10 1 (0 ∷ 5 ∷ 12 ∷ []) (λ k. []) (λ k. []))
redis_allows_example =
    redis_allows redis-IsRedis 0 10 1 (0 ∷ 5 ∷ 12 ∷ []) (λ k. []) refl
      (omega arith, (omega arith, (omega arith, tt)))

abbrev calls : List Event
calls = send_call 7 100 ∷ read_call 8 150 ∷ clear_call 8 ∷ send_call 7 200 ∷ []

run_limited_example :
    let admitted = (Runs.run 7 calls Runs.start none_yet).1 in
    (count (is_in 50 send_rate_window_ms) admitted.sends ≤ send_rate_limit)
    × (count (is_in 50 read_rate_window_ms) admitted.reads ≤ read_rate_limit)
run_limited_example = run_limited 7 calls (omega arith, (omega arith, (refl, (omega arith, tt)))) 50

let_through_bounded_example : let_through 7 (100 ∷ 300 ∷ 700 ∷ []) (λ k. []) ≤ send_rate_limit
let_through_bounded_example =
    let_through_bounded 7 100 (100 ∷ 300 ∷ 700 ∷ [])
      (omega arith, omega arith, (omega arith, omega arith, (omega arith, omega arith, tt)))

run_refines_example :
    let es = connect 7 1 ∷ connect 7 2 ∷ disconnect 7 1 ∷ [] in
    let presence = Connections.run es Connections.start in
    let cs = connections es [] in
    let left = filter (λ c. not (is_at 7 2 c)) cs in
    (is_online 7 presence ≡ any (is_of 7) cs)
    × ((add_socket 7 2 presence).0 ≡ not (any (is_of 7) cs))
    × (is_online 7 (remove_socket 7 2 presence).1 ≡ any (is_of 7) left)
    × ((remove_socket 7 2 presence).0 ≡ (any (is_of 7) cs && not (any (is_of 7) left)))
run_refines_example = run_refines (connect 7 1 ∷ connect 7 2 ∷ disconnect 7 1 ∷ []) 7 2

abbrev nobody : ℕ → Unit {0} → List Conversation
nobody u s = []

abbrev gateway : Gateway (Unit {0})
gateway = record {
  presence = λ k. if k == 7 then some (1 ∷ []) else none;
  limiter = record { send_timestamps = λ k. 5 ∷ []; read_timestamps = λ k. [] };
  world = record { store = tt; events = [] };
  frames = [];
}

reconnect_resets_example :
    let gone = handle_disconnect nobody (some 7) 1 gateway in
    let back = handle_connection nobody (some 7) 2 gone in
    let closed = (remove_socket 7 1 gateway.presence).0 in
    ((closed ≡ true)
      × ((consume_send_quota 7 9 back.limiter).0 ≡ true)
      × ((consume_read_quota 7 9 back.limiter).0 ≡ true))
    ⊎ ((closed ≡ false) × (back.limiter ≡ gateway.limiter))
reconnect_resets_example = reconnect_resets nobody 7 1 2 9 gateway
