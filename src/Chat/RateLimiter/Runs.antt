-- ===== src/Chat/RateLimiter/Runs.antt =====
-- Calls of the service without Redis, by any users, in the order of time.
use recruitment_platform_be.Prelude.{
  ℕ, ◌≤◌, ◌≡◌, false, List, [], ◌∷◌, ◌==◌, ◌&&◌, count, if◌then◌else◌, arith, inl, inr, Bool-cases,
  ==_iff, refl, sym,
}
use recruitment_platform_be.Chat.RateLimiter.{
  Timestamps, Limiter, consume_in_memory, consume_send_quota, consume_read_quota,
  clear_in_memory_quota, send_rate_limit, send_rate_window_ms, read_rate_limit, read_rate_window_ms,
}
use recruitment_platform_be.Chat.RateLimiter.Windows.{is_in, IsWithin, consume_in_memory-IsWithin}

pub data Event : Type 0 where
  send_call read_call : (user_id now : ℕ) → Event
  clear_call : (user_id : ℕ) → Event

-- The times of the calls of one user that were let through, the latest first.
pub record Admitted : Type 0 where
  pub sends : List ℕ
  pub reads : List ℕ

abbrev pub serve : (user_id : ℕ) → Event → Limiter → Admitted → Limiter × Admitted
serve u (send_call v now) limiter admitted =
    let (allowed, after) = consume_send_quota v now limiter in
    (
      after,
      record admitted {
        sends = if v == u && allowed then now ∷ admitted.sends else admitted.sends;
      },
    )
serve u (read_call v now) limiter admitted =
    let (allowed, after) = consume_read_quota v now limiter in
    (
      after,
      record admitted {
        reads = if v == u && allowed then now ∷ admitted.reads else admitted.reads;
      },
    )
serve u (clear_call v) limiter admitted = (clear_in_memory_quota v limiter, admitted)

unfoldable pub run : (user_id : ℕ) → List Event → Limiter → Admitted → Limiter × Admitted
run u [] limiter admitted = (limiter, admitted)
run u (e ∷ es) limiter admitted = let next = serve u e limiter admitted in run u es next.0 next.1

abbrev pub start : Limiter
start = record { send_timestamps = λ k. []; read_timestamps = λ k. [] }

abbrev pub none_yet : Admitted
none_yet = record { sends = []; reads = [] }

-- The clock does not go back, and the quota of the user is not cleared.
abbrev pub IsOrdered : (user_id last : ℕ) → List Event → Type 0
IsOrdered u last [] = Unit
IsOrdered u last (send_call v now ∷ es) = (last ≤ now) × IsOrdered u now es
IsOrdered u last (read_call v now ∷ es) = (last ≤ now) × IsOrdered u now es
IsOrdered u last (clear_call v ∷ es) = ((v == u) ≡ false) × IsOrdered u last es

abbrev IsLimited : (user_id last : ℕ) → Limiter → Admitted → Type 0
IsLimited u last limiter admitted =
    IsWithin send_rate_limit send_rate_window_ms last (limiter.send_timestamps u) admitted.sends
    × IsWithin read_rate_limit read_rate_window_ms last (limiter.read_timestamps u) admitted.reads

later :
    (limit window last now : ℕ) (ts admitted : List ℕ)
    → last ≤ now
    → IsWithin limit window last ts admitted
    → IsWithin limit window now ts admitted
later limit window last now ts admitted le (counted, bounded) =
    (λ s h. counted s (omega arith), bounded)

-- A call by any user.
call-IsWithin :
    (u v limit window last now : ℕ) (store : Timestamps) (admitted : List ℕ)
    → last ≤ now
    → IsWithin limit window last (store u) admitted
    → let (allowed, after) = consume_in_memory v limit window now store in
      IsWithin limit window now (after u) (if v == u && allowed then now ∷ admitted else admitted)
unfolding consume_in_memory
call-IsWithin u v limit window last now store admitted le within = elim (Bool-cases (v == u)) [
  | inl same ↦
      let e = (==_iff v u).0 same in
      let here =
        consume_in_memory-IsWithin v limit window last now store admitted le (rw e within) in
      rw (sym e, (==_iff v v).1 refl) (rw ((==_iff v v).1 refl) at here)
  | inr other ↦
      let apart : (u == v) ≡ false = ground arith in
      rw (other, apart) (later limit window last now (store u) admitted le within)
]

abbrev time : ℕ → Event → ℕ
time last (send_call v now) = now
time last (read_call v now) = now
time last (clear_call v) = last

serve-IsLimited :
    (u last : ℕ) (e : Event) (limiter : Limiter) (admitted : Admitted)
    → IsOrdered u last (e ∷ [])
    → IsLimited u last limiter admitted
    → let next = serve u e limiter admitted in IsLimited u (time last e) next.0 next.1
unfolding consume_send_quota consume_read_quota clear_in_memory_quota consume_in_memory
serve-IsLimited u last (send_call v now) limiter admitted (le, _) (s, r) = (
  call-IsWithin u v send_rate_limit send_rate_window_ms last now limiter.send_timestamps
      admitted.sends le s,
  later read_rate_limit read_rate_window_ms last now (limiter.read_timestamps u) admitted.reads le
      r,
)
serve-IsLimited u last (read_call v now) limiter admitted (le, _) (s, r) = (
  later send_rate_limit send_rate_window_ms last now (limiter.send_timestamps u) admitted.sends le
      s,
  call-IsWithin u v read_rate_limit read_rate_window_ms last now limiter.read_timestamps
      admitted.reads le r,
)
serve-IsLimited u last (clear_call v) limiter admitted (other, _) (s, r) =
    let apart : (u == v) ≡ false = ground arith in rw (apart) (s, r)

run-IsLimited :
    (u last : ℕ) (es : List Event) (limiter : Limiter) (admitted : Admitted)
    → IsOrdered u last es
    → IsLimited u last limiter admitted
    → (s : ℕ)
    → let after = (run u es limiter admitted).1 in
      (count (is_in s send_rate_window_ms) after.sends ≤ send_rate_limit)
      × (count (is_in s read_rate_window_ms) after.reads ≤ read_rate_limit)
unfolding run
run-IsLimited u last [] limiter admitted ordered (s, r) = λ t. (s.1 t, r.1 t)
run-IsLimited u last (send_call v now ∷ es) limiter admitted (le, ordered) limited =
    let e = send_call v now in
    run-IsLimited u now es _ _ ordered (serve-IsLimited u last e limiter admitted (le, tt) limited)
run-IsLimited u last (read_call v now ∷ es) limiter admitted (le, ordered) limited =
    let e = read_call v now in
    run-IsLimited u now es _ _ ordered (serve-IsLimited u last e limiter admitted (le, tt) limited)
run-IsLimited u last (clear_call v ∷ es) limiter admitted (other, ordered) limited =
    let e = clear_call v in
    run-IsLimited u last es _ _ ordered
      (serve-IsLimited u last e limiter admitted (other, tt) limited)

-- Without Redis: in any ten seconds a user gets through at most 20 sends and 30 reads, whatever the
-- users call and however often, as long as the clock does not go back and the quota of the user is
-- not cleared.
pub run_limited :
    (user_id : ℕ) (events : List Event)
    → IsOrdered user_id 0 events
    → (since : ℕ)
    → let admitted = (run user_id events start none_yet).1 in
      (count (is_in since send_rate_window_ms) admitted.sends ≤ send_rate_limit)
      × (count (is_in since read_rate_window_ms) admitted.reads ≤ read_rate_limit)
run_limited user_id events ordered =
    run-IsLimited user_id 0 events start none_yet ordered
      ((λ s h. omega arith, λ s. omega arith), (λ s h. omega arith, λ s. omega arith))
