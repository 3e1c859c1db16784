-- ===== src/Auth/Lockout.antt =====
-- src/modules/auth/infrastructure/adapters/login-attempt-redis.adapter.ts. Redis is a parameter:
-- `entry` is what it stores under a key, a number and the time at which it expires. Its calls are
-- taken not to fail. Times are in milliseconds.
pub mod Memory
use Prim.Native.String.{String}
use text.Mathlib.Text.{◌==◌ as str_eq}
use recruitment_platform_be.Prelude.{
  ℕ, ◌+◌, ◌*◌, ◌≡◌, Bool, true, false, Option, none, some, ◌==◌, ltb, leb, is_some, if◌then◌else◌,
}

-- `auth:login-fail:…` and `auth:login-lock:…`
pub data Key : Type 0 where
  fail_key lock_key : (identifier : String) → Key

abbrev pub same_key : Key → Key → Bool
same_key (fail_key s) (fail_key t) = str_eq s t
same_key (lock_key s) (lock_key t) = str_eq s t
same_key _ _ = false

pub record Entry : Type 0 where
  pub value : ℕ
  pub expires_at : Option ℕ

-- The entry, unless it has expired.
abbrev pub live : (now : ℕ) → Option Entry → Option Entry
live now none = none
live now (some e) = elim e.expires_at [
  | none ↦ some e
  | some at ↦ if ltb now at then some e else none
]

pub record Redis (R : Type 0) : Type 0 where
  pub entry : Key → R → Option Entry
  pub incr : Key → (now : ℕ) → R → ℕ × R
  pub expire : Key → (seconds now : ℕ) → R → R
  -- SET key 1 EX seconds
  pub set_ex : Key → (seconds now : ℕ) → R → R
  pub del : Key → R → R

abbrev pub next_value : Option Entry → ℕ
next_value none = 1
next_value (some e) = e.value + 1

-- INCR keeps the time to live.
abbrev pub incremented : Option Entry → Entry
incremented none = record { value = 1; expires_at = none }
incremented (some e) = record e { value = e.value + 1 }

abbrev pub expiring : (at : ℕ) → Option Entry → Option Entry
expiring at none = none
expiring at (some e) = some (record e { expires_at = some at })

pub record IsRedis {R : Type 0} (redis : Redis R) : Type 0 where
  pub incr_value :
      (k : Key) (now : ℕ) (r : R) → (redis.incr k now r).0 ≡ next_value (live now (redis.entry k r))
  pub incr_entry :
      (k g : Key) (now : ℕ) (r : R)
      → redis.entry g (redis.incr k now r).1 ≡ (
          if same_key k g then some (incremented (live now (redis.entry k r))) else redis.entry g r)
  pub expire_entry :
      (k g : Key) (seconds now : ℕ) (r : R)
      → redis.entry g (redis.expire k seconds now r) ≡ (
          if same_key k g
          then expiring (now + 1000 * seconds) (live now (redis.entry k r))
          else redis.entry g r)
  pub set_entry :
      (k g : Key) (seconds now : ℕ) (r : R)
      → redis.entry g (redis.set_ex k seconds now r) ≡ (
          if same_key k g
          then some (record { value = 1; expires_at = some (now + 1000 * seconds) })
          else redis.entry g r)
  pub del_entry :
      (k g : Key) (r : R)
      → redis.entry g (redis.del k r) ≡ (if same_key k g then none else redis.entry g r)

-- LOGIN_LOCKOUT_MAX_ATTEMPTS, LOGIN_LOCKOUT_WINDOW_SECONDS and LOGIN_LOCKOUT_DURATION_SECONDS
pub record Limits : Type 0 where
  pub max_attempts : ℕ
  pub window_seconds : ℕ
  pub lockout_seconds : ℕ

module _ {R : Type 0} (redis : Redis R) (limits : Limits) where
  unfoldable pub is_locked : (identifier : String) (now : ℕ) → R → Bool
  is_locked identifier now r = is_some (live now (redis.entry (lock_key identifier) r))

  unfoldable pub register_failure : (identifier : String) (now : ℕ) → R → R
  register_failure identifier now r =
      let (count, r₁) = redis.incr (fail_key identifier) now r in
      let r₂ =
        if count == 1
        then redis.expire (fail_key identifier) limits.window_seconds now r₁
        else r₁ in
      if leb limits.max_attempts count
      then redis.set_ex (lock_key identifier) limits.lockout_seconds now r₂
      else r₂

  unfoldable pub reset_on_success : (identifier : String) → R → R
  reset_on_success identifier r =
      redis.del (lock_key identifier) (redis.del (fail_key identifier) r)
