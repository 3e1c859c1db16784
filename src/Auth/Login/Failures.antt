-- ===== src/Auth/Login/Failures.antt =====
-- What a failed login leaves in Redis: a count for the window, or a lock.
use Prim.Native.String.{String}
use text.Mathlib.Text.{◌==◌ as str_eq}
use text.Mathlib.TextEquality.{eq_iff}
use recruitment_platform_be.Prelude.{ℕ, ◌+◌, ◌*◌, ◌≡◌, ◌<◌, true, none, some, List, [], ◌∷◌, arith}
use recruitment_platform_be.Prelude.Action.{err}
use recruitment_platform_be.Auth.Exceptions.{invalid_credentials}
use recruitment_platform_be.Auth.Lockout.{
  fail_key, lock_key, Redis, IsRedis, Limits, is_locked, register_failure,
}
use recruitment_platform_be.Auth.Login.{Ports, matching, answer, login}

str_eq_self : (s : String) → str_eq s s ≡ true
str_eq_self s = ground (arith, eq_iff s s)

-- A login with an address, at a time.
pub record Attempt : Type 0 where
  pub password : ℕ
  pub at : ℕ

module _ {R : Type 0} (redis : Redis R) (limits : Limits) (ports : Ports) (email : String) where
  -- What a list of attempts leaves in Redis.
  unfoldable pub attempt_all : List Attempt → R → R
  attempt_all [] r = r
  attempt_all (a ∷ rest) r = attempt_all rest (login redis limits ports email a.password a.at r).1

  abbrev pub IsWrong : Attempt → Type 0
  IsWrong a = matching ports email a.password ≡ none

  -- The failures counted until `at`, and no lock.
  abbrev pub Counted : (k at : ℕ) → R → Type 0
  Counted k at r =
      (redis.entry (fail_key email) r ≡ some (record { value = k; expires_at = some at }))
      × (redis.entry (lock_key email) r ≡ none)

  abbrev pub LockedUntil : (at : ℕ) → R → Type 0
  LockedUntil at r =
      redis.entry (lock_key email) r ≡ some (record { value = 1; expires_at = some at })

module _ {R : Type 0} {redis : Redis R} (laws : IsRedis redis) (limits : Limits) (ports : Ports)
    (email : String) where
  -- A wrong login, without a lock, is a failure that is registered.
  pub wrong_login :
      (a : Attempt) (r : R)
      → redis.entry (lock_key email) r ≡ none
      → IsWrong redis limits ports email a
      → login redis limits ports email a.password a.at r
        ≡ (err invalid_credentials, register_failure redis limits email a.at r)
  unfolding login is_locked answer
  wrong_login a r unlocked wrong = ground arith

  pub first_failure :
      (now : ℕ) (r : R)
      → 1 < limits.max_attempts
      → redis.entry (fail_key email) r ≡ none
      → redis.entry (lock_key email) r ≡ none
      → Counted redis limits ports email 1
          (now + 1000 * limits.window_seconds)
          (register_failure redis limits email now r)
  unfolding register_failure
  first_failure now r several none_failed unlocked =
      let f = fail_key email in
      let l = lock_key email in
      let r₁ = (redis.incr f now r).1 in
      (
        ground (
          arith,
          str_eq_self email,
          laws.incr_value f now r,
          laws.incr_entry f f now r,
          laws.expire_entry f f limits.window_seconds now r₁,
        ),
        ground (
          arith,
          laws.incr_value f now r,
          laws.incr_entry f l now r,
          laws.expire_entry f l limits.window_seconds now r₁,
        ),
      )

  pub next_failure :
      (k at now : ℕ) (r : R)
      → 0 < k
      → k + 1 < limits.max_attempts
      → now < at
      → Counted redis limits ports email k at r
      → Counted redis limits ports email (k + 1) at (register_failure redis limits email now r)
  unfolding register_failure
  next_failure k at now r pos few early (counted, unlocked) =
      let f = fail_key email in
      let l = lock_key email in
      (
        ground (arith, str_eq_self email, laws.incr_value f now r, laws.incr_entry f f now r),
        ground (arith, laws.incr_value f now r, laws.incr_entry f l now r),
      )

  pub last_failure :
      (k at now : ℕ) (r : R)
      → 0 < k
      → k + 1 ≡ limits.max_attempts
      → now < at
      → Counted redis limits ports email k at r
      → LockedUntil redis limits ports email
          (now + 1000 * limits.lockout_seconds)
          (register_failure redis limits email now r)
  unfolding register_failure
  last_failure k at now r pos many early (counted, unlocked) =
      let f = fail_key email in
      let l = lock_key email in
      let r₁ = (redis.incr f now r).1 in
      ground (
        arith,
        str_eq_self email,
        laws.incr_value f now r,
        laws.set_entry l l limits.lockout_seconds now r₁,
      )
