-- ===== src/Auth/Login/Guessing.antt =====
-- What someone who guesses passwords learns, and when the account is closed to them.
use Prim.Native.String.{String}
use recruitment_platform_be.Prelude.{
  ℕ, ◌+◌, ◌*◌, ◌≡◌, ◌<◌, false, none, some, List, [], ◌∷◌, length, ap, ◌∙◌, ◌++◌, All, refl, arith,
}
use recruitment_platform_be.Prelude.Action.{Result, err}
use recruitment_platform_be.Auth.Exceptions.{AuthException, account_locked}
use recruitment_platform_be.Auth.Database.{AuthUser}
use recruitment_platform_be.Auth.Lockout.{
  fail_key, lock_key, Redis, IsRedis, Limits, is_locked, register_failure,
}
use recruitment_platform_be.Auth.Login.{Ports, matching, answer, login}
use recruitment_platform_be.Auth.Login.Failures.{
  Attempt, attempt_all, IsWrong, Counted, LockedUntil, wrong_login, first_failure, next_failure,
  last_failure,
}

module _ {R : Type 0} {redis : Redis R} (laws : IsRedis redis) (limits : Limits) (ports : Ports)
    (email : String) where
  attempts_count :
      (tries : List Attempt) (k n at : ℕ) (r : R)
      → 0 < k
      → k + length tries ≡ n
      → n < limits.max_attempts
      → All (λ a. a.at < at) tries
      → All (IsWrong redis limits ports email) tries
      → Counted redis limits ports email k at r
      → Counted redis limits ports email n at (attempt_all redis limits ports email tries r)
  unfolding attempt_all
  attempts_count [] k n at r pos count few early wrong c = let e : k ≡ n = omega arith in rw (← e) c
  attempts_count (a ∷ rest) k n at r pos count few (now, early) (bad, wrong) c =
      let r₁ = register_failure redis limits email a.at r in
      let c₁ = next_failure laws limits ports email k at a.at r pos (omega arith) now c in
      let e : (login redis limits ports email a.password a.at r).1 ≡ r₁ =
        ap (λ p. p.1) (wrong_login laws limits ports email a r c.1 bad) in
      rw e (attempts_count rest (k + 1) n at r₁ (omega arith) (omega arith) few early wrong c₁)

  locked_login :
      (a : Attempt) (at : ℕ) (r : R)
      → LockedUntil redis limits ports email at r
      → a.at < at
      → login redis limits ports email a.password a.at r ≡ (err account_locked, r)
  unfolding login is_locked
  locked_login a at r locked early = ground arith

  locked_attempts :
      (tries : List Attempt) (at : ℕ) (r : R)
      → LockedUntil redis limits ports email at r
      → All (λ a. a.at < at) tries
      → attempt_all redis limits ports email tries r ≡ r
  unfolding attempt_all
  locked_attempts [] at r locked early = refl
  locked_attempts (a ∷ rest) at r locked (now, early) =
      rw (locked_login a at r locked now) (locked_attempts rest at r locked early)

  attempt_all-append :
      (xs ys : List Attempt) (r : R)
      → attempt_all redis limits ports email (xs ++ ys) r
        ≡ attempt_all redis limits ports email ys (attempt_all redis limits ports email xs r)
  unfolding attempt_all
  attempt_all-append [] ys r = refl
  attempt_all-append (x ∷ xs) ys r =
      attempt_all-append xs ys (login redis limits ports email x.password x.at r).1

  wrong_first :
      (x : Attempt) (rest : List Attempt) (r : R)
      → redis.entry (lock_key email) r ≡ none
      → IsWrong redis limits ports email x
      → attempt_all redis limits ports email (x ∷ rest) r
        ≡ attempt_all redis limits ports email rest (register_failure redis limits email x.at r)
  unfolding attempt_all
  wrong_first x rest r unlocked bad =
      ap (λ (p : Result AuthException AuthUser × R). attempt_all redis limits ports email rest p.1)
        (wrong_login laws limits ports email x r unlocked bad)

  -- With Redis and a limit of two or more, nothing counted and no lock: as many wrong logins for an
  -- address as are allowed, all within the window of the first, lock the address: until the lock
  -- expires every login for it, with whatever password, is refused as locked, and further attempts
  -- neither lift nor prolong the lock.
  pub guessing_locks :
      (first last : Attempt) (between later : List Attempt) (a : Attempt) (r : R)
      → redis.entry (fail_key email) r ≡ none
      → redis.entry (lock_key email) r ≡ none
      → length between + 2 ≡ limits.max_attempts
      → IsWrong redis limits ports email first
      → All (IsWrong redis limits ports email) between
      → IsWrong redis limits ports email last
      → All (λ x. x.at < first.at + 1000 * limits.window_seconds) between
      → last.at < first.at + 1000 * limits.window_seconds
      → All (λ x. x.at < last.at + 1000 * limits.lockout_seconds) later
      → a.at < last.at + 1000 * limits.lockout_seconds
      → let r' = attempt_all redis limits ports email (first ∷ between ++ last ∷ later) r in
        login redis limits ports email a.password a.at r' ≡ (err account_locked, r')
  guessing_locks first last between later a r unfailed unlocked many bad bads bad' early early'
        later_early now =
      let until = first.at + 1000 * limits.window_seconds in
      let r₁ = register_failure redis limits email first.at r in
      let r₂ = attempt_all redis limits ports email between r₁ in
      let r₃ = register_failure redis limits email last.at r₂ in
      let c₁ = first_failure laws limits ports email first.at r (omega arith) unfailed unlocked in
      let c₂ =
        attempts_count between 1 (length between + 1) until r₁ (omega arith) (omega arith)
          (omega arith) early bads c₁ in
      let locked =
        last_failure laws limits ports email (length between + 1) until last.at r₂ (omega arith)
          (omega arith) early' c₂ in
      let after : attempt_all redis limits ports email (first ∷ between ++ last ∷ later) r ≡ r₃ =
        wrong_first first (between ++ last ∷ later) r unlocked bad
        ∙ attempt_all-append between (last ∷ later) r₁
        ∙ wrong_first last later r₂ c₂.1 bad'
        ∙ locked_attempts later _ r₃ locked later_early in
      rw after (locked_login a _ r₃ locked now)

module _ {R : Type 0} (redis : Redis R) (limits : Limits) where
  -- An address that belongs to no account gets the same answer as a wrong password for an account,
  -- whatever its status, and leaves the same in Redis.
  pub login_indistinct :
      (ports ports' : Ports) (email : String) (user : AuthUser) (hash password now : ℕ) (r : R)
      → ports.find_user_by_email email ≡ some user
      → user.password ≡ some hash
      → ports.compare_password password hash ≡ false
      → ports'.find_user_by_email email ≡ none
      → login redis limits ports email password now r
        ≡ login redis limits ports' email password now r
  unfolding login matching answer
  login_indistinct ports ports' email user hash password now r found with wrong missing =
      ground arith
