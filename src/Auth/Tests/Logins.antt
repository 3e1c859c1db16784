-- ===== src/Auth/Tests/Logins.antt =====
-- Logins with a limit of three attempts, and the theorems at them.
use text.Mathlib.Text.{◌==◌ as str_eq}
use recruitment_platform_be.Prelude.{
  ℕ, ◌+◌, ◌≡◌, refl, arith, none, some, [], ◌∷◌, ◌++◌, ◌==◌, if◌then◌else◌,
}
use recruitment_platform_be.Prelude.Action.{ok, err}
use recruitment_platform_be.Auth.Exceptions.{account_locked, account_blocked}
use recruitment_platform_be.Auth.Database.{AuthUser, UserStatus, active, blocked}
use recruitment_platform_be.Auth.Service.{ensure_active_account}
use recruitment_platform_be.Auth.Lockout.{Limits, is_locked, register_failure, reset_on_success}
use recruitment_platform_be.Auth.Lockout.Memory.{Memory, redis, redis-IsRedis}
use recruitment_platform_be.Auth.Login.{Ports, matching, answer, login}
use recruitment_platform_be.Auth.Login.Failures.{Attempt, attempt_all, IsWrong}
use recruitment_platform_be.Auth.Login.Guessing.{guessing_locks, login_indistinct}

handlers : Unit {0}
unfolding ensure_active_account is_locked register_failure reset_on_success matching answer login
    attempt_all
handlers = tt

abbrev limits : Limits
limits = record { max_attempts = 3; window_seconds = 900; lockout_seconds = 900 }

abbrev user_of : UserStatus → AuthUser
user_of status = record {
  id = 4;
  email = "a@b.vn";
  password = some 17;
  role = "CANDIDATE";
  status = status;
}

abbrev ports_of : UserStatus → Ports
ports_of status = record {
  find_user_by_email = λ e. if str_eq e "a@b.vn" then some (user_of status) else none;
  compare_password = λ p h. p + 7 == h;
  dummy = 0;
}

abbrev nobody : Ports
nobody = record (ports_of active) { find_user_by_email = λ e. none }

abbrev empty : Memory
empty = λ k. none

right_password : (login redis limits (ports_of active) "a@b.vn" 10 5 empty).0 ≡ ok (user_of active)
unfolding handlers
right_password = refl

blocked_user : (login redis limits (ports_of blocked) "a@b.vn" 10 5 empty).0 ≡ err account_blocked
unfolding handlers
blocked_user = refl

abbrev at : (password now : ℕ) → Attempt
at password now = record { password = password; at = now }

abbrev after : Memory
after =
    attempt_all redis limits (ports_of active) "a@b.vn"
      (at 1 5 ∷ ((at 2 6 ∷ []) ++ at 3 7 ∷ (at 4 8 ∷ []))) empty

first-IsWrong : IsWrong redis limits (ports_of active) "a@b.vn" (at 1 5)
unfolding handlers
first-IsWrong = refl

second-IsWrong : IsWrong redis limits (ports_of active) "a@b.vn" (at 2 6)
unfolding handlers
second-IsWrong = refl

third-IsWrong : IsWrong redis limits (ports_of active) "a@b.vn" (at 3 7)
unfolding handlers
third-IsWrong = refl

guessing_locks_example :
    login redis limits (ports_of active) "a@b.vn" 10 900006 after ≡ (err account_locked, after)
guessing_locks_example =
    guessing_locks redis-IsRedis limits (ports_of active) "a@b.vn" (at 1 5) (at 3 7) (at 2 6 ∷ [])
      (at 4 8 ∷ []) (at 10 900006) empty refl refl (omega arith) first-IsWrong (second-IsWrong, tt)
      third-IsWrong (omega arith, tt) (omega arith) (omega arith, tt) (omega arith)

login_indistinct_example :
    login redis limits (ports_of blocked) "a@b.vn" 3 5 empty
    ≡ login redis limits nobody "a@b.vn" 3 5 empty
login_indistinct_example =
    login_indistinct redis limits (ports_of blocked) nobody "a@b.vn" (user_of blocked) 17 3 5 empty
      refl refl refl refl
