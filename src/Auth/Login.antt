-- ===== src/Auth/Login.antt =====
-- src/modules/auth/application/queries/login.query.ts, with Redis configured. The users are what the
-- lookup by address finds, `compare_password` is bcrypt's, and `dummy` the hash that is compared
-- when there is none.
pub mod Failures
pub mod Guessing
use Prim.Native.String.{String}
use recruitment_platform_be.Prelude.{
  ℕ, Bool, true, false, not, Option, none, some, ◌&&◌, is_some, or_else, if◌then◌else◌,
}
use recruitment_platform_be.Prelude.Action.{
  Result, ok, err, Action, pure, throw, throw_if, gets, modify, lift, ◌>>=◌, ◌>>◌,
}
use recruitment_platform_be.Auth.Exceptions.{AuthException, invalid_credentials, account_locked}
use recruitment_platform_be.Auth.Database.{AuthUser}
use recruitment_platform_be.Auth.Service.{ensure_active_account}
use recruitment_platform_be.Auth.Lockout.{
  Redis, Limits, is_locked, register_failure, reset_on_success,
}

pub record Ports : Type 0 where
  pub find_user_by_email : (email : String) → Option AuthUser
  pub compare_password : (password hash : ℕ) → Bool
  pub dummy : ℕ

abbrev password_of : Option AuthUser → Option ℕ
password_of none = none
password_of (some user) = user.password

-- The user whose password it is.
unfoldable pub matching : Ports → (email : String) (password : ℕ) → Option AuthUser
matching ports email password =
    let user = ports.find_user_by_email email in
    let is_match = ports.compare_password password (or_else (password_of user) ports.dummy) in
    if is_some (password_of user) && is_match then user else none

module _ {R : Type 0} (redis : Redis R) (limits : Limits) (ports : Ports) where
  unfoldable pub answer :
      (email : String) (now : ℕ) → Option AuthUser → Action AuthException R AuthUser
  unfolding register_failure reset_on_success ensure_active_account
  answer email now none = do
    modify (register_failure redis limits email now)
    throw invalid_credentials
  answer email now (some user) = do
    modify (reset_on_success redis limits email)
    lift (ensure_active_account user.status)
    pure user

  unfoldable pub login : (email : String) (password now : ℕ) → Action AuthException R AuthUser
  unfolding is_locked matching answer
  login email password now = do
    locked ← gets (is_locked redis limits email now)
    throw_if locked account_locked
    answer email now (matching ports email password)
