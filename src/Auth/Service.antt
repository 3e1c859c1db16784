-- ===== src/Auth/Service.antt =====
-- src/modules/auth/application: AuthService, and the commands on codes and passwords. `now` is what
-- the clock says and `fresh` the random identifier of a new token. bcrypt, SHA-256 and the JWT library
-- are parameters.
pub mod Requests
pub mod Rotation
pub mod Verification
use recruitment_platform_be.Prelude.{
  ℕ, Bool, true, false, not, Option, none, some, List, [], ◌∷◌, ◌++◌, ◌==◌, if◌then◌else◌,
}
use recruitment_platform_be.Prelude.Action.{
  Result, ok, err, Action, pure, throw_if, gets, modify, or_throw, lift, ◌>>=◌, ◌>>◌,
}
use recruitment_platform_be.Auth.Exceptions.{
  AuthException, user_not_found, invalid_verification_code, account_blocked, email_not_verified,
  invalid_old_password, invalid_refresh_token, refresh_token_access_denied,
  invalid_or_expired_exchange_code, unexpected,
}
use recruitment_platform_be.Auth.Database.{
  Database, AuthUser, UserStatus, StoredRefreshToken, Write, pending, active, blocked, valid_token,
  valid_code,
}

pub record Crypto : Type 0 where
  pub hash_token : (token : ℕ) → ℕ
  -- the user of a refresh token whose signature and expiry are right
  pub verify : (now token : ℕ) → Option ℕ
  -- the `exp` of a token, in milliseconds
  pub decode : (token : ℕ) → ℕ
  pub sign_access : AuthUser → (now : ℕ) → ℕ
  pub sign_refresh : AuthUser → (now fresh : ℕ) → ℕ
  pub compare_password : (password hash : ℕ) → Bool
  pub hash_password : (password fresh : ℕ) → ℕ

pub record Tokens : Type 0 where
  pub access_token : ℕ
  pub refresh_token : ℕ

-- The users of the USER_SESSION_REVOKED_EVENTs.
pub record World (S : Type 0) : Type 0 where
  pub store : S
  pub revocations : List ℕ

unfoldable pub ensure_active_account : UserStatus → Result AuthException (Unit {0})
ensure_active_account UserStatus.blocked = err account_blocked
ensure_active_account UserStatus.pending = err email_not_verified
ensure_active_account UserStatus.active = ok tt

module _ {S : Type 0} (db : Database S) (crypto : Crypto) where
  abbrev write : (S → Write S) → Action AuthException (World S) (Unit {0})
  write put w = (
    elim (put w.store).0 [ ok _ ↦ ok tt | err e ↦ err unexpected ],
    record w { store = (put w.store).1 },
  )

  abbrev emit_session_revoked : (user_id : ℕ) → Action AuthException (World S) (Unit {0})
  emit_session_revoked user_id =
      modify (λ w. record w { revocations = w.revocations ++ user_id ∷ [] })

  -- `getTokens` and `storeRefreshToken`
  unfoldable pub issue_tokens : (now fresh : ℕ) → AuthUser → Action AuthException (World S) Tokens
  issue_tokens now fresh user = do
    let token : ℕ = crypto.sign_refresh user now fresh
    write (db.create_token user.id (crypto.hash_token token) (crypto.decode token))
    pure (record { access_token = crypto.sign_access user now; refresh_token = token })

  -- Up to the check on the account.
  unfoldable pub check_refresh : (now token : ℕ) → Action AuthException (World S) AuthUser
  unfolding ensure_active_account valid_token
  check_refresh now token = do
    user_id ← or_throw (crypto.verify now token) invalid_refresh_token
    stored ←
        or_throw (← gets (λ w. valid_token now (db.find_token (crypto.hash_token token) w.store)))
          refresh_token_access_denied
    throw_if (not (stored.user_id == user_id)) refresh_token_access_denied
    user ← or_throw (← gets (λ w. db.find_user user_id w.store)) refresh_token_access_denied
    lift (ensure_active_account user.status)
    pure user

  -- The rotation: the old token is revoked, a new pair is issued.
  unfoldable pub rotate : (now token fresh : ℕ) → AuthUser → Action AuthException (World S) Tokens
  unfolding issue_tokens
  rotate now token fresh user = do
    write (db.revoke_by_hash user.id (crypto.hash_token token) now)
    issue_tokens now fresh user

  unfoldable pub refresh_tokens : (now token fresh : ℕ) → Action AuthException (World S) Tokens
  unfolding check_refresh rotate
  refresh_tokens now token fresh = do user ← check_refresh now token; rotate now token fresh user

  unfoldable pub exchange_social_code : (now code fresh : ℕ) → Action AuthException (World S) Tokens
  unfolding issue_tokens ensure_active_account valid_code
  exchange_social_code now code fresh = do
    stored ←
        or_throw
          (← gets (λ w. valid_code now (db.find_login_code (crypto.hash_token code) w.store)))
          invalid_or_expired_exchange_code
    write (db.mark_login_code_used stored.id now)
    user ←
        or_throw (← gets (λ w. db.find_user stored.user_id w.store))
          invalid_or_expired_exchange_code
    lift (ensure_active_account user.status)
    issue_tokens now fresh user

  unfoldable pub logout : (now user_id token : ℕ) → Action AuthException (World S) (Unit {0})
  logout now user_id token = do
    write (db.revoke_by_hash user_id (crypto.hash_token token) now)
    emit_session_revoked user_id

  unfoldable pub logout_all : (now user_id : ℕ) → Action AuthException (World S) (Unit {0})
  logout_all now user_id = do
    write (db.revoke_all_for_user user_id now)
    emit_session_revoked user_id

  unfoldable pub verify_email : (now code : ℕ) → Action AuthException (World S) (Unit {0})
  unfolding valid_code
  verify_email now code = do
    token ←
        or_throw
          (← gets
            (λ w. valid_code now (db.find_email_verification (crypto.hash_token code) w.store)))
          invalid_verification_code
    user ← or_throw (← gets (λ w. db.find_user token.user_id w.store)) invalid_verification_code
    write (db.mark_code_used token.id now)
    write (db.save_user (record user { status = active }))

  unfoldable pub reset_password :
      (now code new_password fresh : ℕ) → Action AuthException (World S) (Unit {0})
  unfolding valid_code
  reset_password now code new_password fresh = do
    token ←
        or_throw
          (← gets (λ w. valid_code now (db.find_password_reset (crypto.hash_token code) w.store)))
          invalid_verification_code
    user ← or_throw (← gets (λ w. db.find_user token.user_id w.store)) invalid_verification_code
    write (db.mark_code_used token.id now)
    write (db.save_user (record user { password = some (crypto.hash_password new_password fresh) }))
    write (db.revoke_all_for_user user.id now)
    emit_session_revoked user.id

  -- A social account has no password; then `bcrypt.compare` throws.
  unfoldable pub change_password :
      (now user_id old_password new_password fresh : ℕ) → Action AuthException (World S) (Unit {0})
  change_password now user_id old_password new_password fresh = do
    user ← or_throw (← gets (λ w. db.find_user user_id w.store)) user_not_found
    hash ← or_throw user.password unexpected
    throw_if (not (crypto.compare_password old_password hash)) invalid_old_password
    write (db.save_user (record user { password = some (crypto.hash_password new_password fresh) }))
    write (db.revoke_all_for_user user_id now)
    emit_session_revoked user_id
