-- ===== src/User/Handlers.antt =====
-- AdminUpdateUserStatusHandler and UpdateProfileHandler. `is_owned_url` is what the storage says of a
-- URL that it has issued.
pub mod Admins
use Prim.Native.String
use Prim.Native.String.{String}
use recruitment_platform_be.Prelude.{
  ℕ, Bool, true, false, not, Option, none, some, List, [], ◌∷◌, ◌++◌, ◌==◌, ◌&&◌, ◌||◌, leb,
  or_else, if◌then◌else◌,
}
use recruitment_platform_be.Prelude.Action.{
  Result, ok, err, Action, pure, throw_if, gets, modify, or_throw, ◌>>=◌, ◌>>◌,
}
use recruitment_platform_be.Common.Tables.{Database, Change}
use recruitment_platform_be.Auth.Database.{UserStatus}
use recruitment_platform_be.User.Exceptions.{
  UserException, user_not_found, cannot_modify_own_account, cannot_remove_last_admin,
  invalid_avatar_url, unexpected,
}
use recruitment_platform_be.User.Tables.{
  Tables, User, UserRole, Profile, admin, same_role, is_active, is_blocked, find_by_id,
  count_active_admins, save, save_profile, revoke_all_for_user,
}

pub record AdminUpdateUserInput : Type 0 where
  pub status : Option UserStatus
  pub role : Option UserRole

pub record UpdateProfileInput : Type 0 where
  pub full_name : Option String
  pub phone_number : Option String
  pub gender : Option String
  pub birth_date : Option ℕ
  pub avatar_url : Option String

-- The users of the USER_SESSION_REVOKED_EVENTs.
pub record World (S : Type 0) : Type 0 where
  pub store : S
  pub revocations : List ℕ

-- `input.status && input.status !== UserStatus.ACTIVE`
unfoldable pub takes_access : Option UserStatus → Bool
takes_access none = false
takes_access (some s) = not (is_active s)

-- `input.role && input.role !== role`
unfoldable pub changes_role : Option UserRole → UserRole → Bool
changes_role none role = false
changes_role (some r) role = not (same_role r role)

unfoldable pub is_removing_admin_access : AdminUpdateUserInput → User → Bool
unfolding takes_access changes_role
is_removing_admin_access input u =
    same_role u.role admin && (takes_access input.status || changes_role input.role admin)

abbrev is_blocking : Option UserStatus → Bool
is_blocking none = false
is_blocking (some s) = is_blocked s

unfoldable pub is_revoking : AdminUpdateUserInput → User → Bool
unfolding changes_role
is_revoking input u = is_blocking input.status || changes_role input.role u.role

-- `changeStatus` and `changeRole`
unfoldable pub apply_update : AdminUpdateUserInput → User → User
apply_update input u = record u {
  status = or_else input.status u.status;
  role = or_else input.role u.role;
}

abbrev kept : {A : Type 0} → Option A → Option A → Option A
kept none old = old
kept (some a) old = some a

unfoldable pub apply_profile : UpdateProfileInput → Profile → Profile
apply_profile input p = record p {
  full_name = or_else input.full_name p.full_name;
  phone_number = kept input.phone_number p.phone_number;
  gender = kept input.gender p.gender;
  birth_date = kept input.birth_date p.birth_date;
  avatar_url = kept input.avatar_url p.avatar_url;
}

abbrev is_empty : String → Bool
is_empty String.[] = true
is_empty (String.◌∷◌ c s) = false

-- `input.avatarUrl && !isOwnedUrl(input.avatarUrl)`
abbrev foreign_url : (String → Bool) → Option String → Bool
foreign_url is_owned_url none = false
foreign_url is_owned_url (some url) = not (is_empty url || is_owned_url url)

module _ {S : Type 0} (db : Database S Tables) where
  abbrev write : Change Tables → Action UserException (World S) (Unit {0})
  write change w = (
    elim (db.commit change w.store).0 [ ok _ ↦ ok tt | err e ↦ err unexpected ],
    record w { store = (db.commit change w.store).1 },
  )

  abbrev emit_session_revoked : (user_id : ℕ) → Action UserException (World S) (Unit {0})
  emit_session_revoked user_id =
      modify (λ w. record w { revocations = w.revocations ++ user_id ∷ [] })

  -- Up to the checks.
  unfoldable pub check_admin_update :
      (acting_admin_id user_id : ℕ) → AdminUpdateUserInput → Action UserException (World S) User
  unfolding find_by_id takes_access changes_role is_removing_admin_access count_active_admins
  check_admin_update acting user_id input = do
    user ← or_throw (← gets (λ w. find_by_id user_id (db.tables w.store))) user_not_found
    throw_if (user_id == acting && (takes_access input.status || changes_role input.role user.role))
        cannot_modify_own_account
    active_admins ← gets (λ w. count_active_admins (db.tables w.store))
    throw_if (is_removing_admin_access input user && leb active_admins 1) cannot_remove_last_admin
    pure user

  unfoldable pub revoke_sessions :
      (now user_id : ℕ) → Bool → Action UserException (World S) (Unit {0})
  unfolding revoke_all_for_user
  revoke_sessions now user_id false = pure tt
  revoke_sessions now user_id true = do
    write (revoke_all_for_user user_id now)
    emit_session_revoked user_id

  unfoldable pub apply_admin_update :
      (now user_id : ℕ) → AdminUpdateUserInput → User → Action UserException (World S) (Unit {0})
  unfolding apply_update save is_revoking revoke_sessions
  apply_admin_update now user_id input user = do
    write (save (apply_update input user))
    revoke_sessions now user_id (is_revoking input user)

  unfoldable pub admin_update_user_status :
      (now acting_admin_id user_id : ℕ)
      → AdminUpdateUserInput
      → Action UserException (World S) (Unit {0})
  unfolding check_admin_update apply_admin_update
  admin_update_user_status now acting user_id input = do
    user ← check_admin_update acting user_id input
    apply_admin_update now user_id input user

  unfoldable pub update_profile :
      (is_owned_url : String → Bool) (user_id : ℕ)
      → UpdateProfileInput
      → Action UserException (World S) (Unit {0})
  unfolding find_by_id apply_profile save_profile
  update_profile is_owned_url user_id input = do
    user ← or_throw (← gets (λ w. find_by_id user_id (db.tables w.store))) user_not_found
    throw_if (foreign_url is_owned_url input.avatar_url) invalid_avatar_url
    write (save_profile user_id (apply_profile input))
