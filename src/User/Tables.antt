-- ===== src/User/Tables.antt =====
-- The rows of users, with their profiles, and of refresh tokens (UserPrismaRepository,
-- SessionRevocationAdapter). The statuses and the tokens are those of the auth module.
use Prim.Native.String.{String}
use recruitment_platform_be.Prelude.{
  ℕ, Bool, true, false, Option, none, some, List, [], ◌∷◌, map, ◌==◌, ◌&&◌, find, count, is_some,
  if◌then◌else◌,
}
use recruitment_platform_be.Prelude.Action.{ok, err}
use recruitment_platform_be.Common.Tables.{Change, failed}
use recruitment_platform_be.Auth.Database.{UserStatus, StoredRefreshToken, revoked}

pub data UserRole : Type 0 where
  candidate recruiter admin : UserRole

abbrev pub same_role : UserRole → UserRole → Bool
same_role candidate candidate = true
same_role recruiter recruiter = true
same_role admin admin = true
same_role _ _ = false

abbrev pub is_active : UserStatus → Bool
is_active UserStatus.active = true
is_active UserStatus.pending = false
is_active UserStatus.blocked = false

abbrev pub is_blocked : UserStatus → Bool
is_blocked UserStatus.blocked = true
is_blocked UserStatus.pending = false
is_blocked UserStatus.active = false

pub record Profile : Type 0 where
  pub full_name : String
  pub phone_number : Option String
  pub gender : Option String
  pub birth_date : Option ℕ
  pub avatar_url : Option String
  pub headline : Option String
  pub summary : Option String

pub record User : Type 0 where
  pub id : ℕ
  pub email : String
  pub password : Option ℕ
  pub google_id : Option String
  pub facebook_id : Option String
  pub role : UserRole
  pub status : UserStatus
  pub company_id : Option ℕ
  pub profile : Option Profile

pub record Tables : Type 0 where
  pub users : List User
  pub refresh_tokens : List StoredRefreshToken

unfoldable pub find_by_id : (id : ℕ) → Tables → Option User
find_by_id id t = find (λ u. u.id == id) t.users

-- `status = ACTIVE` and the role ADMIN
abbrev pub is_active_admin : User → Bool
is_active_admin u = is_active u.status && same_role u.role admin

unfoldable pub count_active_admins : Tables → ℕ
count_active_admins t = count is_active_admin t.users

-- `update` of the row that the primary key picks
abbrev pub replace_user : User → List User → List User
replace_user x [] = []
replace_user x (u ∷ us) = let rest = replace_user x us in if u.id == x.id then x ∷ us else u ∷ rest

-- `save` of a user that has an id
unfoldable pub save : User → Change Tables
save x t =
    if is_some (find (λ u. u.id == x.id) t.users)
    then ok (record t { users = replace_user x t.users })
    else err failed

-- A row without a profile cannot be updated through it.
unfoldable pub save_profile : (user_id : ℕ) → (Profile → Profile) → Change Tables
unfolding find_by_id
save_profile user_id edit t = elim (find_by_id user_id t) [
  | none ↦ err failed
  | some u ↦ elim u.profile [
    | none ↦ err failed
    | some p ↦ ok (record t { users = replace_user (record u { profile = some (edit p) }) t.users })
  ]
]

unfoldable pub revoke_all_for_user : (user_id now : ℕ) → Change Tables
revoke_all_for_user user_id now t = ok (record t {
  refresh_tokens = map (λ r. if r.user_id == user_id then revoked now r else r) t.refresh_tokens;
})
