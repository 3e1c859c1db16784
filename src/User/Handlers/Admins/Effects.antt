-- ===== src/User/Handlers/Admins/Effects.antt =====
-- What an update of an account does when it succeeds, and two updates whose checks overlap.
use recruitment_platform_be.Prelude.{
  or_else, ◌≢◌, Option, none, ==_iff, ℕ, ◌≡◌, inl, inr, Bool, true, false, not, some, List, [], ◌∷◌,
  ◌++◌, map, ◌==◌, ◌||◌, ◌&&◌, ◌⊎◌, all, is_some, refl, arith, Option-cases, Bool-cases,
  if◌then◌else◌,
}
use recruitment_platform_be.Prelude.Action.{ok}
use recruitment_platform_be.Common.Tables.{Database, IsDatabase}
use recruitment_platform_be.Auth.Database.{
  UserStatus, pending, active, blocked, StoredRefreshToken, revoked,
}
use recruitment_platform_be.User.Tables.{
  UserRole, candidate, recruiter, admin, same_role, is_blocked, Tables, User, find_by_id,
  replace_user, save, revoke_all_for_user,
}
use recruitment_platform_be.User.Handlers.{
  AdminUpdateUserInput, World, is_revoking, takes_access, changes_role, apply_update,
  check_admin_update, revoke_sessions, apply_admin_update, admin_update_user_status,
}

-- No session of the user is left.
abbrev pub is_signed_out : (user_id : ℕ) → List StoredRefreshToken → Bool
is_signed_out user_id = all (λ r. not (r.user_id == user_id) || is_some r.revoked_at)

signed_out :
    (user_id now : ℕ) (rs : List StoredRefreshToken)
    → is_signed_out user_id (map (λ r. if r.user_id == user_id then revoked now r else r) rs) ≡ true
signed_out user_id now [] = refl
signed_out user_id now (r ∷ rs) = ground (arith, signed_out user_id now rs)

-- The row that an update asks for: what it leaves out is kept.
abbrev pub asked_for : AdminUpdateUserInput → User → User
asked_for input u = record u {
  status = or_else input.status u.status;
  role = or_else input.role u.role;
}

same_role_refl : (r : UserRole) → same_role r r ≡ true
same_role_refl candidate = refl
same_role_refl recruiter = refl
same_role_refl admin = refl

same_role_iff : (r t : UserRole) → same_role r t ≡ true → r ≡ t
same_role_iff candidate candidate h = refl
same_role_iff recruiter recruiter h = refl
same_role_iff admin admin h = refl
same_role_iff r t h = ground arith

status_guard : (s : Option UserStatus) → takes_access s ≡ false → or_else s active ≡ active
unfolding takes_access
status_guard none h = refl
status_guard (some active) h = refl
status_guard (some pending) h = absurd (ground arith)
status_guard (some blocked) h = absurd (ground arith)

role_guard : (r : Option UserRole) (t : UserRole) → changes_role r t ≡ false → or_else r t ≡ t
unfolding changes_role
role_guard none t h = refl
role_guard (some r) t h = same_role_iff r t (ground arith)

changed_role : (r : Option UserRole) (t : UserRole) → changes_role r t ≡ true → or_else r t ≢ t
unfolding changes_role
changed_role none t h e = absurd (ground arith)
changed_role (some r) t h e = absurd (ground (arith, same_role_refl t))

is_revoking-cases :
    (input : AdminUpdateUserInput) (u : User)
    → ((is_revoking input u ≡ true)
        × ((input.status ≡ some blocked) ⊎ ((asked_for input u).role ≢ u.role)))
      ⊎ ((is_revoking input u ≡ false)
          × (input.status ≢ some blocked)
          × ((asked_for input u).role ≡ u.role))
unfolding is_revoking
is_revoking-cases input u = elim (Bool-cases (changes_role input.role u.role)) [
  | inl changes ↦ inl (ground arith, inr (changed_role input.role u.role changes))
  | inr same ↦ elim (Option-cases input.status) [
    | inl missing ↦ inr (ground arith, ground arith, role_guard input.role u.role same)
    | inr (s, asked) ↦ elim (Bool-cases (is_blocked s)) [
      | inl blocks ↦ inl (ground arith, inl (ground arith))
      | inr spares ↦ inr (ground arith, ground arith, role_guard input.role u.role same)
    ]
  ]
]

self_guard :
    (acting user_id : ℕ) (input : AdminUpdateUserInput) (u : User)
    → (user_id == acting && (takes_access input.status || changes_role input.role u.role)) ≡ false
    → (user_id ≢ acting)
      ⊎ ((or_else input.status active ≡ active) × ((asked_for input u).role ≡ u.role))
unfolding takes_access changes_role
self_guard acting user_id input u h = elim (Bool-cases (user_id == acting)) [
  | inr other ↦ inl (ground (arith, ==_iff user_id acting))
  | inl own ↦
      inr (status_guard input.status (ground arith), role_guard input.role u.role (ground arith))
]

module _ {S : Type 0} {db : Database S Tables} (laws : IsDatabase db) where
  -- When an update succeeds, the account was there, and if it is the administrator's own, the update
  -- asks for no status but ACTIVE and no other role. The row of the account has the status and the
  -- role that the update asks for, and is otherwise as it was, like every other row. If the update
  -- asks for BLOCKED or the role has changed, no refresh token of the user is valid and the event is
  -- emitted; otherwise tokens and events are as they were.
  pub admin_update_user_status_accepted :
      (now acting user_id : ℕ) (input : AdminUpdateUserInput) (w w' : World S)
      → admin_update_user_status db now acting user_id input w ≡ (ok tt, w')
      → (u : User) × (find_by_id user_id (db.tables w.store) ≡ some u)
        × ((user_id ≢ acting)
            ⊎ ((or_else input.status active ≡ active) × ((asked_for input u).role ≡ u.role)))
        × ((db.tables w'.store).users ≡ replace_user (asked_for input u) (db.tables w.store).users)
        × ((((input.status ≡ some blocked) ⊎ ((asked_for input u).role ≢ u.role))
              × (is_signed_out user_id (db.tables w'.store).refresh_tokens ≡ true)
              × (w'.revocations ≡ w.revocations ++ user_id ∷ []))
            ⊎ ((input.status ≢ some blocked)
                × ((asked_for input u).role ≡ u.role)
                × ((db.tables w'.store).refresh_tokens ≡ (db.tables w.store).refresh_tokens)
                × (w'.revocations ≡ w.revocations)))
  unfolding admin_update_user_status check_admin_update apply_admin_update revoke_sessions save
      revoke_all_for_user apply_update
  admin_update_user_status_accepted now acting user_id input w w' h =
      elim (Option-cases (find_by_id user_id (db.tables w.store))) [
        | inl missing ↦ absurd (ground arith)
        | inr (u, found) ↦
            let x = asked_for input u in
            let s₁ = (db.commit (save x) w.store).1 in
            let own = self_guard acting user_id input u in
            elim (laws.commit_outcome (save x) w.store) [
              | inr (e, failed, same) ↦ absurd (ground arith)
              | inl (went, rows) ↦ elim (is_revoking-cases input u) [
                | inr (no_revoking, not_blocked, same_role') ↦ (
                  u,
                  found,
                  own (ground arith),
                  ground arith,
                  inr (not_blocked, same_role', ground arith, ground arith),
                )
                | inl (revoking, why) ↦
                    elim (laws.commit_outcome (revoke_all_for_user user_id now) s₁) [
                      | inr (e, failed, same) ↦ absurd (ground arith)
                      | inl (went', rows') ↦ (
                        u,
                        found,
                        own (ground arith),
                        ground arith,
                        inl (
                          why,
                          ground (arith, signed_out user_id now (db.tables s₁).refresh_tokens),
                          ground arith,
                        ),
                      )
                    ]
              ]
            ]
      ]
