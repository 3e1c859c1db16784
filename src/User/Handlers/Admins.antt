-- ===== src/User/Handlers/Admins.antt =====
-- Whether an active administrator is left, and what an update of an account does.
pub mod Effects
pub mod Race
use Prim.Native.String.{String}
use recruitment_platform_be.Prelude.{
  ℕ, ◌+◌, ◌≡◌, ◌≤◌, ◌<◌, inl, inr, Bool, true, false, not, Option, none, some, List, [], ◌∷◌, ◌==◌,
  ==_iff, find, count, refl, leb, ◌&&◌, arith, Option-cases, Bool-cases, if◌then◌else◌,
}
use recruitment_platform_be.Prelude.Action.{Result, ok, err, Result-cases}
use recruitment_platform_be.Common.Tables.{Database, IsDatabase}
use recruitment_platform_be.User.Tables.{
  Tables, User, Profile, admin, is_active_admin, find_by_id, count_active_admins, replace_user,
  save, save_profile, revoke_all_for_user,
}
use recruitment_platform_be.User.Handlers.{
  AdminUpdateUserInput, UpdateProfileInput, World, takes_access, changes_role,
  is_removing_admin_access, is_revoking, apply_update, apply_profile, check_admin_update,
  revoke_sessions, apply_admin_update, admin_update_user_status, update_profile,
}

pub data Command : Type 0 where
  update_user : (now acting_admin_id user_id : ℕ) → AdminUpdateUserInput → Command
  edit_profile : (is_owned_url : String → Bool) (user_id : ℕ) → UpdateProfileInput → Command

module _ {S : Type 0} (db : Database S Tables) where
  abbrev pub execute : Command → World S → World S
  execute (update_user now acting user_id input) w =
      (admin_update_user_status db now acting user_id input w).1
  execute (edit_profile own user_id input) w = (update_profile db own user_id input w).1

  unfoldable pub run : List Command → World S → World S
  run [] w = w
  run (c ∷ cs) w = run cs (execute c w)

abbrev pub ones : Bool → ℕ
ones true = 1
ones false = 0

pub found_id : (k : ℕ) (u : User) (us : List User) → find (λ x. x.id == k) us ≡ some u → u.id ≡ k
found_id k u [] h = ground arith
found_id k u (x ∷ us) h = ground (arith, found_id k u us, ==_iff x.id k)

-- Replacing the row that was found moves the count by what the two rows differ.
count-replace_user :
    (x u : User) (us : List User)
    → find (λ y. y.id == x.id) us ≡ some u
    → count is_active_admin (replace_user x us) + ones (is_active_admin u)
      ≡ count is_active_admin us + ones (is_active_admin x)
count-replace_user x u [] h = ground arith
count-replace_user x u (y ∷ us) h = ground (arith, count-replace_user x u us)

pub saved_count :
    (x u : User) (t t' : Tables)
    → find_by_id x.id t ≡ some u
    → save x t ≡ ok t'
    → count_active_admins t' + ones (is_active_admin u)
      ≡ count_active_admins t + ones (is_active_admin x)
unfolding save find_by_id count_active_admins
saved_count x u t t' found done = ground (arith, count-replace_user x u t.users)

saved_profile_count :
    (user_id : ℕ) (edit : Profile → Profile) (t t' : Tables)
    → save_profile user_id edit t ≡ ok t'
    → count_active_admins t' ≡ count_active_admins t
unfolding save_profile find_by_id count_active_admins
saved_profile_count user_id edit t t' done =
    elim (Option-cases (find (λ x. x.id == user_id) t.users)) [
      | inl missing ↦ ground arith
      | inr (u, found) ↦ elim (Option-cases u.profile) [
        | inl missing ↦ ground arith
        | inr (p, there) ↦
            let x = record u { profile = some (edit p) } in
            ground (arith, found_id user_id u t.users found, count-replace_user x u t.users)
      ]
    ]

-- An update that takes nothing from an administrator leaves an administrator.
harmless_update :
    (input : AdminUpdateUserInput) (u : User)
    → is_removing_admin_access input u ≡ false
    → is_active_admin u ≡ true
    → is_active_admin (apply_update input u) ≡ true
unfolding is_removing_admin_access apply_update takes_access changes_role
harmless_update input u h k = ground arith

pub updated_found :
    (user_id : ℕ) (input : AdminUpdateUserInput) (u : User) (t : Tables)
    → find_by_id user_id t ≡ some u
    → find_by_id (apply_update input u).id t ≡ some u
unfolding find_by_id apply_update
updated_found user_id input u t found = ground (arith, found_id user_id u t.users found)

module _ {S : Type 0} {db : Database S Tables} (laws : IsDatabase db) where
  checked :
      (acting user_id : ℕ) (input : AdminUpdateUserInput) (u : User) (w : World S)
      → (check_admin_update db acting user_id input w).0 ≡ ok u
      → find_by_id user_id (db.tables w.store) ≡ some u
  unfolding check_admin_update
  checked acting user_id input u w h =
      elim (Option-cases (find_by_id user_id (db.tables w.store))) [
        | inl missing ↦ ground arith
        | inr (x, found) ↦ ground arith
      ]

  check_world :
      (acting user_id : ℕ) (input : AdminUpdateUserInput) (w : World S)
      → (check_admin_update db acting user_id input w).1 ≡ w
  unfolding check_admin_update
  check_world acting user_id input w =
      elim (Option-cases (find_by_id user_id (db.tables w.store))) [
        | inl missing ↦ ground arith
        | inr (x, found) ↦ ground arith
      ]

  checked_admins :
      (acting user_id : ℕ) (input : AdminUpdateUserInput) (u : User) (w : World S)
      → (check_admin_update db acting user_id input w).0 ≡ ok u
      → (is_removing_admin_access input u && leb (count_active_admins (db.tables w.store)) 1)
        ≡ false
  unfolding check_admin_update
  checked_admins acting user_id input u w h =
      elim (Option-cases (find_by_id user_id (db.tables w.store))) [
        | inl missing ↦ ground arith
        | inr (x, found) ↦ ground arith
      ]

  pub revoke_sessions_count :
      (now user_id : ℕ) (b : Bool) (w : World S)
      → count_active_admins (db.tables (revoke_sessions db now user_id b w).1.store)
        ≡ count_active_admins (db.tables w.store)
  unfolding revoke_sessions revoke_all_for_user count_active_admins
  revoke_sessions_count now user_id false w = refl
  revoke_sessions_count now user_id true w =
      elim (laws.commit_outcome (revoke_all_for_user user_id now) w.store) [
        | inl (went, rows) ↦ ground arith
        | inr (e, failed, same) ↦ ground arith
      ]

  apply_keeps_admin :
      (now user_id : ℕ) (input : AdminUpdateUserInput) (u : User) (w : World S)
      → find_by_id user_id (db.tables w.store) ≡ some u
      → (is_removing_admin_access input u && leb (count_active_admins (db.tables w.store)) 1)
        ≡ false
      → 0 < count_active_admins (db.tables w.store)
      → 0 < count_active_admins (db.tables (apply_admin_update db now user_id input u w).1.store)
  unfolding apply_admin_update
  apply_keeps_admin now user_id input u w found allowed some_admin =
      let x = apply_update input u in
      let s₁ = (db.commit (save x) w.store).1 in
      let revoking = is_revoking input u in
      elim (laws.commit_outcome (save x) w.store) [
        | inl (went, rows) ↦ ground (
          arith,
          revoke_sessions_count now user_id revoking (record w { store = s₁ }),
          saved_count x u (db.tables w.store) (db.tables s₁),
          updated_found user_id input u (db.tables w.store),
          harmless_update input u,
        )
        | inr (e, failed, same) ↦ ground arith
      ]

  execute_keeps_admin :
      (c : Command) (w : World S)
      → 0 < count_active_admins (db.tables w.store)
      → 0 < count_active_admins (db.tables (execute db c w).store)
  unfolding admin_update_user_status update_profile
  execute_keeps_admin (update_user now acting user_id input) w h =
      elim (Result-cases (check_admin_update db acting user_id input w).0) [
        | inl (u, e) ↦ ground (
          arith,
          check_world acting user_id input w,
          apply_keeps_admin now user_id input u w (checked acting user_id input u w e)
              (checked_admins acting user_id input u w e) h,
        )
        | inr (x, e) ↦ ground (arith, check_world acting user_id input w)
      ]
  execute_keeps_admin (edit_profile own user_id input) w h =
      let change = save_profile user_id (apply_profile input) in
      let s₁ = (db.commit change w.store).1 in
      elim (laws.commit_outcome change w.store) [
        | inl (went, rows) ↦ ground (
          arith,
          saved_profile_count user_id (apply_profile input) (db.tables w.store) (db.tables s₁),
        )
        | inr (e, failed, same) ↦ ground arith
      ]

  -- An active administrator is left after any commands, one after the other and failed ones
  -- included, if there was one before.
  pub run_keeps_admin :
      (cs : List Command) (w : World S)
      → 0 < count_active_admins (db.tables w.store)
      → 0 < count_active_admins (db.tables (run db cs w).store)
  unfolding run
  run_keeps_admin [] w h = h
  run_keeps_admin (c ∷ cs) w h = run_keeps_admin cs (execute db c w) (execute_keeps_admin c w h)
