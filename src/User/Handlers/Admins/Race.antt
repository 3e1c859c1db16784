-- ===== src/User/Handlers/Admins/Race.antt =====
-- Two administrators who demote one another, whose checks overlap.
use recruitment_platform_be.Prelude.{
  ℕ, ◌+◌, ◌<◌, ◌≡◌, ◌≢◌, inl, inr, true, false, none, some, List, [], ◌∷◌, ◌==◌, ==_iff, find,
  arith, sym, ◌∙◌,
}
use recruitment_platform_be.Prelude.Action.{ok}
use recruitment_platform_be.Common.Tables.{Database, IsDatabase}
use recruitment_platform_be.User.Tables.{
  Tables, User, candidate, is_active_admin, find_by_id, count_active_admins, replace_user, save,
  revoke_all_for_user,
}
use recruitment_platform_be.User.Handlers.{
  AdminUpdateUserInput, World, is_revoking, changes_role, apply_update, check_admin_update,
  revoke_sessions, apply_admin_update,
}
use recruitment_platform_be.User.Handlers.Admins.{
  found_id, saved_count, updated_found, revoke_sessions_count,
}

abbrev pub demotion : AdminUpdateUserInput
demotion = record { status = none; role = some candidate }

find-replace_user :
    (k : ℕ) (x : User) (us : List User)
    → (x.id == k) ≡ false
    → find (λ y. y.id == k) (replace_user x us) ≡ find (λ y. y.id == k) us
find-replace_user k x [] h = ground arith
find-replace_user k x (y ∷ us) h =
    ground (arith, find-replace_user k x us h, ==_iff y.id x.id, ==_iff y.id k, ==_iff x.id k)

module _ {S : Type 0} {db : Database S Tables} (laws : IsDatabase db) where
  passes :
      (a b : ℕ) (v : User) (w : World S)
      → a ≢ b
      → find_by_id b (db.tables w.store) ≡ some v
      → 1 < count_active_admins (db.tables w.store)
      → (check_admin_update db a b demotion w).0 ≡ ok v
  unfolding check_admin_update
  passes a b v w differ found two = ground (arith, ==_iff b a)

  revoke_sessions_found :
      (k now user_id : ℕ) (w : World S)
      → find_by_id k (db.tables (revoke_sessions db now user_id true w).1.store)
        ≡ find_by_id k (db.tables w.store)
  unfolding revoke_sessions revoke_all_for_user find_by_id
  revoke_sessions_found k now user_id w =
      elim (laws.commit_outcome (revoke_all_for_user user_id now) w.store) [
        | inl (went, rows) ↦ ground arith
        | inr (e, failed, same) ↦ ground arith
      ]

  saved_elsewhere :
      (k : ℕ) (x : User) (t t' : Tables)
      → (x.id == k) ≡ false
      → save x t ≡ ok t'
      → find_by_id k t' ≡ find_by_id k t
  unfolding save find_by_id
  saved_elsewhere k x t t' other done = ground (arith, find-replace_user k x t.users other)

  -- A demotion that goes through removes the administrator, and leaves another user's row.
  demoted :
      (now b k : ℕ) (v : User) (w w' : World S)
      → find_by_id b (db.tables w.store) ≡ some v
      → is_active_admin v ≡ true
      → (b == k) ≡ false
      → apply_admin_update db now b demotion v w ≡ (ok tt, w')
      → (count_active_admins (db.tables w'.store) + 1 ≡ count_active_admins (db.tables w.store))
        × (find_by_id k (db.tables w'.store) ≡ find_by_id k (db.tables w.store))
  unfolding apply_admin_update is_revoking apply_update changes_role find_by_id
  demoted now b k v w w' found active_admin other h =
      let x = apply_update demotion v in
      let s₁ = (db.commit (save x) w.store).1 in
      elim (laws.commit_outcome (save x) w.store) [
        | inr (e, failed, same) ↦ absurd (ground arith)
        | inl (went, rows) ↦ (
          ground (
            arith,
            revoke_sessions_count laws now b true (record w { store = s₁ }),
            saved_count x v (db.tables w.store) (db.tables s₁),
            updated_found b demotion v (db.tables w.store) found,
          ),
          ground (
            arith,
            revoke_sessions_found k now b (record w { store = s₁ }),
            found_id b v (db.tables w.store).users found,
            saved_elsewhere k x (db.tables w.store) (db.tables s₁),
          ),
        )
      ]

  -- Two active administrators demote one another at the same moment, and the database does not
  -- fail. Both requests pass the checks if two administrators are active, and once both are carried
  -- out there are two active administrators less: none, if there were no others.
  pub demotion_race :
      (a b now : ℕ) (u v : User) (w w₁ w₂ : World S)
      → a ≢ b
      → find_by_id a (db.tables w.store) ≡ some u
      → find_by_id b (db.tables w.store) ≡ some v
      → is_active_admin u ≡ true
      → is_active_admin v ≡ true
      → 1 < count_active_admins (db.tables w.store)
      → apply_admin_update db now b demotion v w ≡ (ok tt, w₁)
      → apply_admin_update db now a demotion u w₁ ≡ (ok tt, w₂)
      → ((check_admin_update db a b demotion w).0 ≡ ok v)
        × ((check_admin_update db b a demotion w).0 ≡ ok u)
        × (count_active_admins (db.tables w₂.store) + 2 ≡ count_active_admins (db.tables w.store))
  demotion_race a b now u v w w₁ w₂ differ found found' one other two first second =
      let ab : (a == b) ≡ false = ground (arith, ==_iff a b) in
      let ba : (b == a) ≡ false = ground (arith, ==_iff b a) in
      let after = demoted now b a v w w₁ found' other ba first in
      let finally = demoted now a b u w₁ w₂ (after.1 ∙ found) one ab second in
      (
        passes a b v w differ found' two,
        passes b a u w (λ e. differ (sym e)) found two,
        omega (arith, after.0, finally.0),
      )
