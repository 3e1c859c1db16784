-- ===== src/User/Tests.antt =====
-- The commands of the user module on concrete rows, and the theorems at them.
use recruitment_platform_be.Prelude.{
  ℕ, ◌+◌, ◌<◌, ◌≡◌, ◌≢◌, ◌⊎◌, refl, true, none, some, [], ◌∷◌, ◌++◌, arith,
}
use recruitment_platform_be.Prelude.Action.{ok, err}
use recruitment_platform_be.Common.Tables.{memory, memory-IsDatabase}
use recruitment_platform_be.Auth.Database.{active, blocked}
use recruitment_platform_be.User.Exceptions.{cannot_modify_own_account, cannot_remove_last_admin}
use recruitment_platform_be.User.Tables.{
  Tables, User, UserRole, admin, candidate, find_by_id, count_active_admins, replace_user, save,
  save_profile, revoke_all_for_user,
}
use recruitment_platform_be.User.Handlers.{
  AdminUpdateUserInput, World, takes_access, changes_role, is_removing_admin_access, is_revoking,
  apply_update, apply_profile, check_admin_update, revoke_sessions, apply_admin_update,
  admin_update_user_status, update_profile,
}
use recruitment_platform_be.User.Handlers.Admins.{update_user, execute, run, run_keeps_admin}
use recruitment_platform_be.User.Handlers.Admins.Effects.{
  is_signed_out, asked_for, admin_update_user_status_accepted,
}
use recruitment_platform_be.User.Handlers.Admins.Race.{demotion, demotion_race}

handlers : Unit {0}
unfolding find_by_id count_active_admins save save_profile revoke_all_for_user takes_access
    changes_role is_removing_admin_access is_revoking apply_update apply_profile check_admin_update
    revoke_sessions apply_admin_update admin_update_user_status update_profile run
handlers = tt

abbrev user_of : (id : ℕ) → UserRole → User
user_of id role = record {
  id = id;
  email = "a@b.vn";
  password = none;
  google_id = none;
  facebook_id = none;
  role = role;
  status = active;
  company_id = none;
  profile = none;
}

abbrev start : World Tables
start = record {
  store = record {
    users = user_of 1 admin ∷ user_of 2 admin ∷ user_of 3 candidate ∷ [];
    refresh_tokens =
        record { user_id = 3; token_hash = 7; expires_at = 900; revoked_at = none } ∷ [];
  };
  revocations = [];
}

abbrev block : AdminUpdateUserInput
block = record { status = some blocked; role = none }

own_account : (admin_update_user_status memory 5 1 1 block start).0 ≡ err cannot_modify_own_account
unfolding handlers
own_account = refl

last_admin :
    (admin_update_user_status memory 5 1 2 demotion
      (run memory (update_user 4 2 1 demotion ∷ []) start)).0
    ≡ err cannot_remove_last_admin
unfolding handlers
last_admin = refl

two_admins : count_active_admins start.store ≡ 2
unfolding handlers
two_admins = refl

run_keeps_admin_example :
    0
    < count_active_admins
        (run memory (update_user 4 2 1 demotion ∷ update_user 5 1 2 demotion ∷ []) start).store
run_keeps_admin_example =
    run_keeps_admin memory-IsDatabase (update_user 4 2 1 demotion ∷ update_user 5 1 2 demotion ∷ [])
      start (omega (arith, two_admins))

abbrev blocked_third : World Tables
blocked_third = execute memory (update_user 5 1 3 block) start

block_third : admin_update_user_status memory 5 1 3 block start ≡ (ok tt, blocked_third)
unfolding handlers
block_third = refl

admin_update_user_status_accepted_example :
    (u : User) × (find_by_id 3 start.store ≡ some u)
    × ((◌≢◌ {A = ℕ} 3 1) ⊎ ((blocked ≡ active) × ((asked_for block u).role ≡ u.role)))
    × (blocked_third.store.users ≡ replace_user (asked_for block u) start.store.users)
    × ((((some blocked ≡ some blocked) ⊎ ((asked_for block u).role ≢ u.role))
          × (is_signed_out 3 blocked_third.store.refresh_tokens ≡ true)
          × (blocked_third.revocations ≡ [] ++ 3 ∷ []))
        ⊎ ((some blocked ≢ some blocked)
            × ((asked_for block u).role ≡ u.role)
            × (blocked_third.store.refresh_tokens ≡ start.store.refresh_tokens)
            × (blocked_third.revocations ≡ [])))
admin_update_user_status_accepted_example =
    admin_update_user_status_accepted memory-IsDatabase 5 1 3 block start blocked_third block_third

abbrev second_demoted : World Tables
second_demoted = (apply_admin_update memory 5 2 demotion (user_of 2 admin) start).1

abbrev both_demoted : World Tables
both_demoted = (apply_admin_update memory 5 1 demotion (user_of 1 admin) second_demoted).1

found_first : find_by_id 1 start.store ≡ some (user_of 1 admin)
unfolding handlers
found_first = refl

found_second : find_by_id 2 start.store ≡ some (user_of 2 admin)
unfolding handlers
found_second = refl

demote_second :
    apply_admin_update memory 5 2 demotion (user_of 2 admin) start ≡ (ok tt, second_demoted)
unfolding handlers
demote_second = refl

demote_first :
    apply_admin_update memory 5 1 demotion (user_of 1 admin) second_demoted ≡ (ok tt, both_demoted)
unfolding handlers
demote_first = refl

demotion_race_example :
    ((check_admin_update memory 1 2 demotion start).0 ≡ ok (user_of 2 admin))
    × ((check_admin_update memory 2 1 demotion start).0 ≡ ok (user_of 1 admin))
    × (count_active_admins both_demoted.store + 2 ≡ count_active_admins start.store)
demotion_race_example =
    demotion_race memory-IsDatabase 1 2 5 (user_of 1 admin) (user_of 2 admin) start second_demoted
      both_demoted (omega arith) found_first found_second refl refl (omega (arith, two_admins))
      demote_second demote_first
