-- ===== src/Permission/Tests.antt =====
-- The guard and the update of a role on concrete rows, and the theorems at them.
use recruitment_platform_be.Prelude.{◌≡◌, refl, true, none, some, List, [], ◌∷◌}
use recruitment_platform_be.Prelude.Action.{ok, err}
use recruitment_platform_be.Common.Tables.{memory, memory-IsDatabase}
use recruitment_platform_be.Permission.Exceptions.{
  forbidden, permission_not_found, cannot_remove_last_rbac_admin_permission,
}
use recruitment_platform_be.Permission.Tables.{
  Tables, find_role_by_id, find_role_by_name, find_permissions_by_role_id,
  find_permission_names_by_role_name, find_existing_ids, find_id_by_name, role_grants_permission_id,
  count_other_roles_granting_permission_id, replace_permissions, granted,
}
use recruitment_platform_be.Permission.Service.{
  World, valid_entry, permissions_in, get_permissions_for_role, can_activate, locks_out,
  update_role_permissions,
}
use recruitment_platform_be.Permission.Service.Cache.{
  Request, guarded, update, execute, run, decide, guard_refines,
}
use recruitment_platform_be.Permission.Service.Survival.{is_administrable, run_administrable}

service : Unit {0}
unfolding find_role_by_id find_role_by_name granted find_permissions_by_role_id
    find_permission_names_by_role_name find_existing_ids find_id_by_name role_grants_permission_id
    count_other_roles_granting_permission_id replace_permissions valid_entry permissions_in
    get_permissions_for_role can_activate locks_out update_role_permissions run
service = tt

-- Role 1 (named 10) may administer (permission 5, named 50) and post (6, named 60), role 2 may post.
abbrev rows : Tables
rows = record {
  roles = record { id = 1; name = 10 } ∷ record { id = 2; name = 20 } ∷ [];
  permissions = record { id = 5; name = 50 } ∷ record { id = 6; name = 60 } ∷ [];
  role_permissions =
      record { role_id = 1; permission_id = 5 }
      ∷ record { role_id = 1; permission_id = 6 }
      ∷ record { role_id = 2; permission_id = 6 }
      ∷ [];
}

abbrev start : World Tables
start = record { store = rows; cache = λ n. none }

-- The recruiter may post, and the answer is cached; then the permission is taken away.
abbrev requests : List Request
requests = guarded 100 (60 ∷ []) (some 20) ∷ update 2 [] ∷ []

allowed_first : (can_activate memory 100 (60 ∷ []) (some 20) start).0 ≡ ok true
unfolding service
allowed_first = refl

then_forbidden :
    (can_activate memory 200 (60 ∷ []) (some 20) (run memory 50 requests start)).0 ≡ err forbidden
unfolding service
then_forbidden = refl

guard_refines_example :
    (can_activate memory 200 (60 ∷ []) (some 20) (run memory 50 requests start)).0
    ≡ decide memory (60 ∷ []) (some 20) (run memory 50 requests start).store
guard_refines_example =
    guard_refines memory memory-IsDatabase 50 requests rows 200 (60 ∷ []) (some 20)

last_administrator :
    (update_role_permissions memory 50 1 (6 ∷ []) start).0
    ≡ err cannot_remove_last_rbac_admin_permission
unfolding service
last_administrator = refl

unknown_permission :
    (update_role_permissions memory 50 1 (5 ∷ 7 ∷ []) start).0 ≡ err permission_not_found
unfolding service
unknown_permission = refl

abbrev takeover : List Request
takeover = update 2 (5 ∷ 5 ∷ []) ∷ update 1 [] ∷ update 2 [] ∷ []

administrable_first : is_administrable 50 rows ≡ true
unfolding service
administrable_first = refl

run_administrable_example : is_administrable 50 (run memory 50 takeover start).store ≡ true
run_administrable_example =
    run_administrable memory-IsDatabase 50 takeover start administrable_first

abbrev promoted : World Tables
promoted = execute memory 50 (update 2 (5 ∷ 5 ∷ [])) start

promoted_at :
    update_role_permissions memory 50 2 (5 ∷ 5 ∷ []) start
    ≡ (ok (some (record { id = 5; name = 50 } ∷ [])), promoted)
unfolding service
promoted_at = refl
