-- ===== src/Permission/Service.antt =====
-- PermissionsService, PermissionGuard and UpdateRolePermissionsHandler. `now` is what the clock says,
-- and the cache is the Map of the one process.
pub mod Cache
pub mod Survival
use recruitment_platform_be.Prelude.{
  ℕ, ◌+◌, Bool, true, false, not, Option, none, some, List, [], ◌∷◌, ◌==◌, ◌||◌, ltb, all, includes,
  length, unique, or_else, is_some, if◌then◌else◌,
}
use recruitment_platform_be.Prelude.Action.{
  Result, ok, err, Action, pure, throw, throw_if, gets, modify, or_throw, ◌>>=◌, ◌>>◌,
}
use recruitment_platform_be.Common.Tables.{Database, Change}
use recruitment_platform_be.Permission.Exceptions.{
  PermissionException, role_not_found, permission_not_found,
  cannot_remove_last_rbac_admin_permission, unauthorized, forbidden, unexpected,
}
use recruitment_platform_be.Permission.Tables.{
  Tables, PermissionRecord, find_role_by_id, find_permissions_by_role_id,
  find_permission_names_by_role_name, find_existing_ids, find_id_by_name, role_grants_permission_id,
  count_other_roles_granting_permission_id, replace_permissions,
}

pub record CacheEntry : Type 0 where
  pub expires_at : ℕ
  pub permissions : List ℕ

abbrev pub Cache : Type 0
Cache = (role_name : ℕ) → Option CacheEntry

pub record World (S : Type 0) : Type 0 where
  pub store : S
  pub cache : Cache

abbrev pub cache_ttl_ms : ℕ
cache_ttl_ms = 30000

abbrev pub put : ℕ → CacheEntry → Cache → Cache
put name entry cache n = if n == name then some entry else cache n

-- The entry that is still valid.
unfoldable pub valid_entry : (now : ℕ) → Option CacheEntry → Option (List ℕ)
valid_entry now none = none
valid_entry now (some entry) = if ltb now entry.expires_at then some entry.permissions else none

-- Would the write leave no role that may administer the permissions?
unfoldable pub locks_out : (manage role_id : ℕ) (new_ids : List ℕ) → Tables → Bool
unfolding find_id_by_name role_grants_permission_id count_other_roles_granting_permission_id
locks_out manage role_id new_ids t = elim (find_id_by_name manage t) [
  | none ↦ false
  | some id ↦
      if includes id new_ids || not (role_grants_permission_id role_id id t)
      then false
      else count_other_roles_granting_permission_id id role_id t == 0
]

module _ {S : Type 0} (db : Database S Tables) where
  abbrev write : Change Tables → Action PermissionException (World S) (Unit {0})
  write change w = (
    elim (db.commit change w.store).0 [ ok _ ↦ ok tt | err e ↦ err unexpected ],
    record w { store = (db.commit change w.store).1 },
  )

  -- What the database holds for a role.
  unfoldable pub permissions_in : (role_name : ℕ) → S → List ℕ
  permissions_in name s = or_else (find_permission_names_by_role_name name (db.tables s)) []

  unfoldable pub get_permissions_for_role :
      (now role_name : ℕ) → Action PermissionException (World S) (List ℕ)
  unfolding valid_entry permissions_in
  get_permissions_for_role now name w = elim (valid_entry now (w.cache name)) [
    | some permissions ↦ (ok permissions, w)
    | none ↦
        let permissions = permissions_in name w.store in
        let entry : CacheEntry = record {
          expires_at = now + cache_ttl_ms;
          permissions = permissions;
        } in
        (ok permissions, record w { cache = put name entry w.cache })
  ]

  abbrev invalidate_cache : Action PermissionException (World S) (Unit {0})
  invalidate_cache = modify (λ w. record w { cache = λ n. none })

  -- `canActivate`: `user` is the role of the authenticated user, if there is one.
  unfoldable pub can_activate :
      (now : ℕ) (required : List ℕ) (user : Option ℕ) → Action PermissionException (World S) Bool
  can_activate now [] user = pure true
  can_activate now (p ∷ required) user = do
    role ← or_throw user unauthorized
    granted ← get_permissions_for_role now role
    throw_if (not (all (λ q. includes q granted) (p ∷ required))) forbidden
    pure true

  -- `manage` is the name of Permission.ROLE_PERMISSION_MANAGE.
  unfoldable pub update_role_permissions :
      (manage role_id : ℕ) (permission_ids : List ℕ)
      → Action PermissionException (World S) (Option (List PermissionRecord))
  unfolding find_role_by_id find_existing_ids locks_out replace_permissions
      find_permissions_by_role_id
  update_role_permissions manage role_id permission_ids = do
    role ← or_throw (← gets (λ w. find_role_by_id role_id (db.tables w.store))) role_not_found
    let unique_ids : List ℕ = unique permission_ids
    existing ← gets (λ w. find_existing_ids unique_ids (db.tables w.store))
    throw_if (not (length existing == length unique_ids)) permission_not_found
    locked_out ← gets (λ w. locks_out manage role_id unique_ids (db.tables w.store))
    throw_if locked_out cannot_remove_last_rbac_admin_permission
    write (replace_permissions role_id unique_ids)
    invalidate_cache
    gets (λ w. find_permissions_by_role_id role_id (db.tables w.store))
