-- ===== src/Permission/Tables.antt =====
-- The rows of roles, permissions and what each role grants (RolePrismaRepository and
-- PermissionPrismaRepository, with the repositories that call them). Names are numbers: the code only
-- compares them.
use recruitment_platform_be.Prelude.{
  ℕ, Bool, not, Option, none, some, List, [], ◌∷◌, ◌++◌, map, ◌==◌, ◌&&◌, any, filter, find, count,
  includes, if◌then◌else◌,
}
use recruitment_platform_be.Prelude.Action.{ok}
use recruitment_platform_be.Common.Tables.{Change}

pub record Role : Type 0 where
  pub id : ℕ
  pub name : ℕ

pub record PermissionRecord : Type 0 where
  pub id : ℕ
  pub name : ℕ

pub record RolePermission : Type 0 where
  pub role_id : ℕ
  pub permission_id : ℕ

pub record Tables : Type 0 where
  pub roles : List Role
  pub permissions : List PermissionRecord
  pub role_permissions : List RolePermission

unfoldable pub find_role_by_id : (id : ℕ) → Tables → Option Role
find_role_by_id id t = find (λ r. r.id == id) t.roles

unfoldable pub find_role_by_name : (name : ℕ) → Tables → Option Role
find_role_by_name name t = find (λ r. r.name == name) t.roles

-- `include: { rolePermissions: { include: { permission: true } } }`
unfoldable pub granted :
    (role_id : ℕ) → List PermissionRecord → List RolePermission → List PermissionRecord
granted role_id permissions [] = []
granted role_id permissions (g ∷ gs) =
    let rest = granted role_id permissions gs in
    elim (if g.role_id == role_id then find (λ p. p.id == g.permission_id) permissions else none) [
      | some p ↦ p ∷ rest
      | none ↦ rest
    ]

unfoldable pub find_permissions_by_role_id : (role_id : ℕ) → Tables → Option (List PermissionRecord)
unfolding find_role_by_id granted
find_permissions_by_role_id id t = elim (find_role_by_id id t) [
  | none ↦ none
  | some r ↦ some (granted r.id t.permissions t.role_permissions)
]

unfoldable pub find_permission_names_by_role_name : (role_name : ℕ) → Tables → Option (List ℕ)
unfolding find_role_by_name granted
find_permission_names_by_role_name name t = elim (find_role_by_name name t) [
  | none ↦ none
  | some r ↦ some (map (λ p. p.name) (granted r.id t.permissions t.role_permissions))
]

unfoldable pub find_existing_ids : (ids : List ℕ) → Tables → List ℕ
find_existing_ids ids t = map (λ p. p.id) (filter (λ p. includes p.id ids) t.permissions)

unfoldable pub find_id_by_name : (name : ℕ) → Tables → Option ℕ
find_id_by_name name t = elim (find (λ p. p.name == name) t.permissions) [
  | none ↦ none
  | some p ↦ some p.id
]

abbrev pub grants : (role_id permission_id : ℕ) → RolePermission → Bool
grants role_id permission_id g = g.role_id == role_id && g.permission_id == permission_id

unfoldable pub role_grants_permission_id : (role_id permission_id : ℕ) → Tables → Bool
role_grants_permission_id role_id permission_id t =
    any (grants role_id permission_id) t.role_permissions

abbrev pub grants_elsewhere : (permission_id excluding_role_id : ℕ) → RolePermission → Bool
grants_elsewhere permission_id excluding_role_id g =
    g.permission_id == permission_id && not (g.role_id == excluding_role_id)

unfoldable pub count_other_roles_granting_permission_id :
    (permission_id excluding_role_id : ℕ) → Tables → ℕ
count_other_roles_granting_permission_id permission_id excluding_role_id t =
    count (grants_elsewhere permission_id excluding_role_id) t.role_permissions

abbrev pub rows_of : (role_id : ℕ) → List ℕ → List RolePermission
rows_of role_id ids = map (λ id. record { role_id = role_id; permission_id = id }) ids

-- `deleteMany` and `createMany` in one transaction
unfoldable pub replace_permissions : (role_id : ℕ) (permission_ids : List ℕ) → Change Tables
replace_permissions role_id ids t = ok (record t {
  role_permissions =
      filter (λ g. not (g.role_id == role_id)) t.role_permissions ++ rows_of role_id ids;
})
