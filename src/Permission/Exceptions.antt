-- ===== src/Permission/Exceptions.antt =====
-- src/modules/permission/domain/exceptions/permission.exceptions.ts, the two exceptions of the
-- framework that the guard throws, and an error that is passed on.
use Prim.Native.String.{String}
use recruitment_platform_be.Common.Exceptions.{Category}

pub data PermissionException : Type 0 where
  role_not_found permission_not_found : PermissionException
  cannot_remove_last_rbac_admin_permission : PermissionException
  unauthorized forbidden unexpected : PermissionException

pub data Kind : Type 0 where
  domain : (category : Category) → (code : String) → Kind
  not_domain : Kind

unfoldable pub kind : PermissionException → Kind
kind role_not_found = domain Category.entity_not_found "ROLE_NOT_FOUND"
kind permission_not_found = domain Category.entity_not_found "PERMISSION_NOT_FOUND"
kind cannot_remove_last_rbac_admin_permission =
    domain Category.business_rule_violation "CANNOT_REMOVE_LAST_RBAC_ADMIN_PERMISSION"
kind unauthorized = not_domain
kind forbidden = not_domain
kind unexpected = not_domain
