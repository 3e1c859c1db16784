-- ===== src/Common/Database.antt =====
-- How a write to the database ends when it does not go through. `unique_violation` is Prisma's
-- P2002, which `isUniqueConstraintViolation` of src/common/utils/prisma-error.util.ts looks for.
use recruitment_platform_be.Prelude.{Bool, true, false}

pub data DatabaseError : Type 0 where
  unique_violation other_failure : DatabaseError

abbrev pub is_unique_constraint_violation : DatabaseError → Bool
is_unique_constraint_violation unique_violation = true
is_unique_constraint_violation other_failure = false
