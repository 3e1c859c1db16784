-- ===== src/Cv/Tables.antt =====
-- The rows of CVs and, of the applications, what the queries of CvPrismaRepository read; and the
-- storage that holds the files, a parameter.
pub mod Memory
use Prim.Native.String.{String}
use recruitment_platform_be.Prelude.{
  ℕ, ◌≡◌, ◌≢◌, Bool, true, false, not, Option, none, some, List, [], ◌∷◌, ◌++◌, map, ◌==◌, ◌&&◌,
  any, filter, find, ltb, is_some, if◌then◌else◌,
}
use recruitment_platform_be.Prelude.Rows.{row, replace_row, without_row}
use recruitment_platform_be.Prelude.Action.{Result, ok, err}
use recruitment_platform_be.Common.Tables.{Change, CommitError, violates, failed}
use recruitment_platform_be.Application.Status.{
  ApplicationStatus, hired, rejected, withdrawn, applied, screening, shortlisted, interview, offer,
}
use recruitment_platform_be.Cv.Entity.{Cv, FileKey}

-- An application, with the recruiter who posted its job.
pub record CvApplication : Type 0 where
  pub cv_id : Option ℕ
  pub posted_by_id : ℕ
  pub status : ApplicationStatus

pub record Tables : Type 0 where
  pub cvs : List Cv
  pub applications : List CvApplication

-- `status: { notIn: ['HIRED', 'REJECTED', 'WITHDRAWN'] }`
abbrev pub is_ongoing : ApplicationStatus → Bool
is_ongoing ApplicationStatus.hired = false
is_ongoing ApplicationStatus.rejected = false
is_ongoing ApplicationStatus.withdrawn = false
is_ongoing ApplicationStatus.applied = true
is_ongoing ApplicationStatus.screening = true
is_ongoing ApplicationStatus.shortlisted = true
is_ongoing ApplicationStatus.interview = true
is_ongoing ApplicationStatus.offer = true

abbrev pub refers_to : (cv_id : ℕ) → CvApplication → Bool
refers_to cv_id a = elim a.cv_id [ none ↦ false | some k ↦ k == cv_id ]

abbrev pub is_live : (id : ℕ) → Cv → Bool
is_live id cv = cv.id == id && not (is_some cv.deleted_at)

-- `findFirst({ where: { id, deletedAt: null } })`
unfoldable pub find_by_id : (id : ℕ) → Tables → Option Cv
find_by_id id t = find (is_live id) t.cvs

abbrev pub is_deleted_before : (cutoff : ℕ) → Cv → Bool
is_deleted_before cutoff cv = elim cv.deleted_at [ none ↦ false | some at ↦ ltb at cutoff ]

unfoldable pub find_soft_deleted_before : (cutoff : ℕ) → Tables → List Cv
find_soft_deleted_before cutoff t = filter (is_deleted_before cutoff) t.cvs

unfoldable pub has_recruiter_access : (cv_id recruiter_id : ℕ) → Tables → Bool
has_recruiter_access cv_id recruiter_id t =
    any (λ a. refers_to cv_id a && a.posted_by_id == recruiter_id) t.applications

unfoldable pub has_active_application_reference : (cv_id : ℕ) → Tables → Bool
has_active_application_reference cv_id t =
    any (λ a. refers_to cv_id a && is_ongoing a.status) t.applications

unfoldable pub create : Cv → Change Tables
create cv t =
    if is_some (row (λ c. c.id) cv.id t.cvs)
    then err (violates "cvs_pkey")
    else ok (record t { cvs = cv ∷ t.cvs })

unfoldable pub update : Cv → Change Tables
update cv t =
    if is_some (row (λ c. c.id) cv.id t.cvs)
    then ok (record t { cvs = replace_row (λ c. c.id) cv t.cvs })
    else err failed

-- An application keeps its row and loses the reference (onDelete: SetNull).
abbrev pub unlinked : (cv_id : ℕ) → CvApplication → CvApplication
unlinked cv_id a = if refers_to cv_id a then record a { cv_id = none } else a

unfoldable pub hard_delete : (id : ℕ) → Change Tables
hard_delete id t =
    if is_some (row (λ c. c.id) id t.cvs)
    then ok (record t {
      cvs = without_row (λ c. c.id) id t.cvs;
      applications = map (unlinked id) t.applications;
    })
    else err failed

-- A call of the storage that throws is `false`.
pub record Storage (O : Type 0) : Type 0 where
  pub holds : FileKey → O → Bool
  pub upload : FileKey → (buffer : List ℕ) → O → Bool × O
  pub delete : FileKey → O → Bool × O

-- A call touches no other key. An upload that does not throw leaves the file there.
pub record IsStorage {O : Type 0} (storage : Storage O) : Type 0 where
  pub upload_holds :
      (k : FileKey) (b : List ℕ) (o : O)
      → (storage.upload k b o).0 ≡ true
      → storage.holds k (storage.upload k b o).1 ≡ true
  pub upload-IsElsewhere :
      (k g : FileKey) (b : List ℕ) (o : O)
      → g ≢ k
      → storage.holds g (storage.upload k b o).1 ≡ storage.holds g o
  pub delete-IsElsewhere :
      (k g : FileKey) (o : O) → g ≢ k → storage.holds g (storage.delete k o).1 ≡ storage.holds g o
