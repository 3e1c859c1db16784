-- ===== src/Cv/Entity.antt =====
-- src/modules/cv/domain/entities/cv.entity.ts. The key of a file, cvs/{user}/{year}/{month}/{cv}.{ext}
-- (`buildCvFileKey` of create-cv.command.ts), is the record of its parts.
use Prim.Native.String.{String}
use recruitment_platform_be.Prelude.{
  ℕ, Bool, true, false, not, Option, none, some, ◌==◌, is_some, if◌then◌else◌,
}
use recruitment_platform_be.Prelude.Action.{Result, ok, err, check}
use recruitment_platform_be.Common.Text.{Text, is_empty, trim}
use recruitment_platform_be.Cv.Exceptions.{
  CvException, cv_already_published, cv_already_draft, cv_already_deleted, cv_not_deleted,
  cv_ownership, cv_title_required,
}
use recruitment_platform_be.Cv.Files.{CvFileType}

pub data CvStatus : Type 0 where
  draft published : CvStatus

pub record FileKey : Type 0 where
  pub user_id : ℕ
  pub year : ℕ
  pub month : ℕ
  pub cv_id : ℕ
  pub extension : String

pub record Cv : Type 0 where
  pub id : ℕ
  pub title : Text
  pub original_name : String
  pub file_type : CvFileType
  pub mime_type : String
  pub file_size : ℕ
  pub file_key : FileKey
  pub status : CvStatus
  pub deleted_at : Option ℕ
  pub user_id : ℕ

abbrev pub is_published : Cv → Bool
is_published cv = elim cv.status [ CvStatus.published ↦ true | CvStatus.draft ↦ false ]

unfoldable pub publish : Cv → Result CvException Cv
publish cv =
    if is_published cv
    then err cv_already_published
    else ok (record cv { status = CvStatus.published })

unfoldable pub unpublish : Cv → Result CvException Cv
unpublish cv =
    if not (is_published cv)
    then err cv_already_draft
    else ok (record cv { status = CvStatus.draft })

unfoldable pub soft_delete : (now : ℕ) → Cv → Result CvException Cv
soft_delete now cv =
    if is_some cv.deleted_at
    then err cv_already_deleted
    else ok (record cv { deleted_at = some now })

unfoldable pub restore : Cv → Result CvException Cv
restore cv =
    if is_some cv.deleted_at then ok (record cv { deleted_at = none }) else err cv_not_deleted

unfoldable pub ensure_owner : Cv → (user_id : ℕ) → Result CvException (Unit {0})
ensure_owner cv user_id = check (cv.user_id == user_id) cv_ownership

unfoldable pub update_title : Text → Cv → Result CvException Cv
update_title title cv =
    if is_empty (trim title) then err cv_title_required else ok (record cv { title = trim title })
