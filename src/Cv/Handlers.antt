-- ===== src/Cv/Handlers.antt =====
-- src/modules/cv/application: the commands, and the queries that hand out a CV. `now` is what the
-- clock says and `date` its year and month; `fresh_id` is the identifier of a new CV. The signed URL
-- of a download is the storage's.
pub mod Edits
pub mod Filing
pub mod Creating
pub mod Kept
pub mod Purging
pub mod Referenced
use Prim.Native.String.{String}
use recruitment_platform_be.Prelude.{
  ℕ, ◌-◌, Bool, true, false, not, Option, none, some, List, [], ◌∷◌, ◌++◌, ◌==◌, ◌||◌,
  if◌then◌else◌,
}
use recruitment_platform_be.Prelude.Action.{
  Result, ok, err, Action, pure, throw, throw_if, gets, modify, or_throw, lift, ◌>>=◌, ◌>>◌,
}
use recruitment_platform_be.Common.Tables.{Database, Change}
use recruitment_platform_be.Common.Text.{Text}
use recruitment_platform_be.Cv.Exceptions.{
  CvException, cv_not_found, cv_download_access_denied, cv_referenced_by_active_application,
  unexpected,
}
use recruitment_platform_be.Cv.Files.{
  UploadedCvFile, CvFileType, validate_uploaded_file, cv_file_extensions,
}
use recruitment_platform_be.Cv.Entity.{
  Cv, FileKey, CvStatus, published, publish, soft_delete, ensure_owner, update_title,
}
use recruitment_platform_be.Cv.Tables.{
  Tables, Storage, find_by_id, find_soft_deleted_before, has_recruiter_access,
  has_active_application_reference, create, update, hard_delete,
}

pub record CvUploadedEvent : Type 0 where
  pub cv_id : ℕ
  pub user_id : ℕ

pub record World (S O : Type 0) : Type 0 where
  pub store : S
  pub objects : O
  pub events : List CvUploadedEvent

pub record Date : Type 0 where
  pub year : ℕ
  pub month : ℕ

unfoldable pub build_cv_file_key : Date → (user_id cv_id : ℕ) (extension : String) → FileKey
build_cv_file_key date user_id cv_id extension = record {
  user_id = user_id;
  year = date.year;
  month = date.month;
  cv_id = cv_id;
  extension = extension;
}

abbrev pub retention_ms : ℕ
retention_ms = 2592000000

-- The new row.
unfoldable pub new_cv : Date → (user_id fresh_id : ℕ) → Text → UploadedCvFile → CvFileType → Cv
unfolding build_cv_file_key
new_cv date user_id fresh_id title file file_type = record {
  id = fresh_id;
  title = title;
  original_name = file.original_name;
  file_type = file_type;
  mime_type = file.mime_type;
  file_size = file.size;
  file_key = build_cv_file_key date user_id fresh_id (cv_file_extensions file_type);
  status = published;
  deleted_at = none;
  user_id = user_id;
}

module _ {S O : Type 0} (db : Database S Tables) (storage : Storage O) where
  abbrev write : Change Tables → Action CvException (World S O) (Unit {0})
  write change w = (
    elim (db.commit change w.store).0 [ ok _ ↦ ok tt | err e ↦ err unexpected ],
    record w { store = (db.commit change w.store).1 },
  )

  abbrev upload : FileKey → List ℕ → Action CvException (World S O) (Unit {0})
  upload key buffer w =
      let (done, objects) = storage.upload key buffer w.objects in
      (if done then ok tt else err unexpected, record w { objects = objects })

  -- `delete(key).catch(...)`
  abbrev delete_caught : FileKey → Action CvException (World S O) (Unit {0})
  delete_caught key = modify (λ w. record w { objects = (storage.delete key w.objects).1 })

  abbrev catch :
      {A : Type 0}
      → Action CvException (World S O) A
      → Action CvException (World S O) A
      → Action CvException (World S O) A
  catch m handler w = let (r, w') = m w in elim r [ ok a ↦ (ok a, w') | err e ↦ handler w' ]

  -- The insert and the event, and what is done when the insert throws.
  unfoldable pub save_uploaded : Cv → Action CvException (World S O) Cv
  unfolding create
  save_uploaded cv =
      catch
        (do
          write (create cv)
          modify (λ w. record w {
            events = w.events ++ record { cv_id = cv.id; user_id = cv.user_id } ∷ [];
          })
          pure cv)
        (do delete_caught cv.file_key; throw unexpected)

  unfoldable pub create_cv :
      (max_file_size : ℕ)
      → Date
      → (user_id fresh_id : ℕ) → Text
      → Option UploadedCvFile
      → Action CvException (World S O) Cv
  unfolding validate_uploaded_file new_cv save_uploaded
  create_cv max_file_size date user_id fresh_id title none =
      elim (validate_uploaded_file none max_file_size) [ ok t ↦ throw unexpected | err e ↦ throw e ]
  create_cv max_file_size date user_id fresh_id title (some file) = do
    file_type ← lift (validate_uploaded_file (some file) max_file_size)
    let cv : Cv = new_cv date user_id fresh_id title file file_type
    upload cv.file_key file.buffer
    save_uploaded cv

  -- `findById`, then the owner check
  unfoldable pub find_owned : (user_id cv_id : ℕ) → Action CvException (World S O) Cv
  unfolding find_by_id ensure_owner
  find_owned user_id cv_id = do
    cv ← or_throw (← gets (λ w. find_by_id cv_id (db.tables w.store))) cv_not_found
    lift (ensure_owner cv user_id)
    pure cv

  unfoldable pub publish_cv : (user_id cv_id : ℕ) → Action CvException (World S O) Cv
  unfolding find_owned publish update
  publish_cv user_id cv_id = do
    cv ← find_owned user_id cv_id
    published_cv ← lift (publish cv)
    write (update published_cv)
    pure published_cv

  abbrev retitled : Option Text → Cv → Result CvException Cv
  retitled none cv = ok cv
  retitled (some title) cv = update_title title cv

  unfoldable pub update_cv :
      (user_id cv_id : ℕ) (title : Option Text) → Action CvException (World S O) Cv
  unfolding find_owned update_title update
  update_cv user_id cv_id title = do
    cv ← find_owned user_id cv_id
    updated ← lift (retitled title cv)
    write (update updated)
    pure updated

  unfoldable pub delete_cv : (now user_id cv_id : ℕ) → Action CvException (World S O) (Unit {0})
  unfolding find_owned has_active_application_reference soft_delete update
  delete_cv now user_id cv_id = do
    cv ← find_owned user_id cv_id
    referenced ← gets (λ w. has_active_application_reference cv_id (db.tables w.store))
    throw_if referenced cv_referenced_by_active_application
    deleted ← lift (soft_delete now cv)
    write (update deleted)

  -- One round of the loop of the purge; what throws in it is logged.
  unfoldable pub purge_one : Cv → World S O → World S O
  unfolding hard_delete
  purge_one cv w =
      let objects = (storage.delete cv.file_key w.objects).1 in
      record w { objects = objects; store = (db.commit (hard_delete cv.id) w.store).1 }

  unfoldable pub purge_all : List Cv → World S O → World S O
  purge_all [] w = w
  purge_all (cv ∷ cvs) w = purge_all cvs (purge_one cv w)

  unfoldable pub purge_deleted_cvs : (now : ℕ) → World S O → World S O
  unfolding find_soft_deleted_before purge_one purge_all
  purge_deleted_cvs now w =
      purge_all (find_soft_deleted_before (now - retention_ms) (db.tables w.store)) w

  -- GetCvQuery, and DownloadCvQuery up to the signing of the URL for `file_key`.
  unfoldable pub get_cv : (requester_id cv_id : ℕ) → Action CvException (World S O) Cv
  unfolding find_by_id has_recruiter_access
  get_cv requester_id cv_id = do
    cv ← or_throw (← gets (λ w. find_by_id cv_id (db.tables w.store))) cv_not_found
    access ← gets (λ w. has_recruiter_access cv_id requester_id (db.tables w.store))
    throw_if (not (cv.user_id == requester_id || access)) cv_download_access_denied
    pure cv
