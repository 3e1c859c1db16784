-- ===== src/Cv/Tests.antt =====
-- The commands on CVs with a file in memory, and the theorems at them.
use recruitment_platform_be.Prelude.{
  ◌-◌, ◌≡◌, ◌≢◌, ◌≤◌, ◌⊎◌, refl, true, false, none, some, List, [], ◌∷◌,
}
use recruitment_platform_be.Prelude.Action.{ok, err}
use recruitment_platform_be.Common.Tables.{memory, memory-IsDatabase}
use recruitment_platform_be.Common.Text.{units, trim}
use recruitment_platform_be.Application.Status.{interview}
use recruitment_platform_be.Cv.Exceptions.{
  cv_invalid_file_type, cv_referenced_by_active_application, cv_title_required,
}
use recruitment_platform_be.Cv.Files.{
  UploadedCvFile, pdf, cv_allowed_mime_types, cv_file_extensions, matches_file_signature,
  validate_uploaded_file,
}
use recruitment_platform_be.Cv.Files.Signatures.{validate_uploaded_file_accepted}
use recruitment_platform_be.Cv.Entity.{
  publish, unpublish, soft_delete, restore, ensure_owner, update_title,
}
use recruitment_platform_be.Cv.Tables.{
  Tables, find_by_id, find_soft_deleted_before, has_recruiter_access,
  has_active_application_reference, create, update, hard_delete,
}
use recruitment_platform_be.Cv.Tables.Memory.{Objects, storage, storage-IsStorage}
use recruitment_platform_be.Cv.Handlers.{
  World, Date, retention_ms, build_cv_file_key, new_cv, save_uploaded, create_cv, find_owned,
  publish_cv, update_cv, delete_cv, purge_one, purge_all, purge_deleted_cvs, get_cv,
}
use recruitment_platform_be.Cv.Handlers.Filing.{cv_row, is_filed}
use recruitment_platform_be.Cv.Handlers.Purging.{
  IsCvSound, rows, is_expired, purge_deleted_cvs_effects,
}
use recruitment_platform_be.Cv.Handlers.Kept.{
  Command, create_it, delete_it, purge, execute, run, run-IsCvSound,
}
use recruitment_platform_be.Cv.Handlers.Referenced.{is_in_use, references, run_in_use}

handlers : Unit {0}
unfolding trim cv_allowed_mime_types cv_file_extensions matches_file_signature
    validate_uploaded_file publish unpublish soft_delete restore ensure_owner update_title
    find_by_id find_soft_deleted_before has_recruiter_access has_active_application_reference create
    update hard_delete build_cv_file_key new_cv save_uploaded create_cv find_owned publish_cv
    update_cv delete_cv purge_one purge_all purge_deleted_cvs get_cv run
handlers = tt

abbrev resume : UploadedCvFile
resume = record {
  original_name = "cv.pdf";
  mime_type = "application/pdf";
  size = 6;
  buffer = 0x25 ∷ 0x50 ∷ 0x44 ∷ 0x46 ∷ 0x2D ∷ 0x31 ∷ [];
}

resume_accepted : validate_uploaded_file (some resume) 100 ≡ ok pdf
unfolding handlers
resume_accepted = refl

validate_uploaded_file_accepted_example :
    (resume.size ≢ 0)
    × (resume.size ≤ 100)
    × (cv_allowed_mime_types resume.mime_type ≡ some pdf)
    × (matches_file_signature resume.buffer pdf ≡ true)
    × ((validate_uploaded_file (some (record resume { mime_type = "application/msword" })) 100
          ≡ ok pdf)
        ⊎ (validate_uploaded_file (some (record resume { mime_type = "application/msword" })) 100
            ≡ err cv_invalid_file_type))
validate_uploaded_file_accepted_example =
    validate_uploaded_file_accepted resume 100 pdf "application/msword" resume_accepted

abbrev start : World Tables Objects
start = record {
  store = record {
    cvs = [];
    applications = record { cv_id = some 7; posted_by_id = 3; status = interview } ∷ [];
  };
  objects = λ k. false;
  events = [];
}

abbrev today : Date
today = record { year = 2026; month = 5 }

abbrev made : World Tables Objects
made =
    execute memory storage (create_it 100 today 4 8 (units "Backend") (some resume))
      (execute memory storage (create_it 100 today 4 7 (units "Backend") (some resume)) start)

start-IsCvSound : IsCvSound memory storage start
start-IsCvSound = (tt, λ k. refl)

empty_title : (update_cv memory storage 4 7 (some (units "  ")) made).0 ≡ err cv_title_required
unfolding handlers
empty_title = refl

referenced : (delete_cv memory storage 50 4 7 made).0 ≡ err cv_referenced_by_active_application
unfolding handlers
referenced = refl

abbrev commands : List Command
commands =
    create_it 100 today 4 7 (units "Backend") (some resume)
    ∷ create_it 100 today 4 8 (units "Backend") (some resume)
    ∷ delete_it 50 4 8
    ∷ purge 2592000100
    ∷ []

-- The CV 8 was deleted and purged.
purged : cv_row 8 (run memory storage commands start).store.cvs ≡ none
unfolding handlers
purged = refl

first_new :
    cv_row 8
      (execute memory storage
        (create_it 100 today 4 7 (units "Backend") (some resume))
        start).store.cvs
    ≡ none
unfolding handlers
first_new = refl

run-IsCvSound_example : IsCvSound memory storage (run memory storage commands start)
run-IsCvSound_example =
    run-IsCvSound memory-IsDatabase storage-IsStorage commands start
      (refl, (first_new, (tt, (tt, tt)))) start-IsCvSound

made-IsCvSound : IsCvSound memory storage made
unfolding handlers
made-IsCvSound =
    run-IsCvSound memory-IsDatabase storage-IsStorage
      (create_it 100 today 4 7 (units "Backend") (some resume)
        ∷ create_it 100 today 4 8 (units "Backend") (some resume)
        ∷ [])
      start (refl, (first_new, tt)) start-IsCvSound

made_in_use : is_in_use 7 made.store ≡ true
unfolding handlers
made_in_use = refl

run_in_use_example :
    let t' = (run memory storage (delete_it 50 4 7 ∷ purge 2592000100 ∷ []) made).store in
    (is_in_use 7 t' ≡ true) × (references 7 t' ≡ references 7 made.store)
run_in_use_example =
    run_in_use memory-IsDatabase storage-IsStorage 7 (delete_it 50 4 7 ∷ purge 2592000100 ∷ []) made
      (tt, (tt, tt)) made-IsCvSound made_in_use

abbrev deleted : World Tables Objects
deleted = execute memory storage (delete_it 50 4 8) made

deleted-IsCvSound : IsCvSound memory storage deleted
unfolding handlers
deleted-IsCvSound =
    run-IsCvSound memory-IsDatabase storage-IsStorage (delete_it 50 4 8 ∷ []) made (tt, tt)
      made-IsCvSound

purge_deleted_cvs_effects_example :
    ((cv_row 8 (rows memory (purge_deleted_cvs memory storage 2592000100 deleted))
        ≡ cv_row 8 (rows memory deleted))
      ⊎ ((cv_row 8 (rows memory (purge_deleted_cvs memory storage 2592000100 deleted)) ≡ none)
          × (is_expired (2592000100 - retention_ms) 8 (rows memory deleted) ≡ true)))
    × (is_filed storage 8
          (rows memory (purge_deleted_cvs memory storage 2592000100 deleted))
          (purge_deleted_cvs memory storage 2592000100 deleted).objects
        ≡ true)
purge_deleted_cvs_effects_example =
    purge_deleted_cvs_effects memory-IsDatabase storage-IsStorage 2592000100 deleted 8
      deleted-IsCvSound
