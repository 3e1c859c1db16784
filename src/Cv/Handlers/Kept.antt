-- ===== src/Cv/Handlers/Kept.antt =====
-- What holds of the CVs after any commands: a CV that is not deleted has its file, and one that an
-- ongoing application refers to is not deleted.
use mathlib.Core.Path.{subst}
use recruitment_platform_be.Prelude.{
  sym, ℕ, ◌≡◌, inl, inr, true, false, not, Option, none, some, List, [], ◌∷◌, ◌||◌, is_some, arith,
}
use recruitment_platform_be.Prelude.Rows.{replace_row, IsDistinct, replace_row-IsDistinct, row-key}
use recruitment_platform_be.Common.Tables.{Database, IsDatabase}
use recruitment_platform_be.Common.Text.{Text}
use recruitment_platform_be.Cv.Files.{UploadedCvFile}
use recruitment_platform_be.Cv.Entity.{Cv}
use recruitment_platform_be.Cv.Tables.{Tables, Storage, IsStorage, find_by_id, update}
use recruitment_platform_be.Cv.Handlers.{
  World, Date, create_cv, publish_cv, update_cv, delete_cv, purge_deleted_cvs,
}
use recruitment_platform_be.Cv.Handlers.Filing.{cv_row, found_row, filed_replaced}
use recruitment_platform_be.Cv.Handlers.Creating.{create-IsCvSound}
use recruitment_platform_be.Cv.Handlers.Edits.{Edits, publish-Edits, update-Edits, delete-Edits}
use recruitment_platform_be.Cv.Handlers.Purging.{IsCvSound, rows, purge-IsCvSound}

pub data Command : Type 0 where
  create_it :
      (max_file_size : ℕ) (date : Date) (user_id fresh_id : ℕ) (title : Text)
      → Option UploadedCvFile
      → Command
  publish_it : (user_id cv_id : ℕ) → Command
  update_it : (user_id cv_id : ℕ) → Option Text → Command
  delete_it : (now user_id cv_id : ℕ) → Command
  purge : (now : ℕ) → Command

module _ {S O : Type 0} (db : Database S Tables) (storage : Storage O) where
  abbrev pub execute : Command → World S O → World S O
  execute (create_it max date u k title file) w = (create_cv db storage max date u k title file w).1
  execute (publish_it u k) w = (publish_cv db storage u k w).1
  execute (update_it u k title) w = (update_cv db storage u k title w).1
  execute (delete_it n u k) w = (delete_cv db storage n u k w).1
  execute (purge n) w = purge_deleted_cvs db storage n w

  unfoldable pub run : List Command → World S O → World S O
  run [] w = w
  run (c ∷ cs) w = run cs (execute c w)

  -- The identifier of a new CV is not in use.
  abbrev pub IsFresh : Command → World S O → Type 0
  IsFresh (create_it max date u k title file) w = cv_row k (rows db w) ≡ none
  IsFresh (publish_it u k) w = Unit {0}
  IsFresh (update_it u k title) w = Unit {0}
  IsFresh (delete_it n u k) w = Unit {0}
  IsFresh (purge n) w = Unit {0}

  abbrev pub AreFresh : List Command → World S O → Type 0
  AreFresh [] w = Unit {0}
  AreFresh (c ∷ cs) w = IsFresh c w × AreFresh cs (execute c w)

module _ {S O : Type 0} {db : Database S Tables} {storage : Storage O} (laws : IsDatabase db)
    (files : IsStorage storage) where
  -- An update of a row that was read writes the row or nothing.
  update-IsCvSound :
      (c x : Cv) (w : World S O)
      → cv_row x.id (rows db w) ≡ some c
      → x.file_key ≡ c.file_key
      → (not (is_some c.deleted_at) || is_some x.deleted_at) ≡ true
      → IsCvSound db storage w
      → IsCvSound db storage (record w { store = (db.commit (update x) w.store).1 })
  unfolding update
  update-IsCvSound c x w there key deleted (distinct, filed) =
      elim (laws.commit_outcome (update x) w.store) [
        | inr (e, failed, same) ↦
            let kept : (db.tables (db.commit (update x) w.store).1).cvs ≡ rows db w =
              ground arith in
            (subst (IsDistinct (λ (c : Cv). c.id)) (sym kept) distinct, λ k. rw kept (filed k))
        | inl (went, changed) ↦
            let cvs = rows db w in
            let e : (db.tables (db.commit (update x) w.store).1).cvs
                ≡ replace_row (λ (c : Cv). c.id) x cvs =
              ground arith in
            (
              subst (IsDistinct (λ (c : Cv). c.id)) (sym e)
                  (replace_row-IsDistinct (λ (c : Cv). c.id) x cvs distinct),
              λ k. rw e (filed_replaced storage k c x cvs w.objects there key deleted (filed k)),
            )
      ]

  found :
      (cv_id : ℕ) (c : Cv) (w : World S O)
      → IsCvSound db storage w
      → find_by_id cv_id (db.tables w.store) ≡ some c
      → (cv_row c.id (rows db w) ≡ some c) × (is_some c.deleted_at ≡ false)
  found cv_id c w (distinct, filed) there =
      let (at, alive) = found_row cv_id c (db.tables w.store) distinct there in
      (ground (arith, row-key (λ (c : Cv). c.id) cv_id c (rows db w) at), alive)

  Edits-IsCvSound :
      (user_id cv_id : ℕ) (w w' : World S O)
      → Edits db storage user_id cv_id w w'
      → IsCvSound db storage w
      → IsCvSound db storage w'
  Edits-IsCvSound user_id cv_id w w' (inl same) sound =
      subst (IsCvSound db storage) (sym same) sound
  Edits-IsCvSound user_id cv_id w w' (inr (c, x, there, owner, id, key, deleted, after)) sound =
      let (at, alive) = found cv_id c w sound there in
      subst (IsCvSound db storage) (sym after)
        (update-IsCvSound c x w (rw id at) key (ground arith) sound)

  pub execute-IsCvSound :
      (c : Command) (w : World S O)
      → IsFresh db storage c w
      → IsCvSound db storage w
      → IsCvSound db storage (execute db storage c w)
  execute-IsCvSound (create_it max date u k title file) w fresh sound =
      create-IsCvSound laws files max date u k title file w fresh sound
  execute-IsCvSound (publish_it u k) w fresh sound =
      Edits-IsCvSound u k w _ (publish-Edits db storage u k w) sound
  execute-IsCvSound (update_it u k title) w fresh sound =
      Edits-IsCvSound u k w _ (update-Edits db storage u k title w) sound
  execute-IsCvSound (delete_it n u k) w fresh sound =
      Edits-IsCvSound u k w _ (delete-Edits db storage n u k w) sound
  execute-IsCvSound (purge n) w fresh sound = purge-IsCvSound laws files n w sound

  -- After any commands, one after the other and failed ones included, each with a new identifier for
  -- a new CV: identifiers are unique and every CV that is not deleted has its file in the storage, if
  -- that was so before, however the database and the storage fail.
  pub run-IsCvSound :
      (cs : List Command) (w : World S O)
      → AreFresh db storage cs w
      → IsCvSound db storage w
      → IsCvSound db storage (run db storage cs w)
  unfolding run
  run-IsCvSound [] w fresh sound = sound
  run-IsCvSound (c ∷ cs) w (now_fresh, fresh) sound =
      run-IsCvSound cs (execute db storage c w) fresh (execute-IsCvSound c w now_fresh sound)
