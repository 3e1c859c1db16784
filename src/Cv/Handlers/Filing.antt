-- ===== src/Cv/Handlers/Filing.antt =====
-- When a row has its file: what the changes of rows and of the storage do to that.
use recruitment_platform_be.Prelude.{
  ℕ, ◌≡◌, ◌≢◌, inl, inr, Bool, true, false, not, Option, none, some, List, [], ◌∷◌, ◌==◌, ◌&&◌,
  ◌||◌, ==_iff, find, is_some, ap, arith, Option-cases, Bool-cases,
}
use recruitment_platform_be.Prelude.Rows.{
  row, replace_row, without_row, IsDistinct, row-replace_row, row-without_row, any_of_row,
}
use recruitment_platform_be.Cv.Entity.{Cv, FileKey}
use recruitment_platform_be.Cv.Tables.{Tables, Storage, IsStorage, is_live, find_by_id}

abbrev pub cv_row : ℕ → List Cv → Option Cv
cv_row = row (λ c. c.id)

-- In a table with a primary key the row that is found is the one of the key, and not deleted.
live_row :
    (k : ℕ) (c : Cv) (cvs : List Cv)
    → IsDistinct (λ c. c.id) cvs
    → find (is_live k) cvs ≡ some c
    → (cv_row k cvs ≡ some c) × (is_some c.deleted_at ≡ false)
live_row k c [] h found = absurd (ground arith)
live_row k c (x ∷ xs) (other, h) found = elim (Bool-cases (x.id == k)) [
  | inr elsewhere ↦ let rest = live_row k c xs h (ground arith) in (ground (arith, rest.0), rest.1)
  | inl here ↦ elim (Bool-cases (is_some x.deleted_at)) [
    | inr alive ↦ (ground arith, ground arith)
    | inl gone ↦
        let rest = live_row k c xs h (ground arith) in
        absurd (ground (arith, rest.0, any_of_row (λ c. c.id) k xs, ==_iff x.id k, other))
  ]
]

pub found_row :
    (k : ℕ) (c : Cv) (t : Tables)
    → IsDistinct (λ c. c.id) t.cvs
    → find_by_id k t ≡ some c
    → (cv_row k t.cvs ≡ some c) × (is_some c.deleted_at ≡ false)
unfolding find_by_id
found_row k c t h found = live_row k c t.cvs h found

module _ {O : Type 0} (storage : Storage O) where
  -- The row of this key, if there is one, has a key of its own for the file, and the file is there
  -- unless the row is deleted.
  abbrev pub is_filed : (k : ℕ) → List Cv → O → Bool
  is_filed k cvs o = elim (cv_row k cvs) [
    | none ↦ true
    | some c ↦ c.file_key.cv_id == k && (is_some c.deleted_at || storage.holds c.file_key o)
  ]

  -- The files of other CVs are as they were.
  abbrev pub IsElsewhere : (j : ℕ) → O → O → Type 0
  IsElsewhere j o o' =
      (g : FileKey) → (g.cv_id == j) ≡ false → storage.holds g o' ≡ storage.holds g o

  pub filed_elsewhere :
      (k j : ℕ) (cvs cvs' : List Cv) (o o' : O)
      → IsElsewhere j o o'
      → (k == j) ≡ false
      → cv_row k cvs' ≡ cv_row k cvs
      → is_filed k cvs o ≡ true
      → is_filed k cvs' o' ≡ true
  filed_elsewhere k j cvs cvs' o o' elsewhere other same filed =
      elim (Option-cases (cv_row k cvs)) [
        | inl missing ↦ ground arith
        | inr (c, there) ↦ ground (arith, elsewhere c.file_key, ==_iff c.file_key.cv_id k)
      ]

  -- A row that is replaced keeps its file, or is deleted.
  pub filed_replaced :
      (k : ℕ) (c x : Cv) (cvs : List Cv) (o : O)
      → cv_row x.id cvs ≡ some c
      → x.file_key ≡ c.file_key
      → (not (is_some c.deleted_at) || is_some x.deleted_at) ≡ true
      → is_filed k cvs o ≡ true
      → is_filed k (replace_row (λ c. c.id) x cvs) o ≡ true
  filed_replaced k c x cvs o there key deleted filed =
      ground (arith, row-replace_row (λ (c : Cv). c.id) k x cvs, ==_iff x.id k)

  pub filed_without :
      (k j : ℕ) (cvs : List Cv) (o : O)
      → is_filed k cvs o ≡ true
      → is_filed k (without_row (λ c. c.id) j cvs) o ≡ true
  filed_without k j cvs o filed = ground (arith, row-without_row (λ (c : Cv). c.id) k j cvs)

  module _ (laws : IsStorage storage) where
    differ : (g key : FileKey) → (g.cv_id == key.cv_id) ≡ false → g ≢ key
    differ g key other same =
        ground (arith, ap (λ (f : FileKey). f.cv_id) same, ==_iff g.cv_id key.cv_id)

    pub upload-IsElsewhere :
        (key : FileKey) (b : List ℕ) (o : O) → IsElsewhere key.cv_id o (storage.upload key b o).1
    upload-IsElsewhere key b o g other = laws.upload-IsElsewhere key g b o (differ g key other)

    pub delete-IsElsewhere :
        (key : FileKey) (o : O) → IsElsewhere key.cv_id o (storage.delete key o).1
    delete-IsElsewhere key o g other = laws.delete-IsElsewhere key g o (differ g key other)
