-- ===== src/JobAlert/SavedSearches.antt =====
-- The entity, the exceptions and the commands on saved searches. The rows are in the order of their
-- identifiers, in which the digest reads them; `category_exists` is the lookup port.
pub mod Limit
use Prim.Native.String.{String}
use recruitment_platform_be.Prelude.{
  ℕ, Bool, true, false, not, Option, none, some, List, [], ◌∷◌, ◌==◌, ltb, leb, count, find,
  is_some, if◌then◌else◌,
}
use recruitment_platform_be.Prelude.Rows.{row, without_row}
use recruitment_platform_be.Prelude.Action.{
  Result, ok, err, Action, pure, throw_if, gets, or_throw, ◌>>=◌, ◌>>◌,
}
use recruitment_platform_be.Common.Exceptions.{Category}
use recruitment_platform_be.Common.Tables.{Database, Change, CommitError, violates, failed}

pub data JobAlertException : Type 0 where
  category_not_found saved_search_not_found saved_search_ownership : JobAlertException
  too_many_saved_searches unexpected : JobAlertException

pub data Kind : Type 0 where
  domain : (category : Category) → (code : String) → Kind
  not_domain : Kind

unfoldable pub kind : JobAlertException → Kind
kind category_not_found = domain Category.entity_not_found "JOB_ALERT_CATEGORY_NOT_FOUND"
kind saved_search_not_found = domain Category.entity_not_found "JOB_ALERT_SAVED_SEARCH_NOT_FOUND"
kind saved_search_ownership = domain Category.unauthorized_domain "JOB_ALERT_NOT_OWNER"
kind too_many_saved_searches =
    domain Category.business_rule_violation "JOB_ALERT_SAVED_SEARCH_LIMIT_REACHED"
kind unexpected = not_domain

pub record CreateSavedSearchInput : Type 0 where
  pub keyword : Option String
  pub location : Option String
  pub category_id : Option ℕ
  pub employment_type : Option String
  pub work_mode : Option String

pub record SavedSearch : Type 0 where
  pub id : ℕ
  pub user_id : ℕ
  pub input : CreateSavedSearchInput

abbrev pub max_saved_searches_per_user : ℕ
max_saved_searches_per_user = 20

unfoldable pub count_by_user_id : (user_id : ℕ) → List SavedSearch → ℕ
count_by_user_id user_id rows = count (λ x. x.user_id == user_id) rows

abbrev pub insert_row : SavedSearch → List SavedSearch → List SavedSearch
insert_row x [] = x ∷ []
insert_row x (y ∷ ys) = let rest = insert_row x ys in if ltb x.id y.id then x ∷ y ∷ ys else y ∷ rest

unfoldable pub create : SavedSearch → Change (List SavedSearch)
create x rows =
    if is_some (row (λ y. y.id) x.id rows)
    then err (violates "saved_searches_pkey")
    else ok (insert_row x rows)

unfoldable pub delete : (id : ℕ) → Change (List SavedSearch)
delete id rows =
    if is_some (row (λ y. y.id) id rows) then ok (without_row (λ y. y.id) id rows) else err failed

-- `input.categoryId && !exists(input.categoryId)`
abbrev missing_category : (ℕ → Bool) → Option ℕ → Bool
missing_category exists none = false
missing_category exists (some id) = not (exists id)

module _ {S : Type 0} (db : Database S (List SavedSearch)) where
  abbrev write : Change (List SavedSearch) → Action JobAlertException S (Unit {0})
  write change s = (
    elim (db.commit change s).0 [ ok _ ↦ ok tt | err e ↦ err unexpected ],
    (db.commit change s).1,
  )

  unfoldable pub create_saved_search :
      (category_exists : ℕ → Bool) (user_id fresh_id : ℕ)
      → CreateSavedSearchInput
      → Action JobAlertException S SavedSearch
  unfolding count_by_user_id create
  create_saved_search category_exists user_id fresh_id input = do
    existing_count ← gets (λ s. count_by_user_id user_id (db.tables s))
    throw_if (leb max_saved_searches_per_user existing_count) too_many_saved_searches
    throw_if (missing_category category_exists input.category_id) category_not_found
    let saved_search : SavedSearch = record { id = fresh_id; user_id = user_id; input = input }
    write (create saved_search)
    pure saved_search

  unfoldable pub delete_saved_search :
      (user_id saved_search_id : ℕ) → Action JobAlertException S (Unit {0})
  unfolding delete
  delete_saved_search user_id id = do
    saved_search ← or_throw (← gets (λ s. row (λ y. y.id) id (db.tables s))) saved_search_not_found
    throw_if (not (saved_search.user_id == user_id)) saved_search_ownership
    write (delete id)
