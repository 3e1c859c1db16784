-- ===== src/Company/Handlers.antt =====
-- The commands of src/modules/company. `is_owned_url` is what the storage says of a URL that it has
-- issued, `decompose` the name in lower case and decomposed.
pub mod Effects
pub mod Soundness
pub mod Runs
pub mod Refusals
pub mod Deletion
use Prim.Native.String.{String}
use text.Mathlib.Text.{◌==◌ as str_eq}
use recruitment_platform_be.Prelude.{
  ℕ, suc, Bool, true, false, not, Option, none, some, List, [], ◌∷◌, map, ◌==◌, ◌||◌, length,
  is_some, if◌then◌else◌,
}
use recruitment_platform_be.Prelude.Action.{
  Result, ok, err, Action, pure, throw_if, gets, or_throw, lift, ◌>>=◌, ◌>>◌,
}
use recruitment_platform_be.Common.Tables.{Database, Change, CommitError, violates, failed}
use recruitment_platform_be.Common.Text.{Text}
use recruitment_platform_be.Company.Slug.{generate_unique_slug}
use recruitment_platform_be.Company.Tables.{
  CompanyException, company_not_found, company_already_exists, company_slug_taken, invalid_logo_url,
  unexpected, Details, Company, Tables, ensure_owner, soft_delete, is_empty, update_details,
  find_by_id, find_by_owner_id, create_with_owner_link, update,
}

pub record CreateCompanyInput : Type 0 where
  pub name : String
  pub details : Details

pub record UpdateCompanyInput : Type 0 where
  pub name : Option String
  pub details : Details

-- `input.logoUrl && !isOwnedUrl(input.logoUrl)`
abbrev pub foreign_url : (String → Bool) → Option String → Bool
foreign_url is_owned_url none = false
foreign_url is_owned_url (some url) = not (is_empty url || is_owned_url url)

-- What the handler makes of an error of the insert.
abbrev pub blame : CommitError → CompanyException
blame (violates constraint) =
    if str_eq constraint "companies_slug_key" then company_slug_taken else company_already_exists
blame failed = unexpected

abbrev pub slugs : Tables → List Text
slugs t = map (λ c. c.slug) t.companies

module _ {S : Type 0} (db : Database S Tables) where
  abbrev write :
      (CommitError → CompanyException) → Change Tables → Action CompanyException S (Unit {0})
  write f change s =
      (elim (db.commit change s).0 [ ok _ ↦ ok tt | err e ↦ err (f e) ], (db.commit change s).1)

  module _ (is_owned_url : String → Bool) (decompose : String → Text) where
    -- Up to the insert. The loop for a slug has one unit of fuel more than there are companies.
    unfoldable pub prepare_company :
        (owner_id fresh_id : ℕ) → CreateCompanyInput → Action CompanyException S Company
    unfolding find_by_owner_id generate_unique_slug
    prepare_company owner_id fresh_id input = do
      existing ← gets (λ s. find_by_owner_id owner_id (db.tables s))
      throw_if (is_some existing) company_already_exists
      throw_if (foreign_url is_owned_url input.details.logo_url) invalid_logo_url
      taken ← gets (λ s. slugs (db.tables s))
      slug ←
          or_throw (generate_unique_slug (suc (length taken)) (decompose input.name) taken)
            unexpected
      pure (record {
        id = fresh_id;
        name = input.name;
        slug = slug;
        details = input.details;
        deleted_at = none;
        owner_id = owner_id;
      })

    unfoldable pub insert_company : Company → Action CompanyException S Company
    unfolding create_with_owner_link
    insert_company company = do write blame (create_with_owner_link company); pure company

    unfoldable pub create_company :
        (owner_id fresh_id : ℕ) → CreateCompanyInput → Action CompanyException S Company
    create_company owner_id fresh_id input = do
      company ← prepare_company owner_id fresh_id input
      insert_company company

    unfoldable pub update_company :
        (owner_id company_id : ℕ) → UpdateCompanyInput → Action CompanyException S Company
    unfolding find_by_id ensure_owner update_details update
    update_company owner_id company_id input = do
      company ← or_throw (← gets (λ s. find_by_id company_id (db.tables s))) company_not_found
      lift (ensure_owner owner_id company)
      throw_if (foreign_url is_owned_url input.details.logo_url) invalid_logo_url
      let company : Company = update_details input.name input.details company
      write (λ e. unexpected) (update company)
      pure company

  unfoldable pub delete_company :
      (now owner_id company_id : ℕ) → Action CompanyException S (Unit {0})
  unfolding find_by_id ensure_owner soft_delete update
  delete_company now owner_id company_id = do
    company ← or_throw (← gets (λ s. find_by_id company_id (db.tables s))) company_not_found
    lift (ensure_owner owner_id company)
    company ← lift (soft_delete now company)
    write (λ e. unexpected) (update company)
